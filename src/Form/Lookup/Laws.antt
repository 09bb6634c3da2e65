-- ===== src/Form/Lookup/Laws.antt =====
-- A control that is found is there.
use schemaform.Prelude.{
  ℕ, suc, ◌+◌, ◌≡◌, refl, Option, some, List, [], ◌∷◌, get_elem?, arith, inl, inr, Option-cases,
  position_lem, position, Bool, set, get_elem?-set_self,
}
use schemaform.Json.{Text, text_eq}
use schemaform.Pointer.{JsonPtr}
use schemaform.Form.State.{Form, ControlState, ArrayState}
use schemaform.Form.Lookup.{
  find_map_from, ControlLocation, static_control, array_item, control_location, control_state,
  set_control_state, item_location, control_in_item, array_item_pointer,
}
use native.Mathlib.Nat.{add-zero, add-suc, suc-add}

find_map_from_lem {ℓ κ} :
    {A : Type ℓ} {B : Type κ} (f : ℕ → A → Option B) (i : ℕ) (xs : List A) (b : B)
    → find_map_from f i xs ≡ some b
    → (k : ℕ) × (x : A) × (get_elem? xs k ≡ some x) × (f (i + k) x ≡ some b)
unfolding find_map_from
find_map_from_lem f i [] b h = ground arith
find_map_from_lem f i (x ∷ xs) b h = elim (Option-cases (f i x)) [
  | inl e ↦
      let (k, y, there, found) = find_map_from_lem f (suc i) xs b (ground (arith, e)) in
      (suc k, y, there, rw (add-suc, ← suc-add) found)
  | inr (c, e) ↦ (0, x, refl, rw add-zero (ground (arith, e)))
]

module _ (j : JsonPtr) where
  open j use {PointerBuf, as_str}

  abbrev bound_by : Text → ControlState PointerBuf → Bool
  bound_by binding control = text_eq (as_str control.definition.binding) binding

  in_array : Text → ℕ → ArrayState PointerBuf → Option ControlLocation
  in_array binding index array =
      find_map_from (item_location j binding array.definition.binding index) 0 array.items

  in_arrays : Form PointerBuf → Text → Option ControlLocation
  unfolding in_array
  in_arrays form binding = find_map_from (in_array binding) 0 form.arrays

  in_arrays-control_state :
      (form : Form PointerBuf) (binding : Text) (location : ControlLocation)
      → in_arrays form binding ≡ some location
      → (c : ControlState PointerBuf) × (control_state form location ≡ some c)
  unfolding in_arrays item_location control_in_item control_state
  in_arrays-control_state form binding location h =
      let (a, array, ta, ha) = find_map_from_lem (in_array binding) 0 form.arrays location h in
      let (i, item, ti, hi) =
        find_map_from_lem (item_location j binding array.definition.binding (0 + a)) 0 array.items
          location ha in
      let (c, control, tc, hc) =
        find_map_from_lem
          (control_in_item j binding (0 + a) (0 + i)
            (array_item_pointer j array.definition.binding (0 + i)))
          0 item.controls location hi in
      let here : location ≡ array_item a i c = ground arith in (control, ground arith)

  -- Where `control_location` finds a binding there is a control.
  pub control_location-control_state :
      (form : Form PointerBuf) (binding : Text) (location : ControlLocation)
      → control_location j form binding ≡ some location
      → (c : ControlState PointerBuf) × (control_state form location ≡ some c)
  unfolding control_location control_state in_arrays
  control_location-control_state form binding location h =
      elim (Option-cases (position (bound_by binding) form.controls)) [
        | inr (k, e) ↦
            let (c, there, _) = position_lem (bound_by binding) form.controls k e in
            let here : location ≡ static_control k = ground (arith, e) in (c, rw here there)
        | inl e ↦ in_arrays-control_state form binding location (ground (arith, e))
      ]

module _ {P : Type 0} where
  -- What is written at a location is read back there.
  pub control_state-set_control_state :
      (form : Form P) (location : ControlLocation) (c c' : ControlState P)
      → control_state form location ≡ some c
      → control_state (set_control_state form location c') location ≡ some c'
  unfolding control_state set_control_state
  control_state-set_control_state form (static_control k) c c' h =
      get_elem?-set_self form.controls k c c' h
  control_state-set_control_state form (array_item a i k) c c' h =
      elim (Option-cases (get_elem? form.arrays a)) [
        | inl e ↦ absurd (ground (arith, e))
        | inr (array, e) ↦ elim (Option-cases (get_elem? array.items i)) [
          | inl e' ↦ absurd (ground (arith, e, e'))
          | inr (item, e') ↦
              let item' = record item { controls = set item.controls k c' } in
              let array' = record array { items = set array.items i item' } in
              ground (
                arith,
                e,
                e',
                get_elem?-set_self form.arrays a array array' e,
                get_elem?-set_self array.items i item item' e',
                get_elem?-set_self item.controls k c c',
              )
        ]
      ]
