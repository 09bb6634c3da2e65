-- ===== src/Form/Edits/Frame.antt =====
-- What an edit of one control leaves alone.
use schemaform.Prelude.{
  ℕ, zero, suc, ◌≡◌, ◌≢◌, refl, ap, ◌⊎◌, inl, inr, Option, List, [], ◌∷◌, get_elem?, set, and_then,
  arith, Option-cases, Bool-cases, ◌==◌, get_elem?-set_self,
}
use schemaform.Form.State.{Form, ControlState, ArrayState, ArrayItemState}
use schemaform.Form.Lookup.{
  ControlLocation, static_control, array_item, control_state, set_control_state, set_in_array,
  arrays_with,
}

get_elem?-set_ne {ℓ} :
    {A : Type ℓ} (xs : List A) (i k : ℕ) (v : A) → i ≢ k → get_elem? (set xs i v) k ≡ get_elem? xs k
get_elem?-set_ne [] i k v h = refl
get_elem?-set_ne (x ∷ xs) zero zero v h = absurd (h refl)
get_elem?-set_ne (x ∷ xs) zero (suc k) v h = refl
get_elem?-set_ne (x ∷ xs) (suc i) zero v h = refl
get_elem?-set_ne (x ∷ xs) (suc i) (suc k) v h = get_elem?-set_ne xs i k v (λ e. h (ap suc e))

module _ {P : Type 0} where
  -- The location is the one written, or its control is as it was.
  abbrev pub IsKept : Form P → Form P → (location other : ControlLocation) → Type 0
  IsKept form form' location other =
      (other ≡ location) ⊎ (control_state form' other ≡ control_state form other)

  abbrev read : ArrayState P → ℕ → ℕ → Option (ControlState P)
  read array m l =
      and_then (get_elem? array.items m) λ (item : ArrayItemState P). get_elem? item.controls l

  read-set_in_array :
      (array : ArrayState P) (i k : ℕ) (c : ControlState P) (m l : ℕ)
      → ((m ≡ i) × (l ≡ k)) ⊎ (read (set_in_array i k c array) m l ≡ read array m l)
  read-set_in_array array i k c m l = elim (Option-cases (get_elem? array.items i)) [
    | inl e ↦ inr (rw (set_in_array, e) refl)
    | inr (item, e) ↦
        let item' = record item { controls = set item.controls k c } in
        elim (Bool-cases (i == m)) [
          | inr other ↦
              let kept = get_elem?-set_ne array.items i m item' (ground arith) in
              inr (rw (set_in_array, e, kept) refl)
          | inl here ↦
              let same : i ≡ m = ground arith in
              let read_back = get_elem?-set_self array.items i item item' e in
              elim (Bool-cases (k == l)) [
                | inl here' ↦ inl (ground arith, ground arith)
                | inr other ↦
                    let kept = get_elem?-set_ne item.controls k l c (ground arith) in
                    inr (rw (← same, set_in_array, e, read_back) kept)
              ]
        ]
  ]

  pub set_control_state-IsKept :
      (form : Form P) (location : ControlLocation) (c : ControlState P) (other : ControlLocation)
      → IsKept form (set_control_state form location c) location other
  unfolding control_state set_control_state
  set_control_state-IsKept form (static_control k) c (static_control l) =
      elim (Bool-cases (k == l)) [
        | inl e ↦ inl (ground arith)
        | inr e ↦ inr (get_elem?-set_ne form.controls k l c (ground arith))
      ]
  set_control_state-IsKept form (static_control k) c (array_item b m l) = inr refl
  set_control_state-IsKept form (array_item a i k) c (static_control l) = inr refl
  set_control_state-IsKept form (array_item a i k) c (array_item b m l) =
      elim (Option-cases (get_elem? form.arrays a)) [
        | inl e ↦ inr (rw (arrays_with, e) refl)
        | inr (array, e) ↦
            let array' = set_in_array i k c array in
            elim (Bool-cases (a == b)) [
              | inr other ↦
                  let kept = get_elem?-set_ne form.arrays a b array' (ground arith) in
                  inr (rw (arrays_with, e, kept) refl)
              | inl here ↦
                  let same : a ≡ b = ground arith in
                  let read_back = get_elem?-set_self form.arrays a array array' e in
                  elim (read-set_in_array array i k c m l) [
                    | inl (at, at') ↦ inl (cc)
                    | inr kept ↦ inr (rw (← same, arrays_with, e, read_back) kept)
                  ]
            ]
      ]

  -- An edit leaves the baseline, the identities, the fingerprint and the attempt to submit, and every
  -- control but the one edited.
  pub record KeepsOthers (form form' : Form P) (location : ControlLocation) : Type 0 where
    pub baseline_kept : form'.baseline ≡ form.baseline
    pub baseline_identities_kept : form'.baseline_array_identities ≡ form.baseline_array_identities
    pub fingerprint_kept : form'.definition_fingerprint ≡ form.definition_fingerprint
    pub attempt_kept : form'.submission_attempted ≡ form.submission_attempted
    pub next_identity_kept : form'.next_item_identity ≡ form.next_item_identity
    pub controls_kept : (other : ControlLocation) → IsKept form form' location other
