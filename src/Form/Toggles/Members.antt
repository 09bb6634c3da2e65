-- ===== src/Form/Toggles/Members.antt =====
-- The members that a toggle works on, and where those are that it takes out.
use schemaform.Prelude.{
  ℕ, suc, ◌+◌, ◌≡◌, refl, ap, ◌∙◌, ◌⊎◌, inl, inr, Bool, true, none, some, List, [], ◌∷◌, find,
  position, and_then, map_or, arith, Bool-cases, Option-cases,
}
use schemaform.Json.{Text, Value, array_of, as_array, to_list, of_list, is_array}
use schemaform.Pointer.{JsonPtr}
use schemaform.Pointer.Bound.{set_bound_value}
use schemaform.Pointer.Frame.{resolve-set_bound_value}
use schemaform.Form.State.{Form, ArrayState}
use schemaform.Form.Parsing.{Parsers}
use schemaform.Form.Arrays.{bound_at, array_values, array_values_mut}
use schemaform.Form.Arrays.Aligned.{array_values_mut-Referent}
use schemaform.Form.Arrays.Steps.{array_values-none}
use schemaform.Form.Toggles.{positions, array_can_toggle_choice}
use schemaform.Form.Toggles.Arranged.{present}

-- The first of the indices, where there is one.
pub positions-none :
    (p : Value → Bool) (i : ℕ) (values : List Value)
    → positions p i values ≡ []
    → position p values ≡ none
positions-none p i [] h = refl
positions-none p i (v ∷ values) h = elim (Bool-cases (p v)) [
  | inl e ↦ absurd (ground (arith, e))
  | inr e ↦ ground (arith, e, positions-none p (suc i) values)
]

pub positions-some :
    (p : Value → Bool) (i k : ℕ) (values : List Value) (rest : List ℕ)
    → positions p i values ≡ k ∷ rest
    → (n : ℕ) × (position p values ≡ some n) × (k ≡ i + n)
positions-some p i k [] rest h = absurd (ground arith)
positions-some p i k (v ∷ values) rest h = elim (Bool-cases (p v)) [
  | inl e ↦ (0, rw e refl, ground (arith, e))
  | inr e ↦
      let (n, at, sum) = positions-some p (suc i) k values rest (ground (arith, e)) in
      (suc n, rw (e, at) refl, omega (arith, sum))
]

is_array-as_array : (v : Value) → is_array v ≡ true → (vs : List Value) × (as_array v ≡ some vs)
unfolding as_array
is_array-as_array (Value.array vs) h = (to_list vs, refl)
is_array-as_array _ h = absurd (ground arith)

module _ (j : JsonPtr) (parsers : Parsers) where
  open j use {PointerBuf, resolve}

  abbrev pub members : PointerBuf → Value → List Value
  members p d = map_or (and_then (resolve p d) as_array) [] (λ values. values)

  -- The data that a toggle changes, and the members in it: the array's, or none of an array that is
  -- absent and is bound empty.
  abbrev pub Prepares : Form PointerBuf → ArrayState PointerBuf → Value → List Value → Type 0
  Prepares form array d values =
      ((array_values j array.definition.binding form.form_data ≡ some values)
        × (d ≡ form.form_data))
      ⊎ ((resolve array.definition.binding form.form_data ≡ none)
          × (set_bound_value j array.definition.binding form.form_data (array_of []) ≡ some d)
          × (values ≡ []))

  pub prepared :
      (form : Form PointerBuf) (binding : Text) (i : ℕ) (array : ArrayState PointerBuf) (d : Value)
      → find (bound_at j binding) form.arrays ≡ some array
      → array_can_toggle_choice j parsers form binding ≡ true
      → present j parsers form array ≡ some d
      → (values : List Value) × (put_back : List Value → Value) × (array_values_mut j
            array.definition.binding d
          ≡ some (values, put_back))
        × Prepares form array d values
        × (members array.definition.binding form.form_data ≡ values)
  unfolding array_can_toggle_choice as_array to_list of_list
  prepared form binding i array d there can made =
      elim (Option-cases (resolve array.definition.binding form.form_data)) [
        | inl absent ↦
            let bound : set_bound_value j array.definition.binding form.form_data (array_of [])
                ≡ some d =
              ground (arith, absent, made) in
            let reads =
              resolve-set_bound_value j array.definition.binding form.form_data (array_of []) d
                bound in
            let held : array_values j array.definition.binding d ≡ some [] = rw reads refl in
            elim (Option-cases (array_values_mut j array.definition.binding d)) [
              | inl lost ↦ absurd (
                  let none_held = array_values-none j array.definition.binding d lost in
                  ground (arith, none_held, held))
              | inr ((values, put_back), e) ↦
                  let r =
                    array_values_mut-Referent j array.definition.binding d values put_back e in
                  let empty : values ≡ [] = ground (arith, r.present, held) in
                  (values, put_back, e, inr (absent, bound, empty), rw (absent, empty) refl)
            ]
        | inr (now, is) ↦
            let same : d ≡ form.form_data = ground (arith, is, made) in
            let list : is_array now ≡ true = ground (arith, there, can) in
            let (vs, e') = is_array-as_array now list in
            let held : array_values j array.definition.binding d ≡ some vs = rw (same, is) e' in
            elim (Option-cases (array_values_mut j array.definition.binding d)) [
              | inl lost ↦ absurd (
                  let none_held = array_values-none j array.definition.binding d lost in
                  ground (arith, none_held, held))
              | inr ((values, put_back), e) ↦
                  let r =
                    array_values_mut-Referent j array.definition.binding d values put_back e in
                  let equal' : vs ≡ values = ground (arith, r.present, held) in
                  (values, put_back, e, inl (rw is (e' ∙ ap some equal'), same), rw (is, e') equal')
            ]
      ]
