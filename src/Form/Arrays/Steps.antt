-- ===== src/Form/Arrays/Steps.antt =====
-- The branches of the array operations: how a call finds its array, and the form that it leaves.
use schemaform.Prelude.{
  ℕ, zero, suc, Bool, false, [], ◌∷◌, find, is_some_and, ◌+◌, ◌≡◌, refl, ◌⊎◌, inl, inr, true, none,
  some, List, length, position, get_elem?, insert_at, remove_at, push, drop, arith, Option-cases,
  Bool-cases, position_lem, get_elem?-lt, insert_at_total, remove_at_total, ◌∙◌,
}
use schemaform.Prelude.Results.{Result, ok, err}
use schemaform.Json.{Text, Value, as_array}
use schemaform.Pointer.Walk.{walk}
use schemaform.Pointer.{JsonPtr}
use schemaform.Form.State.{
  Form, ArrayState, ArrayItemState, EditError, unknown_control, operation_not_allowed, new_item,
  identities,
}
use schemaform.Form.Arrays.Aligned.{
  IsAligned, IsAligned-get_elem?, count-present, array_values_mut-Referent,
}
use schemaform.Form.Arrays.{
  InsertedArrayItem, RemovedArrayItem, bound_at, array_values, array_values_mut, array_can_append,
  array_can_remove, append_array_item, insert_array_item_before, remove_array_item, has_identity,
  with_array, with_fresh_identity,
}

module _ {ℓ} {A : Type ℓ} where
  -- The first entry that passes is the one at its position.
  pub find_placed :
      (p : A → Bool) (xs : List A) (i : ℕ) (x : A)
      → position p xs ≡ some i
      → get_elem? xs i ≡ some x
      → find p xs ≡ some x
  find_placed p [] i x h e = ground arith
  find_placed p (y ∷ xs) zero x h e = elim (Bool-cases (p y)) [
    | inl yes' ↦ ground (arith, yes')
    | inr no' ↦ absurd (ground (arith, no'))
  ]
  find_placed p (y ∷ xs) (suc i) x h e = elim (Bool-cases (p y)) [
    | inl yes' ↦ absurd (ground (arith, yes'))
    | inr no' ↦ ground (arith, no', find_placed p xs i x)
  ]

  -- An entry that is nowhere is not found.
  pub find-none : (p : A → Bool) (xs : List A) → position p xs ≡ none → find p xs ≡ none
  find-none p [] e = refl
  find-none p (x ∷ xs) e = elim (Bool-cases (p x)) [
    | inl yes' ↦ absurd (ground (arith, yes'))
    | inr no' ↦ ground (arith, no', find-none p xs)
  ]

module _ (j : JsonPtr) where
  open j use {PointerBuf, to_index, tokens}

  -- A call's array, its values and the way back into the document.
  pub record Found (form : Form PointerBuf) (binding : Text) (i : ℕ) (array : ArrayState PointerBuf)
      (values : List Value) (put_back : List Value → Value) : Type 0 where
    pub placed : position (bound_at j binding) form.arrays ≡ some i
    pub taken : get_elem? form.arrays i ≡ some array
    pub matches : bound_at j binding array ≡ true
    pub referenced :
        array_values_mut j array.definition.binding form.form_data ≡ some (values, put_back)

  -- A call finds its array, or has an error to return.
  pub locate :
      (form : Form PointerBuf) (binding : Text)
      → (position (bound_at j binding) form.arrays ≡ none)
        ⊎ ((i : ℕ) × (array : ArrayState PointerBuf) × (position (bound_at j binding) form.arrays
              ≡ some i)
            × (get_elem? form.arrays i ≡ some array)
            × (array_values_mut j array.definition.binding form.form_data ≡ none))
        ⊎ ((i : ℕ) × (array : ArrayState PointerBuf) × (values : List Value) × (put_back : List
                Value
              → Value)
            × Found form binding i array values put_back)
  locate form binding = elim (Option-cases (position (bound_at j binding) form.arrays)) [
    | inl e ↦ inl e
    | inr (i, e) ↦
        let (array, taken, matches) = position_lem (bound_at j binding) form.arrays i e in
        elim (Option-cases (array_values_mut j array.definition.binding form.form_data)) [
          | inl e' ↦ inr (inl (i, array, e, taken, e'))
          | inr ((values, put_back), e') ↦ inr (
              inr (
                i,
                array,
                values,
                put_back,
                record { placed = e; taken = taken; matches = matches; referenced = e' },
              ))
        ]
  ]

  pub array_values-none :
      (p : PointerBuf) (d : Value) → array_values_mut j p d ≡ none → array_values j p d ≡ none
  array_values-none p d h = elim (Option-cases (walk to_index (tokens p) d)) [
    | inl e ↦ ground (arith, e, j.resolve_lem p d)
    | inr (v, e) ↦ elim (Option-cases (as_array v)) [
      | inl e' ↦ ground (arith, e, e', j.resolve_lem p d)
      | inr (vs, e') ↦ absurd (ground (arith, e, e', j.resolve_mut_lem p d))
    ]
  ]

  -- A call whose test of an array and its values holds finds both.
  located :
      (test : ArrayState PointerBuf → List Value → Bool) (form : Form PointerBuf) (binding : Text)
      → is_some_and (find (bound_at j binding) form.arrays) (λ array.
        is_some_and (array_values j array.definition.binding form.form_data) (test array))
        ≡ true
      → (i : ℕ) × (array : ArrayState PointerBuf) × (values : List Value) × (put_back : List Value
          → Value)
        × Found form binding i array values put_back
  located test form binding h = elim (locate form binding) [
    | inl e ↦ absurd (
        let none_found = find-none (bound_at j binding) form.arrays e in ground (arith, none_found))
    | inr (inl (i, array, e, taken, e')) ↦ absurd (
        let there = find_placed (bound_at j binding) form.arrays i array e taken in
        let none_held = array_values-none array.definition.binding form.form_data e' in
        ground (arith, there, none_held))
    | inr (inr found) ↦ found
  ]

  abbrev pub appended :
      Form PointerBuf
      → ℕ
      → ArrayState PointerBuf
      → List Value
      → (List Value → Value)
      → Form PointerBuf
  appended form i array values put_back = with_fresh_identity j (
      with_array j form i array
        (push array.items (new_item form.next_item_identity array.definition))
        (put_back (push values array.definition.item_template.creation_seed)))

  pub append_cases {ℓ} :
      (Q : Result EditError ℕ × Form PointerBuf → Type ℓ) (form : Form PointerBuf) (binding : Text)
      → (array_can_append j form binding ≡ false → Q (err (operation_not_allowed binding), form))
      → ((i : ℕ) (array : ArrayState PointerBuf) (values : List Value)
            (put_back : List Value → Value)
          → array_can_append j form binding ≡ true
          → Found form binding i array values put_back
          → Q (ok form.next_item_identity, appended form i array values put_back))
      → Q (append_array_item j binding form)
  unfolding append_array_item array_can_append
  append_cases Q form binding fails done = elim (Bool-cases (array_can_append j form binding)) [
    | inr no_room ↦ rw (no_room) (fails no_room)
    | inl room ↦
        let (i, array, values, put_back, f) = located _ form binding room in
        rw (room, f.placed, f.taken, f.referenced) (done i array values put_back room f)
  ]

  pub Found-lengths :
      (form : Form PointerBuf) (binding : Text) (i : ℕ) (array : ArrayState PointerBuf)
      (values : List Value) (put_back : List Value → Value)
      → Found form binding i array values put_back
      → IsAligned j form.arrays form.form_data
      → length array.items ≡ length values
  Found-lengths form binding i array values put_back f aligned =
      IsAligned-get_elem? j form.arrays i array form.form_data aligned f.taken
      ∙ count-present j array.definition.binding form.form_data values put_back (
          array_values_mut-Referent j array.definition.binding form.form_data values put_back
            f.referenced)

  pub insert_cases {ℓ} :
      (Q : Result EditError InsertedArrayItem × Form PointerBuf → Type ℓ) (form : Form PointerBuf)
      (binding : Text) (before : ℕ)
      → IsAligned j form.arrays form.form_data
      → (array_can_append j form binding ≡ false → Q (err (operation_not_allowed binding), form))
      → ((array : ArrayState PointerBuf)
          → find (bound_at j binding) form.arrays ≡ some array
          → position (has_identity j before) array.items ≡ none
          → Q (err (unknown_control binding), form))
      → ((i : ℕ) (array : ArrayState PointerBuf) (values : List Value)
            (put_back : List Value → Value) (k : ℕ) (values' : List Value)
            (items : List (ArrayItemState PointerBuf))
          → array_can_append j form binding ≡ true
          → Found form binding i array values put_back
          → position (has_identity j before) array.items ≡ some k
          → insert_at k array.definition.item_template.creation_seed values ≡ some values'
          → insert_at k (new_item form.next_item_identity array.definition) array.items ≡ some items
          → length items ≡ length values'
          → Q (
            ok (record {
              identity = form.next_item_identity;
              shifted = identities (drop (k + 1) items);
            }),
            with_fresh_identity j (with_array j form i array items (put_back values')),
          ))
      → Q (insert_array_item_before j binding before form)
  unfolding insert_array_item_before array_can_append
  insert_cases Q form binding before aligned denies fails done =
      elim (Bool-cases (array_can_append j form binding)) [
        | inr no_room ↦ rw no_room (denies no_room)
        | inl room ↦
            let (i, array, values, put_back, f) = located _ form binding room in
            elim (Option-cases (position (has_identity j before) array.items)) [
              | inl lost ↦
                  rw (room, f.placed, f.taken, lost)
                    (fails array
                      (find_placed (bound_at j binding) form.arrays i array f.placed f.taken) lost)
              | inr (k, at) ↦
                  let same = Found-lengths form binding i array values put_back f aligned in
                  let (item, there, _) = position_lem (has_identity j before) array.items k at in
                  let within = get_elem?-lt array.items k there in
                  let (values', made, n) =
                    insert_at_total k array.definition.item_template.creation_seed values
                      (omega arith) in
                  let (items, made', n') =
                    insert_at_total k (new_item form.next_item_identity array.definition)
                      array.items (omega arith) in
                  rw (room, f.placed, f.taken, at, f.referenced, made, made')
                    (done i array values put_back k values' items room f at made made'
                      (omega arith))
            ]
      ]

  pub remove_cases {ℓ} :
      (Q : Result EditError RemovedArrayItem × Form PointerBuf → Type ℓ) (form : Form PointerBuf)
      (binding : Text) (identity : ℕ)
      → IsAligned j form.arrays form.form_data
      → (array_can_remove j form binding ≡ false → Q (err (operation_not_allowed binding), form))
      → ((array : ArrayState PointerBuf)
          → find (bound_at j binding) form.arrays ≡ some array
          → position (has_identity j identity) array.items ≡ none
          → Q (err (unknown_control binding), form))
      → ((i : ℕ) (array : ArrayState PointerBuf) (values : List Value)
            (put_back : List Value → Value) (k : ℕ) (value : Value) (values' : List Value)
            (item : ArrayItemState PointerBuf) (items : List (ArrayItemState PointerBuf))
          → array_can_remove j form binding ≡ true
          → Found form binding i array values put_back
          → position (has_identity j identity) array.items ≡ some k
          → remove_at k values ≡ some (value, values')
          → remove_at k array.items ≡ some (item, items)
          → length items ≡ length values'
          → Q (
            ok (record { identity = identity; shifted = identities (drop (k + 1) array.items) }),
            with_array j form i array items (put_back values'),
          ))
      → Q (remove_array_item j binding identity form)
  unfolding remove_array_item array_can_remove
  remove_cases Q form binding identity aligned denies fails done =
      elim (Bool-cases (array_can_remove j form binding)) [
        | inr kept ↦ rw kept (denies kept)
        | inl spare ↦
            let (i, array, values, put_back, f) = located _ form binding spare in
            elim (Option-cases (position (has_identity j identity) array.items)) [
              | inl lost ↦
                  rw (spare, f.placed, f.taken, lost)
                    (fails array
                      (find_placed (bound_at j binding) form.arrays i array f.placed f.taken) lost)
              | inr (k, at) ↦
                  let same = Found-lengths form binding i array values put_back f aligned in
                  let (found, there, _) = position_lem (has_identity j identity) array.items k at in
                  let within = get_elem?-lt array.items k there in
                  let ((value, values'), made, n) = remove_at_total k values (omega arith) in
                  let ((item, items), made', n') = remove_at_total k array.items within in
                  rw (spare, f.placed, f.taken, at, f.referenced, made, made')
                    (done i array values put_back k value values' item items spare f at made made'
                      (omega arith))
            ]
      ]
