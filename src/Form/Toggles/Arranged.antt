-- ===== src/Form/Toggles/Arranged.antt =====
-- `toggle_array_choice` keeps an arranged form arranged.
use mathlib.Core.List.{reverse}
use mathlib.Core.Path.{subst}
use schemaform.Prelude.{
  ℕ, zero, suc, ◌^◌, ◌≤◌, ◌<◌, ◌≡◌, refl, sym, ap, ◌∙◌, inl, inr, is_some, if◌then◌else◌, Option,
  none, some, List, [], ◌∷◌, length, set, get_elem?, position, insert_at, remove_at, map_or, arith,
  Bool-cases, Option-cases, position_lem,
}
use schemaform.Prelude.Results.{Result}
use schemaform.Json.{Text, Value, array_of, as_array, to_list, of_list}
use schemaform.Pointer.{JsonPtr}
use schemaform.Pointer.Laws.{item_count}
use schemaform.Pointer.Bound.{set_bound_value}
use schemaform.Pointer.Frame.{resolve-set_bound_value, resolve-set_bound_value_apart}
use schemaform.Form.Definition.{choices}
use schemaform.Form.State.{Form, ArrayState, ArrayItemState, EditError, new_item}
use schemaform.Form.Parsing.{Parsers}
use schemaform.Form.Arrays.{bound_at, array_values_mut}
use schemaform.Form.Arrays.Aligned.{IsAligned, IsAligned-set, IsAligned-get_elem?}
use schemaform.Form.Arrays.Identities.{occurrences, occurrences-insert_at, occurrences-remove_at}
use schemaform.Form.Arrays.Steps.{Found, Found-lengths}
use schemaform.Form.Arrays.Invariant.{IsArranged, IsArranged-changed, bump_lem}
use schemaform.Form.Toggles.{
  ToggledArrayChoice, remove_each, toggled, option_position, array_can_toggle_choice,
  toggle_array_choice,
}

module _ {ℓ} {A : Type ℓ} where
  pub length-insert_at :
      (i : ℕ) (x : A) (xs ys : List A) → insert_at i x xs ≡ some ys → length ys ≡ suc (length xs)
  length-insert_at zero x xs ys h = let e : x ∷ xs ≡ ys = ground arith in rw (← e) refl
  length-insert_at (suc i) x [] ys h = absurd (ground arith)
  length-insert_at (suc i) x (y ∷ xs) ys h = elim (Option-cases (insert_at i x xs)) [
    | inl e ↦ absurd (ground (arith, e))
    | inr (zs, e) ↦
        let e' : y ∷ zs ≡ ys = ground (arith, e) in
        rw (← e') (ap suc (length-insert_at i x xs zs e))
  ]

  length-remove_at :
      (i : ℕ) (x : A) (xs ys : List A) → remove_at i xs ≡ some (x, ys) → suc (length ys) ≡ length xs
  length-remove_at zero x [] ys h = absurd (ground arith)
  length-remove_at (suc i) x [] ys h = absurd (ground arith)
  length-remove_at zero x (y ∷ xs) ys h = let e : xs ≡ ys = ground arith in rw (← e) refl
  length-remove_at (suc i) x (y ∷ xs) ys h = elim (Option-cases (remove_at i xs)) [
    | inl e ↦ absurd (ground (arith, e))
    | inr ((z, zs), e) ↦
        let e' : y ∷ zs ≡ ys = ground (arith, e) in
        rw (← e') (ap suc (length-remove_at i z xs zs e))
  ]

  set-get_elem? : (xs : List A) (i : ℕ) (x : A) → get_elem? xs i ≡ some x → set xs i x ≡ xs
  set-get_elem? [] i x h = refl
  set-get_elem? (y ∷ xs) zero x h = let e : y ≡ x = ground arith in rw e refl
  set-get_elem? (y ∷ xs) (suc i) x h = ap (◌∷◌ y) (set-get_elem? xs i x h)

module _ {P : Type 0} where
  -- Items and values are removed together, and no item is added.
  remove_each_lem :
      (indices : List ℕ) (values values' : List Value) (items items' : List (ArrayItemState P))
      (removed : List ℕ)
      → remove_each indices values items ≡ some (values', items', removed)
      → length items ≡ length values
      → (length items' ≡ length values') × ((x : ℕ) → occurrences x items' ≤ occurrences x items)
  remove_each_lem [] values values' items items' removed h same =
      let e : values ≡ values' = ground arith in
      let e' : items ≡ items' = ground arith in (rw (← e, ← e') same, λ x. rw (← e') (omega arith))
  remove_each_lem (i ∷ indices) values values' items items' removed h same =
      elim (Option-cases (remove_at i values)) [
        | inl e ↦ absurd (ground (arith, e))
        | inr ((v, vs), e) ↦ elim (Option-cases (remove_at i items)) [
          | inl e' ↦ absurd (ground (arith, e, e'))
          | inr ((item, rest), e') ↦ elim (Option-cases (remove_each indices vs rest)) [
            | inl e'' ↦ absurd (ground (arith, e, e', e''))
            | inr ((ws, left, gone), e'') ↦
                let (same', fewer) =
                  remove_each_lem indices vs values' rest items' gone (ground (arith, e, e', e'')) (
                    omega (
                      arith,
                      length-remove_at i v values vs e,
                      length-remove_at i item items rest e',
                    )) in
                (same', λ x. omega (arith, fewer x, occurrences-remove_at x i item items rest e'))
          ]
        ]
      ]

module _ (j : JsonPtr) (parsers : Parsers) where
  open j use {PointerBuf, resolve}

  -- The form that a toggle ends in is arranged, and one identity is given out at most.
  abbrev pub Steady :
      Form PointerBuf → Result EditError ToggledArrayChoice × Form PointerBuf → Type 0
  Steady form r = IsArranged j r.1 × (r.1.next_item_identity ≤ suc form.next_item_identity)

  module _ (form : Form PointerBuf) (binding : Text) (i : ℕ) (array : ArrayState PointerBuf)
      (values : List Value) (put_back : List Value → Value)
      (f : Found j form binding i array values put_back)
      (room : suc form.next_item_identity < 2 ^ 64) (v : IsArranged j form) where
    toggled-Steady :
        (place : ℕ) (value : Value) (carrying : List ℕ)
        → Steady form (toggled j parsers i array place value carrying form)
    unfolding new_item
    toggled-Steady place value [] = elim (Option-cases (insert_at place value values)) [
      | inl e ↦ rw (f.referenced, e) (v, omega arith)
      | inr (values', e) ↦
          let item = new_item form.next_item_identity array.definition in
          elim (Option-cases (insert_at place item array.items)) [
            | inl e' ↦ rw (f.referenced, e, e') (v, omega arith)
            | inr (items, e') ↦
                rw (f.referenced, e, e')
                  (
                    IsArranged-changed j form binding i array values put_back f v _ items values'
                        refl refl
                        (omega (
                          arith,
                          length-insert_at place value values values' e,
                          length-insert_at place item array.items items e',
                          Found-lengths j form binding i array values put_back f v.aligned,
                        ))
                        (λ x. ground (
                          arith,
                          occurrences-insert_at x place item array.items items e',
                          v.unique x,
                          v.unused x,
                        ))
                        (λ x h. ground (
                          arith,
                          occurrences-insert_at x place item array.items items e',
                          v.unused x,
                          bump_lem form.next_item_identity room,
                        )),
                    omega (arith, bump_lem form.next_item_identity room),
                  )
          ]
    ]
    toggled-Steady place value (first ∷ rest) =
        elim (Option-cases (remove_each (reverse (first ∷ rest)) values array.items)) [
          | inl e ↦ rw (f.referenced, e) (v, omega arith)
          | inr ((values', items, removed), e) ↦
              let (same, fewer) =
                remove_each_lem (reverse (first ∷ rest)) values values' array.items items removed e
                  (Found-lengths j form binding i array values put_back f v.aligned) in
              rw (f.referenced, e)
                (
                  IsArranged-changed j form binding i array values put_back f v _ items values' refl
                      refl same (λ x. omega (arith, fewer x, v.unique x))
                      (λ x h. omega (arith, fewer x, v.unused x h)),
                  omega arith,
                )
        ]

  -- An absent array is created empty: the items that it has are none.
  created-IsArranged :
      (form : Form PointerBuf) (i : ℕ) (array : ArrayState PointerBuf) (d : Value)
      → get_elem? form.arrays i ≡ some array
      → resolve array.definition.binding form.form_data ≡ none
      → set_bound_value j array.definition.binding form.form_data (array_of []) ≡ some d
      → IsArranged j form
      → IsArranged j (record form { form_data = d })
  unfolding as_array to_list of_list
  created-IsArranged form i array d taken absent bound v = record {
    flat = v.flat;
    aligned =
        subst (λ arrays. IsAligned j arrays d) (set-get_elem? form.arrays i array taken)
          (IsAligned-set j form.arrays i array array form.form_data d taken refl v.flat
            (λ q below above.
              resolve-set_bound_value_apart j array.definition.binding q form.form_data
                (array_of []) d bound above below)
            (IsAligned-get_elem? j form.arrays i array form.form_data v.aligned taken
              ∙ ap (λ o. map_or o 0 item_count) absent
              ∙ sym (
                  ap (λ o. map_or o 0 item_count)
                    (resolve-set_bound_value j array.definition.binding form.form_data (array_of [])
                      d bound)))
            v.aligned);
    unique = v.unique;
    unused = v.unused;
  }

  -- The data that a toggle works on: an absent array is there, empty.
  abbrev pub present : Form PointerBuf → ArrayState PointerBuf → Option Value
  present form array =
      if is_some (resolve array.definition.binding form.form_data)
      then some form.form_data
      else set_bound_value j array.definition.binding form.form_data (array_of [])

  pub present-IsArranged :
      (form : Form PointerBuf) (i : ℕ) (array : ArrayState PointerBuf) (d : Value)
      → get_elem? form.arrays i ≡ some array
      → present form array ≡ some d
      → IsArranged j form
      → IsArranged j (record form { form_data = d })
  present-IsArranged form i array d taken e v =
      elim (Option-cases (resolve array.definition.binding form.form_data)) [
        | inl absent ↦ created-IsArranged form i array d taken absent (ground (arith, absent, e)) v
        | inr (now, there) ↦
            let same : form.form_data ≡ d = ground (arith, there, e) in rw (← same) v
      ]

  -- `toggle_array_choice` keeps an arranged form arranged, whether it fails or succeeds, and gives
  -- out one identity at most.
  pub toggle_array_choice-Steady :
      (form : Form PointerBuf) (binding : Text) (value : Value)
      → suc form.next_item_identity < 2 ^ 64
      → IsArranged j form
      → Steady form (toggle_array_choice j parsers binding value form)
  unfolding toggle_array_choice
  toggle_array_choice-Steady form binding value room v =
      elim (Bool-cases (array_can_toggle_choice j parsers form binding)) [
        | inr denied ↦ rw denied (v, omega arith)
        | inl allowed ↦ elim (Option-cases (position (bound_at j binding) form.arrays)) [
          | inl e ↦ rw (allowed, e) (v, omega arith)
          | inr (i, e) ↦
              let (array, taken, matches) = position_lem (bound_at j binding) form.arrays i e in
              elim (Option-cases (option_position j parsers (choices array.definition) value)) [
                | inl e' ↦ rw (allowed, e, taken, e') (v, omega arith)
                | inr (k, e') ↦
                    let (choice, is, _) = position_lem _ (choices array.definition) k e' in
                    elim (Option-cases (present form array)) [
                      | inl lost ↦ rw (allowed, e, taken, e', is, lost) (v, omega arith)
                      | inr (d, made) ↦
                          let v' = present-IsArranged form i array d taken made v in
                          elim (Option-cases (array_values_mut j array.definition.binding d)) [
                            | inl e'' ↦ rw (allowed, e, taken, e', is, made, e'') (v', omega arith)
                            | inr ((values, put_back), e'') ↦
                                rw (allowed, e, taken, e', is, made, e'')
                                  (toggled-Steady (record form { form_data = d }) binding i array
                                    values put_back
                                    (record {
                                      placed = e;
                                      taken = taken;
                                      matches = matches;
                                      referenced = e'';
                                    })
                                    room v' _ choice.value _)
                          ]
                    ]
              ]
        ]
      ]
