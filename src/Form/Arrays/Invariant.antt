-- ===== src/Form/Arrays/Invariant.antt =====
-- The invariant of the arrays, and that every operation on them keeps it.
use schemaform.Prelude.{
  ℕ, zero, suc, ◌+◌, ◌^◌, ◌≤◌, ◌<◌, ◌≡◌, refl, sym, ◌∙◌, Option, some, List, [], ◌∷◌, length, set,
  get_elem?, push, arith, length-append,
}
use schemaform.Prelude.Int.{ℤ}
use schemaform.Json.{Text, Value}
use schemaform.Pointer.{JsonPtr}
use schemaform.Form.State.{Form, ArrayState, ArrayItemState, bump, new_item}
use schemaform.Form.Arrays.{
  append_array_item, insert_array_item_before, remove_array_item, move_array_item, ArrayMove,
}
use schemaform.Form.Arrays.Aligned.{
  IsAligned, IsFlat, PartsAll, IsAligned-set, Referent, array_values_mut-Referent, count-written,
}
use schemaform.Form.Arrays.Steps.{Found, Found-lengths, append_cases, insert_cases, remove_cases}
use schemaform.Form.Arrays.Moves.{move_cases}
use schemaform.Form.Arrays.Identities.{
  uses, occurrences, uses-set, occurrences-push, occurrences-insert_at, occurrences-remove_at,
  occurrences-swap,
}

pub bump_lem : (n : ℕ) → suc n < 2 ^ 64 → bump n ≡ suc n
unfolding bump
bump_lem n h = omega arith

module _ (j : JsonPtr) where
  open j use {PointerBuf}

  -- No array is at or below another; the items of each are as many as its values; an identity is
  -- used at most once, and none that is still to be given out.
  pub record IsArranged (form : Form PointerBuf) : Type 0 where
    pub flat : IsFlat j form.arrays
    pub aligned : IsAligned j form.arrays form.form_data
    pub unique : (x : ℕ) → uses x form.arrays ≤ 1
    pub unused : (x : ℕ) → form.next_item_identity ≤ x → uses x form.arrays ≡ 0

  PartsAll-set :
      (p : PointerBuf) (arrays : List (ArrayState PointerBuf)) (i : ℕ)
      (a a' : ArrayState PointerBuf)
      → get_elem? arrays i ≡ some a
      → a'.definition ≡ a.definition
      → PartsAll j p arrays
      → PartsAll j p (set arrays i a')
  PartsAll-set p [] i a a' e same h = tt
  PartsAll-set p (b ∷ arrays) zero a a' e same h =
      let here : b ≡ a = ground arith in (rw (same, ← here) h.0, h.1)
  PartsAll-set p (b ∷ arrays) (suc i) a a' e same h = (h.0, PartsAll-set p arrays i a a' e same h.1)

  IsFlat-set :
      (arrays : List (ArrayState PointerBuf)) (i : ℕ) (a a' : ArrayState PointerBuf)
      → get_elem? arrays i ≡ some a
      → a'.definition ≡ a.definition
      → IsFlat j arrays
      → IsFlat j (set arrays i a')
  IsFlat-set [] i a a' e same h = tt
  IsFlat-set (b ∷ arrays) zero a a' e same h =
      let here : b ≡ a = ground arith in (rw (same, ← here) h.0, h.1)
  IsFlat-set (b ∷ arrays) (suc i) a a' e same h = (
    PartsAll-set b.definition.binding arrays i a a' e same h.0,
    IsFlat-set arrays i a a' e same h.1,
  )

  -- A form whose changed array has new items, as many as its new values, and `more x` uses of `x`
  -- more or `less x` fewer than before.
  module _ (form : Form PointerBuf) (binding : Text) (i : ℕ) (array : ArrayState PointerBuf)
      (values : List Value) (put_back : List Value → Value)
      (f : Found j form binding i array values put_back) (v : IsArranged form) where
    pub IsArranged-changed :
        (form' : Form PointerBuf) (items : List (ArrayItemState PointerBuf)) (values' : List Value)
        → form'.arrays ≡ set form.arrays i (record array { items = items })
        → form'.form_data ≡ put_back values'
        → length items ≡ length values'
        → ((x : ℕ) → uses x form.arrays + occurrences x items ≤ occurrences x array.items + 1)
        → ((x : ℕ)
            → form'.next_item_identity ≤ x
            → uses x form.arrays + occurrences x items ≤ occurrences x array.items)
        → IsArranged form'
    IsArranged-changed form' items values' arrays stored same once none_left = record {
      flat = rw arrays (IsFlat-set form.arrays i array changed f.taken refl v.flat);
      aligned =
          rw (arrays, stored)
            (IsAligned-set j form.arrays i array changed form.form_data (put_back values') f.taken
              refl v.flat (referent.away values')
              (same
                ∙ sym (
                    count-written j array.definition.binding form.form_data values values' put_back
                      referent))
              v.aligned);
      unique =
          λ x. rw arrays (omega (arith, uses-set x form.arrays i array changed f.taken, once x));
      unused = λ x h.
          rw arrays (omega (arith, uses-set x form.arrays i array changed f.taken, none_left x h));
    }
      where
        changed : ArrayState PointerBuf
        changed = record array { items = items }

        referent : Referent j array.definition.binding form.form_data values put_back
        referent =
            array_values_mut-Referent j array.definition.binding form.form_data values put_back
              f.referenced

  -- Where an identity is left to give out, `append_array_item` keeps an arranged form arranged,
  -- whether it fails or succeeds: the items of each array stay as many as its values, and no identity
  -- is used twice or is used before it is given out.
  pub append_array_item-IsArranged :
      (form : Form PointerBuf) (binding : Text)
      → suc form.next_item_identity < 2 ^ 64
      → IsArranged form
      → IsArranged (append_array_item j binding form).1
  unfolding new_item
  append_array_item-IsArranged form binding room v =
      append_cases j (λ r. IsArranged r.1) form binding (λ _. v)
        λ i array values put_back can f.
          let item = new_item form.next_item_identity array.definition in
          IsArranged-changed form binding i array values put_back f v _ (push array.items item)
            (push values array.definition.item_template.creation_seed) refl refl
            (omega (
              arith,
              length-append {0} array.items (item ∷ []),
              length-append {0} values (array.definition.item_template.creation_seed ∷ []),
              Found-lengths j form binding i array values put_back f v.aligned,
            ))
            (λ x. ground (arith, occurrences-push x array.items item, v.unique x, v.unused x))
            (λ x h. ground (
              arith,
              occurrences-push x array.items item,
              v.unused x,
              bump_lem form.next_item_identity room,
            ))

  -- Where an identity is left to give out, `insert_array_item_before` keeps an arranged form
  -- arranged, whether it fails or succeeds.
  pub insert_array_item_before-IsArranged :
      (form : Form PointerBuf) (binding : Text) (before : ℕ)
      → suc form.next_item_identity < 2 ^ 64
      → IsArranged form
      → IsArranged (insert_array_item_before j binding before form).1
  unfolding new_item
  insert_array_item_before-IsArranged form binding before room v =
      insert_cases j (λ r. IsArranged r.1) form binding before v.aligned (λ _. v) (λ _ _ _. v)
        λ i array values put_back k values' items can f at made made' same.
          let item = new_item form.next_item_identity array.definition in
          IsArranged-changed form binding i array values put_back f v _ items values' refl refl same
            (λ x. ground (
              arith,
              occurrences-insert_at x k item array.items items made',
              v.unique x,
              v.unused x,
            ))
            (λ x h. ground (
              arith,
              occurrences-insert_at x k item array.items items made',
              v.unused x,
              bump_lem form.next_item_identity room,
            ))

  -- `remove_array_item` keeps an arranged form arranged, whether it fails or succeeds.
  pub remove_array_item-IsArranged :
      (form : Form PointerBuf) (binding : Text) (identity : ℕ)
      → IsArranged form
      → IsArranged (remove_array_item j binding identity form).1
  remove_array_item-IsArranged form binding identity v =
      remove_cases j (λ r. IsArranged r.1) form binding identity v.aligned (λ _. v) (λ _ _ _. v)
        λ i array values put_back k value values' item items can f at made made' same.
          IsArranged-changed form binding i array values put_back f v _ items values' refl refl same
            (λ x. omega (arith, occurrences-remove_at x k item array.items items made', v.unique x))
            (λ x h.
              omega (arith, occurrences-remove_at x k item array.items items made', v.unused x h))

  -- `move_array_item` keeps an arranged form arranged, whether it fails or succeeds.
  pub move_array_item-IsArranged :
      (parse_big_int : Text → Option ℤ) (form : Form PointerBuf) (binding : Text) (identity : ℕ)
      (direction : ArrayMove)
      → IsArranged form
      → IsArranged (move_array_item j parse_big_int binding identity direction form).1
  move_array_item-IsArranged parse_big_int form binding identity direction v =
      move_cases j parse_big_int (λ r. IsArranged r.1) form binding identity direction v.aligned
        (λ _ _. v)
        λ i array values put_back k l a b x' y f at goes ta tb tx ty same.
          IsArranged-changed form binding i array values put_back f v _ _ _ refl refl same
            (λ x. omega (arith, occurrences-swap x k l x' y array.items tx ty, v.unique x))
            (λ x h. omega (arith, occurrences-swap x k l x' y array.items tx ty, v.unused x h))
