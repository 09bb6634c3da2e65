-- ===== src/Pointer/Frame.antt =====
-- What `set_bound_value` and `take_bound_value` change of a document, and what they leave.
use schemaform.Prelude.{
  ℕ, ◌≡◌, sym, ◌∙◌, ◌⊎◌, inl, inr, Option, some, List, [], ◌∷◌, ◌++◌, false, and_then, arith,
  Option-cases, Bool-cases, map_or,
}
use schemaform.Json.{
  Text, text_eq, Value, Members, null, bool, number, string, array, object, get, insert, remove,
  as_array,
}
use schemaform.Json.Laws.{get-insert_self, get-insert, get-remove_ne}
use schemaform.Pointer.{JsonPtr}
use schemaform.Pointer.Walk.{is_prefix, child, walk, store}
use schemaform.Pointer.Paths.{is_prefix-append, is_prefix-push, is_prefix_trans, lie}
use schemaform.Pointer.Bound.{change_object, set_bound_value, take_bound_value}
use schemaform.Pointer.Laws.{
  walk_append, walk-store_self, walk-store_below, walk-store_apart, count_at-store, item_count,
  count_at,
}

module _ (j : JsonPtr) where
  open j use {PointerBuf, tokens, resolve, resolve_mut, split_back, to_index}

  -- the number of items of the array at a pointer
  abbrev pub count : PointerBuf → Value → ℕ
  count p d = map_or (resolve p d) 0 item_count

  abbrev Changed : PointerBuf → Value → Value → (Text → Members → Members) → Type 0
  Changed b d d' change =
      (ps : List Text) × (t : Text) × (ms : Members) × (tokens b ≡ ps ++ t ∷ [])
      × (walk to_index ps d ≡ some (object ms))
      × (d' ≡ store to_index ps (object (change t ms)) d)

  change_object_lem :
      {A : Type 0} (p : PointerBuf) (d d' : Value) (change : Members → Option (A × Members)) (a : A)
      → change_object j p d change ≡ some (a, d')
      → (ms ms' : Members) × (walk to_index (tokens p) d ≡ some (object ms))
        × (change ms ≡ some (a, ms'))
        × (d' ≡ store to_index (tokens p) (object ms') d)
  unfolding change_object
  change_object_lem p d d' change a h = elim (Option-cases (walk to_index (tokens p) d)) [
    | inl e ↦ absurd (ground (arith, e, j.resolve_mut_lem p d))
    | inr (object ms, e) ↦ elim (Option-cases (change ms)) [
      | inl e' ↦ absurd (ground (arith, e, e', j.resolve_mut_lem p d))
      | inr ((b, ms'), e') ↦ (
        ms,
        ms',
        e,
        ground (arith, e, e', j.resolve_mut_lem p d),
        ground (arith, e, e', j.resolve_mut_lem p d),
      )
    ]
    | inr (null, e) ↦ absurd (ground (arith, e, j.resolve_mut_lem p d))
    | inr (bool x, e) ↦ absurd (ground (arith, e, j.resolve_mut_lem p d))
    | inr (number x, e) ↦ absurd (ground (arith, e, j.resolve_mut_lem p d))
    | inr (string x, e) ↦ absurd (ground (arith, e, j.resolve_mut_lem p d))
    | inr (array x, e) ↦ absurd (ground (arith, e, j.resolve_mut_lem p d))
  ]

  -- Below `ps`, an object was changed at the key `t` alone.
  module _ (ps : List Text) (t : Text) (ms ms' : Members) (d : Value) where
    abbrev AgreesOff : Type 0
    AgreesOff = (u : Text) → text_eq t u ≡ false → get u ms' ≡ get u ms

    walk-beside :
        (u : Text) (rest : List Text)
        → walk to_index ps d ≡ some (object ms)
        → AgreesOff
        → is_prefix (ps ++ t ∷ []) (ps ++ u ∷ rest) ≡ false
        → walk to_index (ps ++ u ∷ rest) (store to_index ps (object ms') d)
          ≡ walk to_index (ps ++ u ∷ rest) d
    unfolding walk child
    walk-beside u rest h agrees below =
        let off : text_eq t u ≡ false = ground (arith, is_prefix-push ps rest t u) in
        rw
          (
            walk-store_below to_index ps (u ∷ rest) d (object ms) (object ms') h,
            walk_append to_index ps (u ∷ rest) d,
            h,
          )
          (ground (arith, agrees u off))

    walk-changed :
        (us : List Text)
        → walk to_index ps d ≡ some (object ms)
        → AgreesOff
        → is_prefix (ps ++ t ∷ []) us ≡ false
        → is_prefix us ps ≡ false
        → walk to_index us (store to_index ps (object ms') d) ≡ walk to_index us d
    walk-changed us h agrees below above = elim (lie ps us) [
      | inl (rest, e) ↦ absurd (ground (arith, is_prefix-append us rest))
      | inr (inl (u, rest, e)) ↦ rw e (walk-beside u rest h agrees (rw e at below))
      | inr (inr (k, k')) ↦ walk-store_apart to_index j.to_index_injective ps us d (object ms') k k'
    ]

    count-beside :
        (rest : List Text)
        → walk to_index ps d ≡ some (object ms)
        → AgreesOff
        → is_prefix (ps ++ t ∷ []) (ps ++ rest) ≡ false
        → count_at to_index (ps ++ rest) (store to_index ps (object ms') d)
          ≡ count_at to_index (ps ++ rest) d
    unfolding walk as_array
    count-beside [] h agrees below = rw (
      walk-store_below to_index ps [] d (object ms) (object ms') h,
      walk_append to_index ps [] d,
      h,
    )
    count-beside (u ∷ rest) h agrees below = rw (walk-beside u rest h agrees below)

    count-changed :
        (us : List Text)
        → walk to_index ps d ≡ some (object ms)
        → AgreesOff
        → is_prefix (ps ++ t ∷ []) us ≡ false
        → count_at to_index us (store to_index ps (object ms') d) ≡ count_at to_index us d
    count-changed us h agrees below = elim (lie us ps) [
      | inl (rest, e) ↦ rw e (count-beside rest h agrees (rw e at below))
      | inr (inl (u, rest, e)) ↦ rw e (count_at-store to_index us u rest d (object ms'))
      | inr (inr (k, k')) ↦
          rw (walk-store_apart to_index j.to_index_injective ps us d (object ms') k' k)
    ]

  count-stored :
      (ts us : List Text) (d w : Value)
      → is_prefix ts us ≡ false
      → count_at to_index us (store to_index ts w d) ≡ count_at to_index us d
  count-stored ts us d w below = elim (lie us ts) [
    | inl (rest, e) ↦ absurd (ground (arith, is_prefix-append ts rest))
    | inr (inl (u, rest, e)) ↦ rw e (count_at-store to_index us u rest d w)
    | inr (inr (k, k')) ↦ rw (walk-store_apart to_index j.to_index_injective ts us d w k' k)
  ]

  above_parent :
      (us ps : List Text) (t : Text) → is_prefix us (ps ++ t ∷ []) ≡ false → is_prefix us ps ≡ false
  above_parent us ps t h = elim (Bool-cases (is_prefix us ps)) [
    | inl k ↦
        absurd
          (ground (arith, is_prefix_trans us ps (ps ++ t ∷ []) k (is_prefix-append ps (t ∷ []))))
    | inr k ↦ k
  ]

  -- The two ways in which a value is bound.
  set_cases :
      (b : PointerBuf) (d v d' : Value)
      → set_bound_value j b d v ≡ some d'
      → ((c : Value) × (walk to_index (tokens b) d ≡ some c) × (d' ≡ store to_index (tokens b) v d))
        ⊎ Changed b d d' (λ t. insert t v)
  unfolding set_bound_value
  set_cases b d v d' h = elim (Option-cases (walk to_index (tokens b) d)) [
    | inr (c, e) ↦ inl (c, e, ground (arith, e, j.resolve_mut_lem b d))
    | inl e ↦ elim (j.split_back_lem b) [
      | inl (_, e') ↦ absurd (ground (arith, e, e', j.resolve_mut_lem b d))
      | inr (p, t, e', split) ↦
          let (ms, ms', there, made, stored) =
            change_object_lem {A = Unit {0}} p d d' (λ members. some (tt, insert t v members)) tt
              (ground (arith, e, e', j.resolve_mut_lem b d)) in
          inr (tokens p, t, ms, split, there, ground arith)
    ]
  ]

  take_cases :
      (b : PointerBuf) (d v d' : Value)
      → take_bound_value j b d ≡ some (v, d')
      → Changed b d d' remove × (resolve b d ≡ some v)
  unfolding take_bound_value walk child
  take_cases b d v d' h = elim (j.split_back_lem b) [
    | inl (_, e) ↦ absurd (ground (arith, e))
    | inr (p, t, e, split) ↦
        let take = λ (members : Members).
          and_then (get t members) (λ (value : Value). some (value, remove t members)) in
        let (ms, ms', there, made, stored) =
          change_object_lem {A = Value} p d d' take v (ground (arith, e)) in
        elim (Option-cases (get t ms)) [
          | inl e' ↦ absurd (ground (arith, e'))
          | inr (w, e') ↦ (
            (tokens p, t, ms, split, there, ground (arith, e')),
            rw (j.resolve_lem b d, split, walk_append to_index (tokens p) (t ∷ []) d, there)
                (ground (arith, e')),
          )
        ]
  ]

  -- Where `set_bound_value` succeeds, the value it bound is read back at the binding.
  pub resolve-set_bound_value :
      (b : PointerBuf) (d v d' : Value) → set_bound_value j b d v ≡ some d' → resolve b d' ≡ some v
  unfolding walk child
  resolve-set_bound_value b d v d' h = elim (set_cases b d v d' h) [
    | inl (c, there, e) ↦
        rw (j.resolve_lem b d', e) (walk-store_self to_index (tokens b) d c v there)
    | inr (ps, t, ms, split, there, e) ↦
        rw
          (
            j.resolve_lem b d',
            e,
            split,
            walk-store_below to_index ps (t ∷ []) d (object ms) (object (insert t v ms)) there,
          )
          (ground (arith, get-insert_self t v ms))
  ]

  -- Where `set_bound_value` succeeds, every pointer that is neither at, above nor below the binding
  -- resolves as it did.
  pub resolve-set_bound_value_apart :
      (b q : PointerBuf) (d v d' : Value)
      → set_bound_value j b d v ≡ some d'
      → j.starts_with q b ≡ false
      → j.starts_with b q ≡ false
      → resolve q d' ≡ resolve q d
  resolve-set_bound_value_apart b q d v d' h below above = elim (set_cases b d v d' h) [
    | inl (c, there, e) ↦
        rw (j.resolve_lem q d', j.resolve_lem q d, e)
          (walk-store_apart to_index j.to_index_injective (tokens b) (tokens q) d v off off')
    | inr (ps, t, ms, split, there, e) ↦
        rw (j.resolve_lem q d', j.resolve_lem q d, e)
          (walk-changed ps t ms (insert t v ms) d (tokens q) there
            (λ u h. ground (arith, get-insert t u v ms)) (rw split at off)
            (above_parent (tokens q) ps t (rw split at off')))
  ]
    where
      off : is_prefix (tokens b) (tokens q) ≡ false
      off = sym (j.starts_with_lem q b) ∙ below

      off' : is_prefix (tokens q) (tokens b) ≡ false
      off' = sym (j.starts_with_lem b q) ∙ above

  -- Where `set_bound_value` succeeds, only arrays at the binding and below it change in length.
  pub count-set_bound_value :
      (b q : PointerBuf) (d v d' : Value)
      → set_bound_value j b d v ≡ some d'
      → j.starts_with q b ≡ false
      → count q d' ≡ count q d
  count-set_bound_value b q d v d' h below = elim (set_cases b d v d' h) [
    | inl (c, there, e) ↦
        rw (j.resolve_lem q d', j.resolve_lem q d, e) (count-stored (tokens b) (tokens q) d v off)
    | inr (ps, t, ms, split, there, e) ↦
        rw (j.resolve_lem q d', j.resolve_lem q d, e)
          (count-changed ps t ms (insert t v ms) d (tokens q) there
            (λ u h. ground (arith, get-insert t u v ms)) (rw split at off))
  ]
    where
      off : is_prefix (tokens b) (tokens q) ≡ false
      off = sym (j.starts_with_lem q b) ∙ below

  -- Where `take_bound_value` succeeds, only arrays at the binding and below it change in length.
  pub count-take_bound_value :
      (b q : PointerBuf) (d v d' : Value)
      → take_bound_value j b d ≡ some (v, d')
      → j.starts_with q b ≡ false
      → count q d' ≡ count q d
  count-take_bound_value b q d v d' h below =
      let ((ps, t, ms, split, there, e), _) = take_cases b d v d' h in
      rw (j.resolve_lem q d', j.resolve_lem q d, e)
        (count-changed ps t ms (remove t ms) d (tokens q) there (λ u h. get-remove_ne t u ms h)
          (rw split at off))
    where
      off : is_prefix (tokens b) (tokens q) ≡ false
      off = sym (j.starts_with_lem q b) ∙ below
