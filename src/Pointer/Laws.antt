-- ===== src/Pointer/Laws.antt =====
-- Laws of walks: what a write changes, and what it leaves.
use schemaform.Prelude.{
  ℕ, zero, suc, ◌≡◌, refl, ◌≢◌, Option, some, List, [], ◌∷◌, ◌++◌, false, get_elem?, set,
  get_elem?-set_self, and_then, arith, inl, inr, Option-cases, Bool-cases, map_or, length,
  length-set,
}
use schemaform.Json.{
  Text, text_eq, Value, null, bool, number, string, array, object, to_list, as_array,
  to_list-of_list,
}
use schemaform.Json.Laws.{get-insert, text_eq_iff, text_eq_refl}
use schemaform.Pointer.Walk.{is_prefix, child, put, walk, store}

module _ {ℓ} {A : Type ℓ} where
  get_elem?-set_ne :
      (xs : List A) (i k : ℕ) (w : A) → i ≢ k → get_elem? (set xs i w) k ≡ get_elem? xs k
  get_elem?-set_ne [] i k w h = refl
  get_elem?-set_ne (x ∷ xs) zero zero w h = absurd (h refl)
  get_elem?-set_ne (x ∷ xs) zero (suc k) w h = refl
  get_elem?-set_ne (x ∷ xs) (suc i) zero w h = refl
  get_elem?-set_ne (x ∷ xs) (suc i) (suc k) w h = get_elem?-set_ne xs i k w (λ e. h (ground arith))

-- the number of items of an array; no other value has items
abbrev pub item_count : Value → ℕ
item_count v = map_or (as_array v) 0 length

module _ (to_index : Text → Option ℕ) where
  child-put_self :
      (t : Text) (d c w : Value)
      → child to_index t d ≡ some c
      → child to_index t (put to_index t w d) ≡ some w
  unfolding child put
  child-put_self t (array vs) c w h = elim (Option-cases (to_index t)) [
    | inl e ↦ absurd (ground arith)
    | inr (i, e) ↦
        ground
          (arith, e, to_list-of_list (set (to_list vs) i w), get_elem?-set_self (to_list vs) i c w)
  ]
  child-put_self t (object ms) c w h = ground (arith, get-insert t t w ms, text_eq_refl t)
  child-put_self t null c w h = ground arith
  child-put_self t (bool b) c w h = ground arith
  child-put_self t (number n) c w h = ground arith
  child-put_self t (string s) c w h = ground arith

  -- A write that is there is read back.
  pub walk-store_self :
      (ts : List Text) (d v w : Value)
      → walk to_index ts d ≡ some v
      → walk to_index ts (store to_index ts w d) ≡ some w
  unfolding walk store
  walk-store_self [] d v w h = refl
  walk-store_self (t ∷ ts) d v w h = elim (Option-cases (child to_index t d)) [
    | inl e ↦ absurd (ground arith)
    | inr (c, e) ↦
        ground (arith, e, child-put_self t d c (store to_index ts w c) e, walk-store_self ts c v w)
  ]

  pub walk_append :
      (ps us : List Text) (d : Value)
      → walk to_index (ps ++ us) d ≡ and_then (walk to_index ps d) (walk to_index us)
  unfolding walk
  walk_append [] us d = refl
  walk_append (p ∷ ps) us d = elim (Option-cases (child to_index p d)) [
    | inl e ↦ ground (arith, e)
    | inr (c, e) ↦ ground (arith, e, walk_append ps us c)
  ]

  -- What stands below a place that was written is what stands in the value written.
  pub walk-store_below :
      (ps us : List Text) (d v w : Value)
      → walk to_index ps d ≡ some v
      → walk to_index (ps ++ us) (store to_index ps w d) ≡ walk to_index us w
  walk-store_below ps us d v w h =
      rw (walk_append ps us (store to_index ps w d), walk-store_self ps d v w h)

  module _
      (to_index_injective : (s t : Text) (i : ℕ)
        → to_index s ≡ some i
        → to_index t ≡ some i
        → s ≡ t) where
    child-put_ne :
        (t u : Text) (d w : Value)
        → text_eq t u ≡ false
        → child to_index u (put to_index t w d) ≡ child to_index u d
    unfolding child put
    child-put_ne t u (array vs) w h = elim (Option-cases (to_index t)) [
      | inl e ↦ ground (arith, e)
      | inr (i, e) ↦ elim (Option-cases (to_index u)) [
        | inl e' ↦ ground (arith, e, e')
        | inr (k, e') ↦ ground (
          arith,
          e,
          e',
          to_list-of_list (set (to_list vs) i w),
          get_elem?-set_ne (to_list vs) i k w,
          to_index_injective t u i,
          text_eq_iff t u,
        )
      ]
    ]
    child-put_ne t u (object ms) w h = ground (arith, get-insert t u w ms)
    child-put_ne t u null w h = refl
    child-put_ne t u (bool b) w h = refl
    child-put_ne t u (number n) w h = refl
    child-put_ne t u (string s) w h = refl

    -- A write leaves every place that is neither above nor below it.
    pub walk-store_apart :
        (ts us : List Text) (d w : Value)
        → is_prefix ts us ≡ false
        → is_prefix us ts ≡ false
        → walk to_index us (store to_index ts w d) ≡ walk to_index us d
    unfolding walk store
    walk-store_apart [] us d w h k = ground arith
    walk-store_apart (t ∷ ts) [] d w h k = ground arith
    walk-store_apart (t ∷ ts) (u ∷ us) d w h k = elim (Option-cases (child to_index t d)) [
      | inl e ↦ ground (arith, e)
      | inr (c, e) ↦ elim (Bool-cases (text_eq t u)) [
        | inl same ↦ ground (
          arith,
          e,
          text_eq_iff t u,
          text_eq_refl u,
          child-put_self t d c (store to_index ts w c) e,
          walk-store_apart ts us c w,
        )
        | inr other ↦ ground (arith, e, child-put_ne t u d (store to_index ts w c) other)
      ]
    ]

  put-item_count : (t : Text) (w d : Value) → item_count (put to_index t w d) ≡ item_count d
  unfolding put as_array
  put-item_count t w (array vs) = elim (Option-cases (to_index t)) [
    | inl e ↦ ground (arith, e)
    | inr (i, e) ↦
        ground (arith, e, to_list-of_list (set (to_list vs) i w), length-set (to_list vs) i w)
  ]
  put-item_count t w (object ms) = refl
  put-item_count t w null = refl
  put-item_count t w (bool b) = refl
  put-item_count t w (number n) = refl
  put-item_count t w (string s) = refl

  abbrev pub count_at : List Text → Value → ℕ
  count_at us d = map_or (walk to_index us d) 0 item_count

  -- A write changes no array above it in length.
  pub count_at-store :
      (us : List Text) (t : Text) (ts : List Text) (d w : Value)
      → count_at us (store to_index (us ++ t ∷ ts) w d) ≡ count_at us d
  unfolding walk store
  count_at-store [] t ts d w = elim (Option-cases (child to_index t d)) [
    | inl e ↦ ground (arith, e)
    | inr (c, e) ↦ ground (arith, e, put-item_count t (store to_index ts w c) d)
  ]
  count_at-store (u ∷ us) t ts d w = elim (Option-cases (child to_index u d)) [
    | inl e ↦ ground (arith, e)
    | inr (c, e) ↦ ground (
      arith,
      e,
      child-put_self u d c (store to_index (us ++ t ∷ ts) w c) e,
      count_at-store us t ts c w,
    )
  ]
