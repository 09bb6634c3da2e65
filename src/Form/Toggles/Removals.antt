-- ===== src/Form/Toggles/Removals.antt =====
-- The members removed from a multiple choice, and the items removed with them.
use mathlib.Core.List.{reverse, reverse-append}
use schemaform.Prelude.{
  ℕ, suc, ◌≡◌, refl, sym, ap, ◌∙◌, inl, inr, Bool, not, some, List, [], ◌∷◌, ◌++◌, map, length,
  remove_at, keep_if, arith, Bool-cases, Option-cases, if◌then◌else◌,
}
use schemaform.Json.{Value}
use schemaform.Form.State.{ArrayItemState, identities}
use schemaform.Form.Toggles.{positions, remove_each}

module _ {P : Type 0} (p : Value → Bool) where
  -- The items at the places of the members that pass, and those at the places of the others.
  abbrev pub picked : List Value → List (ArrayItemState P) → List (ArrayItemState P)
  picked (v ∷ values) (item ∷ items) =
      if p v then item ∷ picked values items else picked values items
  picked _ _ = []

  abbrev pub unpicked : List Value → List (ArrayItemState P) → List (ArrayItemState P)
  unpicked (v ∷ values) (item ∷ items) =
      if p v then unpicked values items else item ∷ unpicked values items
  unpicked _ _ = []

positions-suc :
    (p : Value → Bool) (i : ℕ) (values : List Value)
    → positions p (suc i) values ≡ map suc (positions p i values)
positions-suc p i [] = refl
positions-suc p i (v ∷ values) = elim (Bool-cases (p v)) [
  | inl e ↦ rw e (ap (◌∷◌ (suc i)) (positions-suc p (suc i) values))
  | inr e ↦ rw e (positions-suc p (suc i) values)
]

map-suc_push : (l : List ℕ) (i : ℕ) → map suc (l ++ i ∷ []) ≡ map suc l ++ suc i ∷ []
map-suc_push [] i = refl
map-suc_push (k ∷ l) i = ap (◌∷◌ (suc k)) (map-suc_push l i)

reverse-map-suc : (l : List ℕ) → reverse (map suc l) ≡ map suc (reverse l)
reverse-map-suc [] = refl
reverse-map-suc (i ∷ l) =
    reverse-append (suc i ∷ []) (map suc l)
    ∙ ap (λ (k : List ℕ). k ++ suc i ∷ []) (reverse-map-suc l)
    ∙ sym (map-suc_push (reverse l) i)
    ∙ ap (map suc) (sym (reverse-append (i ∷ []) l))

module _ {P : Type 0} where
  -- Indices behind the first entry leave it.
  remove_each-suc :
      (l : List ℕ) (v : Value) (values values' : List Value) (item : ArrayItemState P)
      (items items' : List (ArrayItemState P)) (gone : List ℕ)
      → remove_each l values items ≡ some (values', items', gone)
      → remove_each (map suc l) (v ∷ values) (item ∷ items)
        ≡ some (v ∷ values', item ∷ items', gone)
  remove_each-suc [] v values values' item items items' gone h = ground arith
  remove_each-suc (i ∷ l) v values values' item items items' gone h =
      elim (Option-cases (remove_at i values)) [
        | inl e ↦ absurd (ground (arith, e))
        | inr ((w, ws), e) ↦ elim (Option-cases (remove_at i items)) [
          | inl e' ↦ absurd (ground (arith, e, e'))
          | inr ((y, ys), e') ↦ elim (Option-cases (remove_each l ws ys)) [
            | inl e'' ↦ absurd (ground (arith, e, e', e''))
            | inr ((vs, left, rest), e'') ↦
                let below = remove_each-suc l v ws vs item ys left rest e'' in
                rw (e, e', below) (ground (arith, e, e', e''))
          ]
        ]
      ]

  -- The first entry is removed last.
  remove_each-last :
      (l : List ℕ) (v : Value) (values values' : List Value) (item : ArrayItemState P)
      (items items' : List (ArrayItemState P)) (gone : List ℕ)
      → remove_each l values items ≡ some (v ∷ values', item ∷ items', gone)
      → remove_each (l ++ 0 ∷ []) values items ≡ some (values', items', gone ++ item.identity ∷ [])
  remove_each-last [] v values values' item items items' gone h =
      let e : values ≡ v ∷ values' = ground arith in
      let e' : items ≡ item ∷ items' = ground arith in
      let e'' : gone ≡ [] = ground arith in rw (e, e', e'') refl
  remove_each-last (i ∷ l) v values values' item items items' gone h =
      elim (Option-cases (remove_at i values)) [
        | inl e ↦ absurd (ground (arith, e))
        | inr ((w, ws), e) ↦ elim (Option-cases (remove_at i items)) [
          | inl e' ↦ absurd (ground (arith, e, e'))
          | inr ((y, ys), e') ↦ elim (Option-cases (remove_each l ws ys)) [
            | inl e'' ↦ absurd (ground (arith, e, e', e''))
            | inr ((vs, left, rest), e'') ↦
                let same : vs ≡ v ∷ values' = ground (arith, e, e', e'') in
                let same' : left ≡ item ∷ items' = ground (arith, e, e', e'') in
                let first : gone ≡ y.identity ∷ rest = ground (arith, e, e', e'') in
                let below =
                  remove_each-last l v ws values' item ys items' rest
                    (e'' ∙ λ n. some (same n, same' n, rest)) in
                rw (e, e', below, first) refl
          ]
        ]
      ]

  -- The members that pass are removed, and the items at their places, from the last one on.
  pub remove_each-positions :
      (p : Value → Bool) (values : List Value) (items : List (ArrayItemState P))
      → length items ≡ length values
      → remove_each (reverse (positions p 0 values)) values items
        ≡ some (
          keep_if (λ v. not (p v)) values,
          unpicked p values items,
          reverse (identities (picked p values items)),
        )
  remove_each-positions p [] [] same = refl
  remove_each-positions p [] (item ∷ items) same = absurd (omega arith)
  remove_each-positions p (v ∷ values) [] same = absurd (omega arith)
  remove_each-positions p (v ∷ values) (item ∷ items) same =
      let later : reverse (positions p 1 values) ≡ map suc (reverse (positions p 0 values)) =
        ap reverse (positions-suc p 0 values) ∙ reverse-map-suc (positions p 0 values) in
      let rest =
        remove_each-suc (reverse (positions p 0 values)) v values _ item items _ _
          (remove_each-positions p values items (omega arith)) in
      elim (Bool-cases (p v)) [
        | inr e ↦ rw (e, later) rest
        | inl e ↦
            rw
              (
                e,
                reverse-append (0 ∷ []) (positions p 1 values),
                later,
                reverse-append (item.identity ∷ []) (identities (picked p values items)),
              )
              (remove_each-last (map suc (reverse (positions p 0 values))) v (v ∷ values) _ item
                (item ∷ items) _ _ rest)
      ]
