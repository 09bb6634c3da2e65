-- ===== src/Validation/Findings/Largest.antt =====
-- The largest finding kept, whose place another may take.
use Prim.Native.Nat.{Ordering}
use mathlib.Core.Path.{subst}
use schemaform.Prelude.{
  ℕ, suc, ◌+◌, ◌≡◌, refl, sym, ap, ◌∙◌, ◌⊎◌, inl, inr, ◌↔◌, Bool, true, false, some, List, [], ◌∷◌,
  any, get_elem?, set, arith, Bool-cases,
}
use schemaform.Prelude.Orders.{IsOrder, Ordering-cases}
use schemaform.Validation.Findings.{max_from, replace_largest}
use schemaform.Validation.Findings.Members.{Has, get_elem?-Has}

module _ {F : Type 0} (cmp : F → F → Ordering) (same : F → F → Bool) (order : IsOrder cmp)
    (same_iff : (f g : F) → (same f g ≡ true) ↔ (f ≡ g)) where
  unfoldable pub Before : F → F → Type 0
  Before f g = (cmp f g ≡ Ordering.lt) ⊎ (f ≡ g)

  pub any-Has : (f : F) (gs : List F) → any (same f) gs ≡ true → Has f gs
  any-Has f [] h = ground arith
  any-Has f (g ∷ gs) h = elim (Bool-cases (same f g)) [
    | inl e ↦ inl ((same_iff f g).0 e)
    | inr e ↦ inr (any-Has f gs (ground (arith, e)))
  ]

  pub any-new : (f : F) (gs : List F) → any (same f) gs ≡ false → ¬ Has f gs
  any-new f [] h k = k
  any-new f (g ∷ gs) h (inl e) = let here = (same_iff f g).1 e in ground (arith, here)
  any-new f (g ∷ gs) h (inr k) = any-new f gs (ground arith) k

  Before-trans : (f g h : F) → Before f g → Before g h → Before f h
  unfolding Before
  Before-trans f g h (inl p) (inl q) = inl (order.trans f g h p q)
  Before-trans f g h (inl p) (inr q) = inl (subst (λ y. cmp f y ≡ Ordering.lt) q p)
  Before-trans f g h (inr p) q = subst (λ y. Before y h) (sym p) q

  -- The entry at the index is not before another.
  max_from_lem :
      (all : List F) (best next : ℕ) (m : F) (xs : List F)
      → get_elem? all best ≡ some m
      → ((k : ℕ) → get_elem? all (next + k) ≡ get_elem? xs k)
      → (m' : F) × (get_elem? all (max_from cmp same best next m xs) ≡ some m')
        × Before m m'
        × ((x : F) → Has x xs → Before x m')
  unfolding max_from Before
  max_from_lem all best next m [] h tail = (m, h, inr refl, λ x k. absurd k)
  max_from_lem all best next m (x ∷ xs) h tail =
      let tail' : (k : ℕ) → get_elem? all (suc next + k) ≡ get_elem? xs k = λ k.
        let shift : suc next + k ≡ next + suc k = omega arith in
        ap (get_elem? all) shift ∙ tail (suc k) in
      let here : get_elem? all next ≡ some x =
        let shift : next ≡ next + 0 = omega arith in ap (get_elem? all) shift ∙ tail 0 in
      let (m', at, above, rest) = max_from_lem all next (suc next) x xs here tail' in
      elim (Ordering-cases (cmp m x)) [
        | inl e ↦
            let step : max_from cmp same best next m (x ∷ xs)
                ≡ max_from cmp same next (suc next) x xs =
              ground (arith, e) in
            rw step (
              m',
              at,
              Before-trans m x m' (inl e) above,
              λ y k. elim k [
                | inl same_y ↦ subst (λ z. Before z m') (sym same_y) above
                | inr k' ↦ rest y k'
              ],
            )
        | inr others ↦ elim others [
          | inl e ↦
              let step : max_from cmp same best next m (x ∷ xs)
                  ≡ max_from cmp same next (suc next) x xs =
                ground (arith, e) in
              rw step (
                m',
                at,
                Before-trans m x m' (inr (order.same m x e)) above,
                λ y k. elim k [
                  | inl same_y ↦ subst (λ z. Before z m') (sym same_y) above
                  | inr k' ↦ rest y k'
                ],
              )
          | inr e ↦
              let (m'', at', above', rest') = max_from_lem all best (suc next) m xs h tail' in
              let step : max_from cmp same best next m (x ∷ xs)
                  ≡ max_from cmp same best (suc next) m xs =
                ground (arith, e) in
              rw step (
                m'',
                at',
                above',
                λ y k. elim k [
                  | inl same_y ↦
                      subst (λ z. Before z m'') (sym same_y)
                        (Before-trans x m m'' (inl (order.flip_gt m x e)) above')
                  | inr k' ↦ rest' y k'
                ],
              )
        ]
      ]

  -- A list that is not empty has a largest entry.
  max_index_lem :
      (x : F) (xs : List F)
      → (m : F) × (get_elem? (x ∷ xs) (max_from cmp same 0 1 x xs) ≡ some m)
        × ((y : F) → Has y (x ∷ xs) → Before y m)
  max_index_lem x xs =
      let (m, at, above, rest) =
        max_from_lem (x ∷ xs) 0 1 x xs refl
          (λ k. let shift : 1 + k ≡ suc k = omega arith in ap (get_elem? (x ∷ xs)) shift) in
      (m, at, λ y k. elim k [ inl e ↦ subst (λ z. Before z m) (sym e) above | inr k' ↦ rest y k' ])

  -- The place of the largest finding is taken, or the finding comes after all.
  abbrev Replaced : F → List F → List F → Type 0
  Replaced f fs fs' =
      ((i : ℕ) × (m : F) × (get_elem? fs i ≡ some m)
        × ((y : F) → Has y fs → Before y m)
        × (cmp f m ≡ Ordering.lt)
        × (fs' ≡ set fs i f))
      ⊎ (((y : F) → Has y fs → cmp y f ≡ Ordering.lt) × (fs' ≡ fs))

  pub replace_largest_lem :
      (f x : F) (xs : List F)
      → ¬ Has f (x ∷ xs)
      → (fs : List F) × (replace_largest cmp same f (x ∷ xs) ≡ some fs) × Replaced f (x ∷ xs) fs
  unfolding replace_largest Before
  replace_largest_lem f x xs new =
      let i = max_from cmp same 0 1 x xs in
      let (m, at, above) = max_index_lem x xs in
      let there = get_elem?-Has (x ∷ xs) i at in
      elim (Ordering-cases (cmp f m)) [
        | inl e ↦ (set (x ∷ xs) i f, rw (at, e) refl, inl (i, m, at, above, e, refl))
        | inr others ↦ elim others [
          | inl e ↦ absurd (new (subst (λ y. Has y (x ∷ xs)) (sym (order.same f m e)) there))
          | inr e ↦
              let after = order.flip_gt f m e in
              (
                x ∷ xs,
                rw (at, e) refl,
                inr (
                  λ y k. elim (above y k) [
                    | inl less ↦ order.trans y m f less after
                    | inr same_y ↦ subst (λ z. cmp z f ≡ Ordering.lt) (sym same_y) after
                  ],
                  refl,
                ),
              )
        ]
      ]
