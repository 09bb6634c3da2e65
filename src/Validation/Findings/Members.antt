-- ===== src/Validation/Findings/Members.antt =====
-- Membership in a list, and what a write at an index and a sort make of it.
use Prim.Native.Nat.{Ordering}
use mathlib.Core.Option
use mathlib.Core.Path.{subst}
use schemaform.Prelude.{
  ℕ, zero, suc, ◌≡◌, refl, sym, ap, ◌∙◌, ◌⊎◌, inl, inr, Bool, some, List, [], ◌∷◌, length,
  get_elem?, set, push, arith, Bool-cases, ◌≢◌, ◌↔◌,
}
use schemaform.Prelude.Orders.{IsOrder, Ordering-cases}
use schemaform.Prelude.Sorting.{insert_sorted, sort_by}
use schemaform.Validation.Findings.{is_lt}

module _ {F : Type 0} where
  abbrev pub Has : F → List F → Type 0
  Has f [] = ⊥
  Has f (g ∷ gs) = (f ≡ g) ⊎ Has f gs

  abbrev pub AllDistinct : List F → Type 0
  AllDistinct [] = Unit {0}
  AllDistinct (g ∷ gs) = ¬ Has g gs × AllDistinct gs

  pub Has-push : (f g : F) (gs : List F) → Has f (push gs g) ↔ ((f ≡ g) ⊎ Has f gs)
  Has-push f g [] = (λ h. elim h [ inl e ↦ inl e | inr k ↦ inr k ], λ h. h)
  Has-push f g (x ∷ gs) =
      let (to, from) = Has-push f g gs in
      (
        λ h. elim h [
          | inl e ↦ inr (inl e)
          | inr k ↦ elim (to k) [ inl e ↦ inl e | inr k' ↦ inr (inr k') ]
        ],
        λ h. elim h [
          | inl e ↦ inr (from (inl e))
          | inr k ↦ elim k [ inl e ↦ inl e | inr k' ↦ inr (from (inr k')) ]
        ],
      )

  pub push-AllDistinct :
      (f : F) (gs : List F) → ¬ Has f gs → AllDistinct gs → AllDistinct (push gs f)
  push-AllDistinct f [] new d = (λ h. h, tt)
  push-AllDistinct f (g ∷ gs) new d = (
    λ h. elim ((Has-push g f gs).0 h) [ inl e ↦ new (inl (sym e)) | inr k ↦ d.0 k ],
    push-AllDistinct f gs (λ h. new (inr h)) d.1,
  )

  pub get_elem?-Has : (gs : List F) (i : ℕ) {g : F} → get_elem? gs i ≡ some g → Has g gs
  get_elem?-Has [] i h = absurd (ground arith)
  get_elem?-Has (x ∷ gs) zero h = inl (sym (Option.some-injective _ _ h))
  get_elem?-Has (x ∷ gs) (suc i) h = inr (get_elem?-Has gs i h)

  -- The entry at the index is replaced, and no other.
  pub Has-set :
      (gs : List F) (i : ℕ) (f m g : F)
      → AllDistinct gs
      → get_elem? gs i ≡ some m
      → Has g (set gs i f)
      → (g ≡ f) ⊎ (Has g gs × (g ≢ m))
  Has-set [] i f m g d h k = absurd k
  Has-set (x ∷ gs) zero f m g d h k = elim k [
    | inl e ↦ inl e
    | inr k' ↦
        inr (inr k', λ e. d.0 (subst (λ y. Has y gs) (e ∙ sym (Option.some-injective _ _ h)) k'))
  ]
  Has-set (x ∷ gs) (suc i) f m g d h k = elim k [
    | inl e ↦ inr (inl e, λ e'. d.0 (subst (λ y. Has y gs) (sym e' ∙ e) (get_elem?-Has gs i h)))
    | inr k' ↦ elim (Has-set gs i f m g d.1 h k') [
      | inl e ↦ inl e
      | inr (k'', ne) ↦ inr (inr k'', ne)
    ]
  ]

  pub set-Has_new : (gs : List F) (i : ℕ) (f m : F) → get_elem? gs i ≡ some m → Has f (set gs i f)
  set-Has_new [] i f m h = absurd (ground arith)
  set-Has_new (x ∷ gs) zero f m h = inl refl
  set-Has_new (x ∷ gs) (suc i) f m h = inr (set-Has_new gs i f m h)

  pub set-Has_old :
      (gs : List F) (i : ℕ) (f m g : F)
      → get_elem? gs i ≡ some m
      → Has g gs
      → (g ≡ m) ⊎ Has g (set gs i f)
  set-Has_old [] i f m g h k = absurd k
  set-Has_old (x ∷ gs) zero f m g h k = elim k [
    | inl e ↦ inl (e ∙ Option.some-injective _ _ h)
    | inr k' ↦ inr (inr k')
  ]
  set-Has_old (x ∷ gs) (suc i) f m g h k = elim k [
    | inl e ↦ inr (inl e)
    | inr k' ↦ elim (set-Has_old gs i f m g h k') [ inl e ↦ inl e | inr k'' ↦ inr (inr k'') ]
  ]

  pub set-AllDistinct :
      (gs : List F) (i : ℕ) (f m : F)
      → get_elem? gs i ≡ some m
      → ¬ Has f gs
      → AllDistinct gs
      → AllDistinct (set gs i f)
  set-AllDistinct [] i f m h new d = tt
  set-AllDistinct (x ∷ gs) zero f m h new d = (λ k. new (inr k), d.1)
  set-AllDistinct (x ∷ gs) (suc i) f m h new d = (
    λ k. elim (Has-set gs i f m x d.1 h k) [ inl e ↦ new (inl (sym e)) | inr (k', ne) ↦ d.0 k' ],
    set-AllDistinct gs i f m h (λ k. new (inr k)) d.1,
  )

-- in strict order
module _ {F : Type 0} (cmp : F → F → Ordering) where
  abbrev pub Sorted : List F → Type 0
  Sorted [] = Unit {0}
  Sorted (f ∷ fs) = ((g : F) → Has g fs → cmp f g ≡ Ordering.lt) × Sorted fs

module _ {F : Type 0} (cmp : F → F → Ordering) (order : IsOrder cmp) where
  abbrev lt : F → F → Bool
  lt f g = is_lt (cmp f g)

  Has-insert_sorted : (f g : F) (gs : List F) → Has f (insert_sorted lt g gs) ↔ ((f ≡ g) ⊎ Has f gs)
  unfolding insert_sorted
  Has-insert_sorted f g [] = (λ h. h, λ h. h)
  Has-insert_sorted f g (x ∷ gs) = elim (Bool-cases (lt x g)) [
    | inr e ↦ rw e (λ h. h, λ h. h)
    | inl e ↦
        let (to, from) = Has-insert_sorted f g gs in
        rw e (
          λ h. elim h [
            | inl same ↦ inr (inl same)
            | inr k ↦ elim (to k) [ inl same ↦ inl same | inr k' ↦ inr (inr k') ]
          ],
          λ h. elim h [
            | inl same ↦ inr (from (inl same))
            | inr k ↦ elim k [ inl same ↦ inl same | inr k' ↦ inr (from (inr k')) ]
          ],
        )
  ]

  pub Has-sort_by : (f : F) (gs : List F) → Has f (sort_by lt gs) ↔ Has f gs
  unfolding sort_by
  Has-sort_by f [] = (λ h. h, λ h. h)
  Has-sort_by f (g ∷ gs) =
      let (to, from) = Has-sort_by f gs in
      let (to', from') = Has-insert_sorted f g (sort_by lt gs) in
      (
        λ h. elim (to' h) [ inl e ↦ inl e | inr k ↦ inr (to k) ],
        λ h. from' (elim h [ inl e ↦ inl e | inr k ↦ inr (from k) ]),
      )

  insert_sorted-Sorted :
      (g : F) (gs : List F) → ¬ Has g gs → Sorted cmp gs → Sorted cmp (insert_sorted lt g gs)
  unfolding insert_sorted
  insert_sorted-Sorted g [] new s = (λ f h. absurd h, tt)
  insert_sorted-Sorted g (x ∷ gs) new s = elim (Ordering-cases (cmp x g)) [
    | inl e ↦ rw e (
      λ f h. elim ((Has-insert_sorted f g gs).0 h) [
        | inl same ↦ subst (λ y. cmp x y ≡ Ordering.lt) (sym same) e
        | inr k ↦ s.0 f k
      ],
      insert_sorted-Sorted g gs (λ h. new (inr h)) s.1,
    )
    | inr rest ↦ elim rest [
      | inl e ↦ absurd (new (inl (sym (order.same x g e))))
      | inr e ↦
          let first = order.flip_gt x g e in
          rw e (
            λ f h. elim h [
              | inl same ↦ subst (λ y. cmp g y ≡ Ordering.lt) (sym same) first
              | inr k ↦ order.trans g x f first (s.0 f k)
            ],
            s,
          )
    ]
  ]

  pub sort_by-Sorted : (gs : List F) → AllDistinct gs → Sorted cmp (sort_by lt gs)
  unfolding sort_by
  sort_by-Sorted [] d = tt
  sort_by-Sorted (g ∷ gs) d =
      insert_sorted-Sorted g (sort_by lt gs) (λ h. d.0 ((Has-sort_by g gs).0 h))
        (sort_by-Sorted gs d.1)

  length-insert_sorted : (g : F) (gs : List F) → length (insert_sorted lt g gs) ≡ suc (length gs)
  unfolding insert_sorted
  length-insert_sorted g [] = refl
  length-insert_sorted g (x ∷ gs) = ground (arith, length-insert_sorted g gs)

  pub length-sort_by : (gs : List F) → length (sort_by lt gs) ≡ length gs
  unfolding sort_by
  length-sort_by [] = refl
  length-sort_by (g ∷ gs) = length-insert_sorted g (sort_by lt gs) ∙ ap suc (length-sort_by gs)
