-- ===== src/Prelude/Orders.antt =====
-- `Ord::cmp` as a comparison that is a strict total order, and `Ordering::then_with`.
use Prim.Native.Nat.{Ordering}
use mathlib.Core.Path.{◌≡◌, refl, sym, subst}
use mathlib.Core.Logic.{◌⊎◌, inl, inr}
use native.Mathlib.Omega.{arith}

pub record IsOrder {ℓ} {A : Type ℓ} (cmp : A → A → Ordering) : Type ℓ where
  pub same : (a b : A) → cmp a b ≡ Ordering.eq → a ≡ b
  pub self : (a : A) → cmp a a ≡ Ordering.eq
  pub flip_lt : (a b : A) → cmp a b ≡ Ordering.lt → cmp b a ≡ Ordering.gt
  pub flip_gt : (a b : A) → cmp a b ≡ Ordering.gt → cmp b a ≡ Ordering.lt
  pub trans : (a b c : A) → cmp a b ≡ Ordering.lt → cmp b c ≡ Ordering.lt → cmp a c ≡ Ordering.lt

pub Ordering-cases : (o : Ordering) → (o ≡ Ordering.lt) ⊎ (o ≡ Ordering.eq) ⊎ (o ≡ Ordering.gt)
Ordering-cases Ordering.lt = inl refl
Ordering-cases Ordering.eq = inr (inl refl)
Ordering-cases Ordering.gt = inr (inr refl)

abbrev pub then_with : Ordering → Ordering → Ordering
then_with Ordering.eq o = o
then_with Ordering.lt o = Ordering.lt
then_with Ordering.gt o = Ordering.gt

-- By the first components, then by the second.
abbrev pub lexicographic {ℓ κ} :
    {A : Type ℓ} {B : Type κ} → (A → A → Ordering) → (B → B → Ordering) → A × B → A × B → Ordering
lexicographic cmp cmp' p q = then_with (cmp p.0 q.0) (cmp' p.1 q.1)

then_with-eq :
    (o o' : Ordering) → then_with o o' ≡ Ordering.eq → (o ≡ Ordering.eq) × (o' ≡ Ordering.eq)
then_with-eq o o' h = ground arith

then_with-lt :
    (o o' : Ordering)
    → then_with o o' ≡ Ordering.lt
    → (o ≡ Ordering.lt) ⊎ ((o ≡ Ordering.eq) × (o' ≡ Ordering.lt))
then_with-lt Ordering.lt o' h = inl refl
then_with-lt Ordering.eq o' h = inr (refl, h)
then_with-lt Ordering.gt o' h = inl h

then_with-gt :
    (o o' : Ordering)
    → then_with o o' ≡ Ordering.gt
    → (o ≡ Ordering.gt) ⊎ ((o ≡ Ordering.eq) × (o' ≡ Ordering.gt))
then_with-gt Ordering.gt o' h = inl refl
then_with-gt Ordering.eq o' h = inr (refl, h)
then_with-gt Ordering.lt o' h = inl h

module _ {ℓ κ} {A : Type ℓ} {B : Type κ} (cmp : A → A → Ordering) (cmp' : B → B → Ordering)
    (order : IsOrder cmp) (order' : IsOrder cmp') where
  lexicographic_trans :
      (p q r : A × B)
      → lexicographic cmp cmp' p q ≡ Ordering.lt
      → lexicographic cmp cmp' q r ≡ Ordering.lt
      → lexicographic cmp cmp' p r ≡ Ordering.lt
  lexicographic_trans p q r h k = elim (then_with-lt (cmp p.0 q.0) (cmp' p.1 q.1) h) [
    | inl e ↦ elim (then_with-lt (cmp q.0 r.0) (cmp' q.1 r.1) k) [
      | inl e' ↦ rw (order.trans p.0 q.0 r.0 e e') refl
      | inr (e', k') ↦
          let first = subst (λ a. cmp p.0 a ≡ Ordering.lt) (order.same q.0 r.0 e') e in
          rw first refl
    ]
    | inr (e, h') ↦ elim (then_with-lt (cmp q.0 r.0) (cmp' q.1 r.1) k) [
      | inl e' ↦
          let first = subst (λ a. cmp a r.0 ≡ Ordering.lt) (sym (order.same p.0 q.0 e)) e' in
          rw first refl
      | inr (e', k') ↦
          let first = subst (λ a. cmp p.0 a ≡ Ordering.eq) (order.same q.0 r.0 e') e in
          rw (first, order'.trans p.1 q.1 r.1 h' k') refl
    ]
  ]

  equal_flip : (a b : A) → cmp a b ≡ Ordering.eq → cmp b a ≡ Ordering.eq
  equal_flip a b e = subst (λ c. cmp c a ≡ Ordering.eq) (order.same a b e) (order.self a)

  pub lexicographic-IsOrder : IsOrder (lexicographic cmp cmp')
  lexicographic-IsOrder = record {
    same = λ p q h.
        let (e, e') = then_with-eq (cmp p.0 q.0) (cmp' p.1 q.1) h in
        λ i. (order.same p.0 q.0 e i, order'.same p.1 q.1 e' i);
    self = λ p. rw (order.self p.0) (order'.self p.1);
    flip_lt = λ p q h. elim (then_with-lt (cmp p.0 q.0) (cmp' p.1 q.1) h) [
      | inl e ↦ rw (order.flip_lt p.0 q.0 e) refl
      | inr (e, h') ↦ rw (equal_flip p.0 q.0 e) (order'.flip_lt p.1 q.1 h')
    ];
    flip_gt = λ p q h. elim (then_with-gt (cmp p.0 q.0) (cmp' p.1 q.1) h) [
      | inl e ↦ rw (order.flip_gt p.0 q.0 e) refl
      | inr (e, h') ↦ rw (equal_flip p.0 q.0 e) (order'.flip_gt p.1 q.1 h')
    ];
    trans = lexicographic_trans;
  }
