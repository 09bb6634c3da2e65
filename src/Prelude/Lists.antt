-- ===== src/Prelude/Lists.antt =====
-- Lists measured and indexed by native numbers, and the operations of `Vec` and of slices.
use Prim.Native.Nat.{ℕ, zero, suc, ◌+◌, ◌≤◌, ◌<◌}
use mathlib.Core.Path.{◌≡◌, refl, ap, ◌∙◌}
use mathlib.Core.Bool.{Bool, true, false, ◌&&◌, ◌||◌}
use mathlib.Core.List.{List, [], ◌∷◌, ◌++◌}
use mathlib.Core.Option
use mathlib.Core.Option.{Option, none, some}
use native.Mathlib.Omega.{arith}
use schemaform.Prelude.Tests.{if◌then◌else◌, Bool-cases}
use mathlib.Core.Logic.{inl, inr}

module _ {ℓ} {A : Type ℓ} where
  abbrev pub length : List A → ℕ
  length [] = 0
  length (x ∷ xs) = suc (length xs)

  abbrev pub get_elem? : List A → ℕ → Option A
  get_elem? [] i = none
  get_elem? (x ∷ xs) zero = some x
  get_elem? (x ∷ xs) (suc i) = get_elem? xs i

  -- A write out of bounds changes nothing.
  abbrev pub set : List A → ℕ → A → List A
  set [] i v = []
  set (x ∷ xs) zero v = v ∷ xs
  set (x ∷ xs) (suc i) v = x ∷ set xs i v

  abbrev pub drop : ℕ → List A → List A
  drop zero xs = xs
  drop (suc n) [] = []
  drop (suc n) (x ∷ xs) = drop n xs

  abbrev pub any : (A → Bool) → List A → Bool
  any p [] = false
  any p (x ∷ xs) = p x || any p xs

  abbrev pub all : (A → Bool) → List A → Bool
  all p [] = true
  all p (x ∷ xs) = p x && all p xs

  -- `iter().position(p)` and `iter().find(p)`
  abbrev pub position : (A → Bool) → List A → Option ℕ
  position p [] = none
  position p (x ∷ xs) = if p x then some 0 else Option.map suc (position p xs)

  abbrev pub find : (A → Bool) → List A → Option A
  find p [] = none
  find p (x ∷ xs) = if p x then some x else find p xs

  -- `iter().filter(p)`
  abbrev pub keep_if : (A → Bool) → List A → List A
  keep_if p [] = []
  keep_if p (x ∷ xs) = if p x then x ∷ keep_if p xs else keep_if p xs

  -- `Vec::insert(i, v)`, which panics past the end
  abbrev pub insert_at : ℕ → A → List A → Option (List A)
  insert_at zero v xs = some (v ∷ xs)
  insert_at (suc i) v [] = none
  insert_at (suc i) v (x ∷ xs) = Option.map (◌∷◌ x) (insert_at i v xs)

  -- `Vec::remove(i)`, which panics out of range: the element, and the others
  abbrev pub remove_at : ℕ → List A → Option (A × List A)
  remove_at i [] = none
  remove_at zero (x ∷ xs) = some (x, xs)
  remove_at (suc i) (x ∷ xs) = Option.map (λ r. (r.0, x ∷ r.1)) (remove_at i xs)

  -- `slice::swap(i, k)`, which panics out of range
  abbrev swap_with : ℕ → ℕ → List A → Option A → Option A → Option (List A)
  swap_with i k xs (some a) (some b) = some (set (set xs i b) k a)
  swap_with i k xs _ _ = none

  abbrev pub swap : ℕ → ℕ → List A → Option (List A)
  swap i k xs = swap_with i k xs (get_elem? xs i) (get_elem? xs k)

  -- `Vec::push(v)`
  abbrev pub push : List A → A → List A
  push xs v = xs ++ v ∷ []

module _ {ℓ} {A : Type ℓ} where
  pub length-append : (xs ys : List A) → length (xs ++ ys) ≡ length xs + length ys
  length-append [] ys = omega arith
  length-append (x ∷ xs) ys = omega (arith, length-append xs ys)

  pub length-set : (xs : List A) (i : ℕ) (v : A) → length (set xs i v) ≡ length xs
  length-set [] i v = refl
  length-set (x ∷ xs) zero v = refl
  length-set (x ∷ xs) (suc i) v = ap suc (length-set xs i v)

  pub get_elem?-lt : (xs : List A) (i : ℕ) {a : A} → get_elem? xs i ≡ some a → i < length xs
  get_elem?-lt [] i h = ground arith
  get_elem?-lt (x ∷ xs) zero h = omega arith
  get_elem?-lt (x ∷ xs) (suc i) h = omega (arith, get_elem?-lt xs i h)

  get_elem?_total : (xs : List A) (i : ℕ) → i < length xs → (a : A) × (get_elem? xs i ≡ some a)
  get_elem?_total [] i h = absurd (omega arith)
  get_elem?_total (x ∷ xs) zero h = (x, refl)
  get_elem?_total (x ∷ xs) (suc i) h = get_elem?_total xs i (omega arith)

  pub position_lem :
      (p : A → Bool) (xs : List A) (i : ℕ)
      → position p xs ≡ some i
      → (a : A) × (get_elem? xs i ≡ some a) × (p a ≡ true)
  position_lem p [] i h = ground arith
  position_lem p (x ∷ xs) zero h = elim (Bool-cases (p x)) [
    | inl e ↦ (x, refl, e)
    | inr e ↦ absurd (ground arith)
  ]
  position_lem p (x ∷ xs) (suc i) h = position_lem p xs i (ground arith)

  pub insert_at_total :
      (i : ℕ) (v : A) (xs : List A)
      → i ≤ length xs
      → (ys : List A) × (insert_at i v xs ≡ some ys) × (length ys ≡ suc (length xs))
  insert_at_total zero v xs h = (v ∷ xs, refl, refl)
  insert_at_total (suc i) v [] h = absurd (omega arith)
  insert_at_total (suc i) v (x ∷ xs) h =
      let (ys, e, n) = insert_at_total i v xs (omega arith) in (x ∷ ys, ground arith, ap suc n)

  pub remove_at_total :
      (i : ℕ) (xs : List A)
      → i < length xs
      → (r : A × List A) × (remove_at i xs ≡ some r) × (suc (length r.1) ≡ length xs)
  remove_at_total i [] h = absurd (omega arith)
  remove_at_total zero (x ∷ xs) h = ((x, xs), refl, refl)
  remove_at_total (suc i) (x ∷ xs) h =
      let (r, e, n) = remove_at_total i xs (omega arith) in ((r.0, x ∷ r.1), ground arith, ap suc n)

  pub swap_total :
      (i k : ℕ) (xs : List A)
      → i < length xs
      → k < length xs
      → (a b : A) × (get_elem? xs i ≡ some a)
        × (get_elem? xs k ≡ some b)
        × (swap i k xs ≡ some (set (set xs i b) k a))
        × (length (set (set xs i b) k a) ≡ length xs)
  swap_total i k xs h h' =
      let (a, e) = get_elem?_total xs i h in
      let (b, e') = get_elem?_total xs k h' in
      (a, b, e, e', ground arith, length-set (set xs i b) k a ∙ length-set xs i b)

  pub get_elem?-set_self :
      (xs : List A) (i : ℕ) (v w : A) → get_elem? xs i ≡ some v → get_elem? (set xs i w) i ≡ some w
  get_elem?-set_self [] i v w h = ground arith
  get_elem?-set_self (x ∷ xs) zero v w h = refl
  get_elem?-set_self (x ∷ xs) (suc i) v w h = get_elem?-set_self xs i v w h
