-- ===== src/Form/Arrays/Identities.antt =====
-- How often an identity is used by the items of a form.
use schemaform.Prelude.{
  ℕ, zero, suc, ◌+◌, ◌≡◌, refl, some, List, [], ◌∷◌, set, get_elem?, insert_at, remove_at, push,
  arith, if◌then◌else◌, ◌==◌, Option-cases, inl, inr,
}
use schemaform.Form.State.{ArrayState, ArrayItemState}

module _ {P : Type 0} where
  abbrev is_use : ℕ → ArrayItemState P → ℕ
  is_use x item = if item.identity == x then 1 else 0

  abbrev pub occurrences : ℕ → List (ArrayItemState P) → ℕ
  occurrences x [] = 0
  occurrences x (item ∷ items) = is_use x item + occurrences x items

  abbrev pub uses : ℕ → List (ArrayState P) → ℕ
  uses x [] = 0
  uses x (a ∷ arrays) = occurrences x a.items + uses x arrays

  pub uses-set :
      (x : ℕ) (arrays : List (ArrayState P)) (i : ℕ) (a a' : ArrayState P)
      → get_elem? arrays i ≡ some a
      → uses x (set arrays i a') + occurrences x a.items ≡ uses x arrays + occurrences x a'.items
  uses-set x [] i a a' e = ground arith
  uses-set x (b ∷ arrays) zero a a' e = let here : b ≡ a = ground arith in rw here (omega arith)
  uses-set x (b ∷ arrays) (suc i) a a' e = omega (arith, uses-set x arrays i a a' e)

  pub occurrences-push :
      (x : ℕ) (items : List (ArrayItemState P)) (item : ArrayItemState P)
      → occurrences x (push items item) ≡ occurrences x items + is_use x item
  occurrences-push x [] item = omega arith
  occurrences-push x (y ∷ items) item = omega (arith, occurrences-push x items item)

  pub occurrences-insert_at :
      (x k : ℕ) (item : ArrayItemState P) (items items' : List (ArrayItemState P))
      → insert_at k item items ≡ some items'
      → occurrences x items' ≡ occurrences x items + is_use x item
  occurrences-insert_at x zero item items items' e =
      let here : item ∷ items ≡ items' = ground arith in rw (← here) (omega arith)
  occurrences-insert_at x (suc k) item [] items' e = ground arith
  occurrences-insert_at x (suc k) item (y ∷ items) items' e =
      elim (Option-cases (insert_at k item items)) [
        | inl e' ↦ absurd (ground (arith, e'))
        | inr (rest, e') ↦
            let here : y ∷ rest ≡ items' = ground (arith, e') in
            rw (← here) (omega (arith, occurrences-insert_at x k item items rest e'))
      ]

  pub occurrences-remove_at :
      (x k : ℕ) (item : ArrayItemState P) (items items' : List (ArrayItemState P))
      → remove_at k items ≡ some (item, items')
      → occurrences x items' + is_use x item ≡ occurrences x items
  occurrences-remove_at x zero item [] items' e = ground arith
  occurrences-remove_at x (suc k) item [] items' e = ground arith
  occurrences-remove_at x zero item (y ∷ items) items' e =
      let here : y ≡ item = ground arith in
      let rest : items ≡ items' = ground arith in rw (here, rest) (omega arith)
  occurrences-remove_at x (suc k) item (y ∷ items) items' e =
      elim (Option-cases (remove_at k items)) [
        | inl e' ↦ absurd (ground (arith, e'))
        | inr ((z, rest), e') ↦
            let here : y ∷ rest ≡ items' = ground (arith, e') in
            let same : z ≡ item = ground (arith, e') in
            rw (← here, ← same) (omega (arith, occurrences-remove_at x k z items rest e'))
      ]

  occurrences-set :
      (x k : ℕ) (a b : ArrayItemState P) (items : List (ArrayItemState P))
      → get_elem? items k ≡ some a
      → occurrences x (set items k b) + is_use x a ≡ occurrences x items + is_use x b
  occurrences-set x k a b [] e = ground arith
  occurrences-set x zero a b (y ∷ items) e =
      let here : y ≡ a = ground arith in rw here (omega arith)
  occurrences-set x (suc k) a b (y ∷ items) e = omega (arith, occurrences-set x k a b items e)

  get_elem?-set_same :
      (k l : ℕ) (a b : ArrayItemState P) (items : List (ArrayItemState P))
      → get_elem? items k ≡ some a
      → get_elem? items l ≡ some b
      → get_elem? (set items k b) l ≡ some b
  get_elem?-set_same k l a b [] e e' = e'
  get_elem?-set_same zero zero a b (y ∷ items) e e' = refl
  get_elem?-set_same zero (suc l) a b (y ∷ items) e e' = e'
  get_elem?-set_same (suc k) zero a b (y ∷ items) e e' = e'
  get_elem?-set_same (suc k) (suc l) a b (y ∷ items) e e' = get_elem?-set_same k l a b items e e'

  -- An exchange uses the same identities.
  pub occurrences-swap :
      (x k l : ℕ) (a b : ArrayItemState P) (items : List (ArrayItemState P))
      → get_elem? items k ≡ some a
      → get_elem? items l ≡ some b
      → occurrences x (set (set items k b) l a) ≡ occurrences x items
  occurrences-swap x k l a b items e e' = omega (
    arith,
    occurrences-set x k a b items e,
    occurrences-set x l b a (set items k b) (get_elem?-set_same k l a b items e e'),
  )
