-- ===== src/Prelude/Sorting.antt =====
-- `sort_by`, the stable sort of a slice, and `Vec::dedup`.
use mathlib.Core.Bool.{Bool}
use mathlib.Core.List.{List, [], ◌∷◌}
use schemaform.Prelude.Tests.{if◌then◌else◌}

module _ {ℓ} {A : Type ℓ} where
  -- `x` goes before every entry that is not less than it.
  unfoldable pub insert_sorted : (A → A → Bool) → A → List A → List A
  insert_sorted lt x [] = x ∷ []
  insert_sorted lt x (y ∷ ys) =
      let rest = insert_sorted lt x ys in if lt y x then y ∷ rest else x ∷ y ∷ ys

  unfoldable pub sort_by : (A → A → Bool) → List A → List A
  unfolding insert_sorted
  sort_by lt [] = []
  sort_by lt (x ∷ xs) = insert_sorted lt x (sort_by lt xs)

  -- An entry equal to the one before it is dropped.
  unfoldable dedup_after : (A → A → Bool) → A → List A → List A
  dedup_after eq x [] = []
  dedup_after eq x (y ∷ ys) =
      let dropped = dedup_after eq x ys in
      let rest = dedup_after eq y ys in if eq y x then dropped else y ∷ rest

  unfoldable pub dedup : (A → A → Bool) → List A → List A
  unfolding dedup_after
  dedup eq [] = []
  dedup eq (x ∷ xs) = x ∷ dedup_after eq x xs
