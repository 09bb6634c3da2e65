-- ===== src/Form/Create/Fresh.antt =====
-- Items under fresh identities: as many as asked for, each identity used once and none in use
-- before.
use schemaform.Prelude.{
  ℕ, zero, suc, ◌+◌, ◌^◌, ◌≤◌, ◌<◌, ◌≡◌, refl, ap, length, arith, map_or, Option-cases, inl, inr,
}
use schemaform.Json.{Value}
use schemaform.Pointer.{JsonPtr}
use schemaform.Pointer.Frame.{count}
use schemaform.Form.Definition.{ArrayDefinition}
use schemaform.Form.State.{bump, new_item}
use schemaform.Form.Arrays.{array_values}
use schemaform.Form.Arrays.Identities.{occurrences}
use schemaform.Form.Arrays.Invariant.{bump_lem}
use schemaform.Form.Create.{fresh_array_items}

-- `used x` counts an identity: those from `next` on below `next'` at most once, the others never.
pub record IsRun (next next' : ℕ) (used : ℕ → ℕ) : Type 0 where
  pub once : (x : ℕ) → used x ≤ 1
  pub none_before : (x : ℕ) → x < next → used x ≡ 0
  pub none_after : (x : ℕ) → next' ≤ x → used x ≡ 0

module _ (j : JsonPtr) where
  -- An array is given as many items as it has values.
  pub count-array_values :
      (p : j.PointerBuf) (d : Value) → map_or (array_values j p d) 0 length ≡ count j p d
  count-array_values p d = elim (Option-cases (j.resolve p d)) [ inl e ↦ rw e | inr (v, e) ↦ rw e ]

module _ {P : Type 0} (definition : ArrayDefinition P) where
  pub length-fresh : (n next : ℕ) → length (fresh_array_items definition n next).0 ≡ n
  unfolding fresh_array_items
  length-fresh zero next = refl
  length-fresh (suc n) next = ap suc (length-fresh n (bump next))

  pub next-fresh :
      (n next : ℕ) → next + n < 2 ^ 64 → (fresh_array_items definition n next).1 ≡ next + n
  unfolding fresh_array_items
  next-fresh zero next h = omega arith
  next-fresh (suc n) next h =
      let step = bump_lem next (omega arith) in
      omega (arith, next-fresh n (bump next) (omega arith))

  pub fresh-IsRun :
      (n next : ℕ)
      → next + n < 2 ^ 64
      → IsRun next (next + n) (λ x. occurrences x (fresh_array_items definition n next).0)
  unfolding fresh_array_items new_item
  fresh-IsRun zero next h = record {
    once = λ x. omega arith;
    none_before = λ x k. refl;
    none_after = λ x k. refl;
  }
  fresh-IsRun (suc n) next h =
      let step = bump_lem next (omega arith) in
      let rest = fresh-IsRun n (bump next) (omega arith) in
      record {
        once = λ x. ground (arith, rest.once x, rest.none_before x);
        none_before = λ x k. ground (arith, rest.none_before x);
        none_after = λ x k. ground (arith, rest.none_after x);
      }
