-- ===== src/Validation/Findings.antt =====
-- crates/schemaform/src/validation.rs: the findings of a validation, of which
-- `validate_with_limits` keeps a limited number; crates/schemaform/src/finding.rs: the finding.
-- The errors that the validator yields are a parameter, with what is read of them: `evaluator_failed`,
-- and the finding that `translate` makes of an error. The faults that only a test build injects are
-- left out. `none` is the panic of `expect`.
pub mod Members
pub mod Largest
pub mod Kept
pub mod Outcomes
use Prim.Native.Nat.{Ordering}
use schemaform.Prelude.{
  ℕ, suc, ◌+◌, Bool, true, false, ◌&&◌, Option, none, some, List, [], ◌∷◌, length, any, get_elem?,
  set, push, ltb, if◌then◌else◌, and_then,
}
use schemaform.Prelude.Orders.{then_with}
use schemaform.Prelude.Sorting.{sort_by}
use schemaform.Json.{Text, text_eq, text_cmp, Value}
use schemaform.Json.Equality.{value_eq}

pub record SchemaLocation : Type 0 where
  pub resource : Text
  pub pointer : Text

pub record ValidationFinding : Type 0 where
  pub code : Text
  pub instance_location : Text
  pub keyword_location : SchemaLocation
  pub parameters : Value

-- The derived `==`.
unfoldable pub finding_eq : ValidationFinding → ValidationFinding → Bool
unfolding text_eq value_eq
finding_eq left right =
    text_eq left.code right.code
    && text_eq left.instance_location right.instance_location
    && (text_eq left.keyword_location.resource right.keyword_location.resource
        && text_eq left.keyword_location.pointer right.keyword_location.pointer)
    && value_eq left.parameters right.parameters

-- `to_string` writes a value as JSON.
unfoldable pub compare_findings : (Value → Text) → ValidationFinding → ValidationFinding → Ordering
unfolding text_cmp
compare_findings to_string left right =
    then_with (text_cmp left.instance_location right.instance_location) (
      then_with (text_cmp left.keyword_location.resource right.keyword_location.resource) (
        then_with (text_cmp left.keyword_location.pointer right.keyword_location.pointer) (
          then_with (text_cmp left.code right.code)
            (text_cmp (to_string left.parameters) (to_string right.parameters)))))

abbrev pub is_lt : Ordering → Bool
is_lt Ordering.lt = true
is_lt _ = false

-- `Outcome`, with the reason of `Indeterminate` left out: it is "validator-evaluation-failed".
pub data Outcome (F : Type 0) : Type 0 where
  valid : Outcome F
  invalid : (findings : List F) (truncated : Bool) → Outcome F
  indeterminate : Outcome F

pub record Retained (F : Type 0) : Type 0 where
  pub findings : List F
  pub truncated : Bool

module _ {F : Type 0} (cmp : F → F → Ordering) (same : F → F → Bool) where
  -- `max_by`: of equal entries the last
  unfoldable pub max_from : ℕ → ℕ → F → List F → ℕ
  max_from best next m [] = best
  max_from best next m (x ∷ xs) =
      let kept = max_from best (suc next) m xs in
      let replaced = max_from next (suc next) x xs in
      elim (cmp m x) [ Ordering.gt ↦ kept | Ordering.lt ↦ replaced | Ordering.eq ↦ replaced ]

  abbrev max_index : List F → Option ℕ
  max_index [] = none
  max_index (x ∷ xs) = some (max_from 0 1 x xs)

  -- The finding takes the place of the largest one if it is less.
  unfoldable pub replace_largest : F → List F → Option (List F)
  unfolding max_from
  replace_largest finding findings = and_then (max_index findings) λ (largest : ℕ).
      and_then (get_elem? findings largest)
        λ (m : F). some (if is_lt (cmp finding m) then set findings largest finding else findings)

  abbrev is_empty : List F → Bool
  is_empty [] = true
  is_empty (f ∷ fs) = false

  unfoldable pub retain : ℕ → F → Retained F → Option (Retained F)
  unfolding replace_largest
  retain limit finding kept =
      let replaced = replace_largest finding kept.findings in
      if any (same finding) kept.findings
      then some kept
      else if ltb (length kept.findings) limit
      then some (record kept { findings = push kept.findings finding })
      else if is_empty kept.findings
      then some (record kept { truncated = true })
      else and_then replaced
          λ (findings : List F). some (record { findings = findings; truncated = true })

  module _ {E : Type 0} (evaluator_failed : E → Bool) (translate : E → F) where
    -- The loop over the errors; the result `none` inside is an evaluation that failed.
    unfoldable pub retain_all : ℕ → List E → Retained F → Option (Option (Retained F))
    unfolding retain
    retain_all limit [] kept = some (some kept)
    retain_all limit (e ∷ es) kept =
        if evaluator_failed e
        then some none
        else and_then (retain limit (translate e) kept)
            λ (kept' : Retained F). retain_all limit es kept'

    abbrev pub outcome : List E → Option (Retained F) → Outcome F
    outcome es none = indeterminate
    outcome [] (some kept) = valid
    outcome (e ∷ es) (some kept) =
        invalid (sort_by (λ f g. is_lt (cmp f g)) kept.findings) kept.truncated

    unfoldable pub validate_by : ℕ → List E → Option (Outcome F)
    unfolding retain_all sort_by
    validate_by limit es =
        and_then (retain_all limit es (record { findings = []; truncated = false }))
          λ (r : Option (Retained F)). some (outcome es r)

-- `validate_with_limits`, of the errors that the validator yields.
unfoldable pub validate_with_limits :
    (Value → Text)
    → {E : Type 0} → (E → Bool)
    → (E → ValidationFinding)
    → ℕ
    → List E
    → Option (Outcome ValidationFinding)
unfolding validate_by compare_findings finding_eq
validate_with_limits to_string evaluator_failed translate limit es =
    validate_by (compare_findings to_string) finding_eq evaluator_failed translate limit es
