-- ===== src/Form/Parsing.antt =====
-- crates/schemaform/src/engine.rs: the text of a control as a value, and the values that a control
-- takes. `serde_json::from_str` and `BigInt::from_str` are parameters.
use mathlib.Core.List.{reverse}
use schemaform.Prelude.{
  ℕ, Bool, true, ◌&&◌, ◌||◌, Option, some, List, [], ◌∷◌, any, is_some_and, leb, ◌==◌,
  if◌then◌else◌,
}
use schemaform.Prelude.Int.{ℤ}
use schemaform.Prelude.Results.{Result, ok, err, ◌>>=◌, ok_or}
use schemaform.Json.{Text, Value, number, is_null, is_string, is_boolean, as_number}
use schemaform.Json.Equality.{json_values_equal}
use schemaform.Number.{
  ParseBlocker, invalid_number, invalid_integer, same_number, number_is_integer,
  canonical_integer_with_limit,
}
use schemaform.Form.Definition.{ControlDefinition, ControlKind, CompiledChoice}

-- The parsers of other crates.
pub record Parsers : Type 0 where
  -- `serde_json::from_str::<Value>(text).ok()`
  pub from_str : Text → Option Value
  -- `text.parse::<BigInt>().ok()`
  pub parse_big_int : Text → Option ℤ

is_space : ℕ → Bool
is_space c = c == b' ' || leb 9 c && leb c 13

trim_start : Text → Text
unfolding is_space
trim_start [] = []
trim_start (c ∷ s) = let rest = trim_start s in if is_space c then rest else c ∷ s

-- `str::trim`, of the white space that is ASCII
unfoldable pub trim : Text → Text
unfolding trim_start
trim s = reverse (trim_start (reverse (trim_start s)))

module _ (parsers : Parsers) where
  open parsers use {from_str, parse_big_int}

  abbrev pub equal : Value → Value → Bool
  equal = json_values_equal (same_number parse_big_int)

  abbrev pub number_only : Option Value → ParseBlocker → Result ParseBlocker Value
  number_only (some (number n)) blocker = ok (number n)
  number_only _ blocker = err blocker

  unfoldable pub parse_number : Text → Result ParseBlocker Value
  parse_number input = number_only (from_str input) invalid_number

  unfoldable pub parse_integer_with_limit : Text → ℕ → Result ParseBlocker Value
  unfolding trim
  parse_integer_with_limit input maximum_digits = do
    _ ← number_only (from_str input) invalid_integer
    canonical ← canonical_integer_with_limit (trim input) maximum_digits
    ok_or (from_str canonical) invalid_integer

  unfoldable pub kind_takes : ControlKind → List CompiledChoice → Value → Bool
  kind_takes ControlKind.string choices value = is_string value
  kind_takes ControlKind.number choices value = is_some_and (as_number value) (λ _. true)
  kind_takes ControlKind.integer choices value =
      is_some_and (as_number value) (number_is_integer parse_big_int)
  kind_takes ControlKind.boolean choices value = is_boolean value
  kind_takes ControlKind.choice choices value = any (λ choice. equal choice.value value) choices
  kind_takes ControlKind.constant choices value = any (λ choice. equal choice.value value) choices
  kind_takes ControlKind.null choices value = any (λ choice. equal choice.value value) choices

  unfoldable pub control_value_is_compatible : {P : Type 0} → ControlDefinition P → Value → Bool
  unfolding kind_takes
  control_value_is_compatible control value =
      if is_null value then control.accepts_null else kind_takes control.kind control.choices value
