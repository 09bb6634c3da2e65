-- ===== src/Examples/Checks.antt =====
-- The theorems on limits, on cardinality bounds, on findings and on fragments, at concrete inputs.
use schemaform.Prelude.{
  ℕ, ◌+◌, ◌*◌, ◌<◌, ◌^◌, ◌≤◌, ◌≡◌, refl, ◌⊎◌, Bool, true, false, some, List, [], ◌∷◌, ◌++◌, length,
  arith, ◌==◌, if◌then◌else◌, Bool-cases, ◌↔◌, inl, inr, ◌||◌,
}
use schemaform.Prelude.Int.{pos}
use schemaform.Prelude.Results.{ok, err, ok_or}
use schemaform.Json.{Text, Value, Values, null, bool, array, object, nil, cons, end, member}
use schemaform.Json.Equality.{size}
use schemaform.Limits.Types.{InputLimits, InputLimitError}
use schemaform.Limits.Sizes.{node_count, member_total, height, widest, longest}
use schemaform.Limits.Walk.{walk}
use schemaform.Limits.Walk.Recursion
use schemaform.Limits.Walk.Recursion.{visited}
use schemaform.Limits.Input.{Counts, check_node, check_key, check_input_value}
use schemaform.Limits.Input.Fits as InputFits
use schemaform.Limits.Input.Fits.{Fits}
use schemaform.Limits.Metrics.{ValueMetrics, value_metrics}
use schemaform.Limits.Metrics.Measures
use schemaform.Number.Syntax.{parse_i64}
use schemaform.Validation.Cardinality.{ExactNonnegativeInteger, parse, minimum, is_valid}
use schemaform.Validation.Cardinality.Digits.{value_from}
use schemaform.Validation.Cardinality.Bounds
use schemaform.Validation.Cardinality.Bounds.{digits_of, exponent_of, Respects}
use schemaform.Validation.Findings.{
  ValidationFinding, Outcome, compare_findings, validate_with_limits,
}
use schemaform.Validation.Findings.Outcomes
use schemaform.Validation.Findings.Outcomes.{IsOutcome}
use schemaform.Resources.Fragments.{is_utf8, decode_uri_fragment}
use schemaform.Resources.Fragments.Encoding
use schemaform.Resources.Fragments.Encoding.{Encodes}
use schemaform.Limits.Source.{source_metrics}
use schemaform.Limits.Source.Compact.{IsEscaped, write, HasNumberTexts}
use schemaform.Limits.Source.Written
use schemaform.Limits.Compilation.{
  DataSchemaLimits, check_structure_metrics, check_schema_source, check_qualified_graph,
}
use schemaform.Limits.Compilation.Accepted
use schemaform.Examples.Pointers.{token_pointers as pointers}
use schemaform.Pointer.Walk.{is_prefix}
use schemaform.Pointer.Tokens.{render, parse_tokens}
use schemaform.Resources.Pointers.{pointer_contains, relative_pointer, invalid_graph}
use schemaform.Resources.Pointers.Tokenwise
use schemaform.Examples.Codes.{coded, coded_injective}

-- {"a":[null,true]}
abbrev sample : Value
sample = object (member (b'a' ∷ []) (array (cons null (cons (bool true) nil))) end)

abbrev limits : InputLimits
limits = record {
  bytes = 100;
  tokens = 20;
  depth = 1;
  nodes = 10;
  members = 10;
  collection_length = 5;
  scalar_bytes = 5;
}

abbrev zeros : Counts
zeros = record { nodes = 0; members = 0 }

walk-eq-visited_example :
    walk (check_node limits) (check_key limits) sample zeros
    ≡ some (visited (check_node limits) (check_key limits) sample 0 [] zeros)
walk-eq-visited_example =
    Recursion.walk-eq-visited (check_node limits) (check_key limits) sample zeros

few : node_count sample + member_total sample < 2 ^ 64
unfolding node_count member_total
few = omega arith

-- the sample is deeper than the limit
check_input_value-Fits_example :
    ((check_input_value sample limits ≡ some (ok tt)) × Fits limits sample)
    ⊎ ((e : InputLimitError) × (check_input_value sample limits ≡ some (err e))
        × ¬ Fits limits sample)
check_input_value-Fits_example =
    InputFits.check_input_value-Fits limits sample (omega (arith, few)) (omega (arith, few))

value_metrics-Measures_example :
    (m : ValueMetrics) × (value_metrics sample 5 ≡ some m)
    × (((height sample ≤ 5)
          × (m.nodes ≡ node_count sample)
          × (m.tokens ≡ node_count sample + member_total sample)
          × (m.depth ≡ height sample)
          × (m.members ≡ widest sample)
          × (m.scalar_bytes ≡ longest sample))
        ⊎ ((5 < height sample) × (5 < m.depth)))
value_metrics-Measures_example = Measures.value_metrics-Measures sample 5 few

-- 2.50e1
abbrev twenty_five : Text
twenty_five = b'2' ∷ b'.' ∷ b'5' ∷ b'0' ∷ b'e' ∷ b'1' ∷ []

abbrev bound_of_25 : ExactNonnegativeInteger
bound_of_25 = record { significant_digits = b'2' ∷ b'5' ∷ []; scale = pos 0 }

abbrev three : Values
three = cons null (cons null (cons null nil))

parse-is_valid_example :
    (valid : Bool) × (is_valid (record { bound = bound_of_25; comparison = minimum }) (array three)
      ≡ some valid)
    × ((valid ≡ true)
        ↔ Respects minimum
            (value_from 0 ((digits_of twenty_five).0 ++ (digits_of twenty_five).1) * 10 ^ 1)
            (size three * 10 ^ (length (digits_of twenty_five).1 + 0)))
unfolding parse_i64 parse size
parse-is_valid_example =
    Bounds.parse-is_valid parse_i64 twenty_five (pos 1) bound_of_25 minimum three
      (omega arith, omega arith, (omega arith, omega arith, (omega arith, omega arith, tt))) refl
      refl (omega arith)

abbrev finding : ℕ → ValidationFinding
finding c = record {
  code = c ∷ [];
  instance_location = [];
  keyword_location = record { resource = []; pointer = [] };
  parameters = null;
}

abbrev no_failure : ℕ → Bool
no_failure c = false

-- four errors, of which two findings are kept
abbrev errors : List ℕ
errors = 9 ∷ 7 ∷ 7 ∷ 8 ∷ []

validate_with_limits-IsOutcome_example :
    (o : Outcome ValidationFinding) × (validate_with_limits coded no_failure finding 2 errors
      ≡ some o)
    × IsOutcome (compare_findings coded) no_failure finding 2 errors o
validate_with_limits-IsOutcome_example =
    Outcomes.validate_with_limits-IsOutcome coded coded_injective no_failure finding 2 errors

-- a, /, and é in UTF-8
abbrev accented : Text
accented = b'a' ∷ b'/' ∷ 0xC3 ∷ 0xA9 ∷ []

-- a%2F%c3%A9
abbrev fragment : Text
fragment = b'a' ∷ b'%' ∷ b'2' ∷ b'F' ∷ b'%' ∷ b'c' ∷ b'3' ∷ b'%' ∷ b'A' ∷ b'9' ∷ []

decode_uri_fragment-Encodes_example :
    (decode_uri_fragment fragment ≡ some accented)
    ↔ (Encodes accented fragment × (is_utf8 accented ≡ true))
decode_uri_fragment-Encodes_example = Encoding.decode_uri_fragment-Encodes fragment accented

accented_read : decode_uri_fragment fragment ≡ some accented
unfolding decode_uri_fragment
accented_read = refl

-- A quotation mark and a backslash stand behind a backslash.
abbrev quoted : Text → Text
quoted [] = []
quoted (c ∷ s) = if c == b'"' || c == b'\\' then b'\\' ∷ c ∷ quoted s else c ∷ quoted s

plain-IsEscaped :
    (c : ℕ) (s : Text)
    → (c == b'"') ≡ false
    → (c == b'\\') ≡ false
    → IsEscaped s
    → IsEscaped (c ∷ s)
plain-IsEscaped c [] h h' k = (h', h)
plain-IsEscaped c (d ∷ s) h h' k = inr (h', h, k)

quoted_escaped : (s : Text) → IsEscaped (quoted s)
quoted_escaped [] = tt
quoted_escaped (c ∷ s) = elim (Bool-cases (c == b'"' || c == b'\\')) [
  | inl e ↦ rw e (inl (refl, quoted_escaped s))
  | inr e ↦
      let mark : (c == b'"') ≡ false = ground arith in
      let slash : (c == b'\\') ≡ false = ground arith in
      rw e (plain-IsEscaped c (quoted s) mark slash (quoted_escaped s))
]

-- {"a":[null,true]} has the tokens {, "a", [, null and true.
source_metrics-write_example :
    source_metrics (write quoted sample [])
    ≡ some (record {
      tokens = node_count sample + member_total sample;
      depth = height sample;
      nesting = 0;
    })
unfolding HasNumberTexts node_count member_total height
source_metrics-write_example =
    Written.source_metrics-write quoted quoted_escaped sample ((tt, (tt, tt)), tt) few (omega arith)

sample_scanned :
    source_metrics (write quoted sample []) ≡ some (record { tokens = 5; depth = 2; nesting = 0 })
unfolding source_metrics write
sample_scanned = refl

abbrev schema_limits : DataSchemaLimits
schema_limits = record {
  bytes = 100;
  tokens = 10;
  depth = 2;
  nodes = 10;
  members = 3;
  scalar_bytes = 10;
  resources = 2;
  references = 2;
  traversal = 4;
  definition_nodes = 1;
  controls = 1;
  uri_bytes = 10;
  pointer_bytes = 10;
  capability_findings = 1;
}

check_structure_metrics-Measures_example :
    (m : ValueMetrics) × (value_metrics sample 2 ≡ some m)
    × ((check_structure_metrics pointers m schema_limits ≡ ok tt) ↔ (
        (height sample ≤ 2)
        × (node_count sample ≤ 10)
        × (widest sample ≤ 3)
        × (longest sample ≤ 10)
        × (m.pointer_bytes ≤ 10)))
check_structure_metrics-Measures_example =
    Accepted.check_structure_metrics-Measures pointers sample schema_limits few

check_schema_source-write_example :
    (check_schema_source pointers (write quoted sample []) schema_limits ≡ some (ok tt)) ↔ (
      (length (write quoted sample []) ≤ 100)
      × (node_count sample + member_total sample ≤ 10)
      × (height sample ≤ 2))
unfolding HasNumberTexts height
check_schema_source-write_example =
    Accepted.check_schema_source-write pointers quoted quoted_escaped sample schema_limits
      ((tt, (tt, tt)), tt) few (omega arith)

check_qualified_graph-Within_example :
    (check_qualified_graph pointers 1 2 3 4 5 schema_limits ≡ ok tt)
    ↔ ((1 ≤ 2) × (2 ≤ 2) × (3 + 2 ≤ 4) × (4 ≤ 10) × (5 ≤ 10))
check_qualified_graph-Within_example =
    Accepted.check_qualified_graph-Within pointers schema_limits 1 2 3 4 5 (omega arith)

abbrev outer : List Text
outer = (b'a' ∷ b'/' ∷ []) ∷ []

abbrev inner : List Text
inner = (b'a' ∷ b'/' ∷ []) ∷ (b'~' ∷ []) ∷ []

pointer_contains-render_example :
    pointer_contains (render outer) (render inner) ≡ is_prefix outer inner
pointer_contains-render_example = Tokenwise.pointer_contains-render outer inner

relative_pointer-render_example :
    ((is_prefix outer inner ≡ true)
      × ((r : List Text) × (inner ≡ outer ++ r)
          × (relative_pointer parse_tokens (render outer) (render inner)
              ≡ ok_or (parse_tokens (render r)) invalid_graph)))
    ⊎ ((is_prefix outer inner ≡ false)
        × (relative_pointer parse_tokens (render outer) (render inner) ≡ err invalid_graph))
relative_pointer-render_example = Tokenwise.relative_pointer-render parse_tokens outer inner
