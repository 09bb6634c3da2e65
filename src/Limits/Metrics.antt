-- ===== src/Limits/Metrics.antt =====
-- crates/schemaform/src/limits.rs: `value_metrics`.
pub mod Grown
pub mod Measures
use mathlib.Core.Option
use schemaform.Prelude.{ℕ, ◌+◌, true, false, Option, [], length, ltb, if◌then◌else◌}
use schemaform.Prelude.Results.{Result, ok, err, panic}
use schemaform.Prelude.Words.{saturating_add}
use schemaform.Json.{Text, Value, null, bool, number, string, array, object, member_count}
use schemaform.Json.Equality.{size}
use schemaform.Limits.Walk.{walk}

pub record ValueMetrics : Type 0 where
  pub tokens : ℕ
  pub depth : ℕ
  pub depth_pointer : Text
  pub nodes : ℕ
  pub members : ℕ
  pub members_pointer : Text
  pub scalar_bytes : ℕ
  pub scalar_pointer : Text
  pub pointer_bytes : ℕ
  pub pointer : Text

-- `ValueMetrics::default()`
abbrev pub no_metrics : ValueMetrics
no_metrics = record {
  tokens = 0;
  depth = 0;
  depth_pointer = [];
  nodes = 0;
  members = 0;
  members_pointer = [];
  scalar_bytes = 0;
  scalar_pointer = [];
  pointer_bytes = 0;
  pointer = [];
}

unfoldable pub record_scalar_metric : ValueMetrics → ℕ → Text → ValueMetrics
record_scalar_metric metrics width pointer =
    if ltb metrics.scalar_bytes width
    then record metrics { scalar_bytes = width; scalar_pointer = pointer }
    else metrics

unfoldable pub record_members : ValueMetrics → ℕ → Text → ValueMetrics
record_members metrics count pointer =
    if ltb metrics.members count
    then record metrics { members = count; members_pointer = pointer }
    else metrics

unfoldable pub record_pointer : ValueMetrics → Text → ValueMetrics
record_pointer metrics pointer =
    if ltb metrics.pointer_bytes (length pointer)
    then record metrics { pointer_bytes = length pointer; pointer = pointer }
    else metrics

-- The match on the value.
unfoldable pub record_value : Value → Text → ValueMetrics → ValueMetrics
unfolding record_scalar_metric record_members saturating_add size member_count
record_value null pointer metrics = record_scalar_metric metrics 4 pointer
record_value (bool true) pointer metrics = record_scalar_metric metrics 4 pointer
record_value (bool false) pointer metrics = record_scalar_metric metrics 5 pointer
record_value (number n) pointer metrics = record_scalar_metric metrics (length n) pointer
record_value (string s) pointer metrics = record_scalar_metric metrics (length s) pointer
record_value (array vs) pointer metrics = record_members metrics (size vs) pointer
record_value (object ms) pointer metrics =
    record_members (record metrics { tokens = saturating_add metrics.tokens (member_count ms) })
      (member_count ms) pointer

-- One round at a value; `err` is the `break` at a value that is too deep.
unfoldable pub measure_node : ℕ → Value → ℕ → Text → ValueMetrics → Result ValueMetrics ValueMetrics
unfolding record_value record_pointer saturating_add
measure_node depth_limit value level pointer metrics =
    let counted : ValueMetrics = record metrics {
      nodes = saturating_add metrics.nodes 1;
      tokens = saturating_add metrics.tokens 1;
    } in
    let deepened : ValueMetrics = record counted { depth = level; depth_pointer = pointer } in
    if ltb metrics.depth level
    then if ltb depth_limit level
      then err deepened
      else ok (record_value value pointer (record_pointer deepened pointer))
    else ok (record_value value pointer (record_pointer counted pointer))

unfoldable pub measure_key : Text → Text → ValueMetrics → Result ValueMetrics ValueMetrics
unfolding record_scalar_metric
measure_key key key_pointer metrics = ok (record_scalar_metric metrics (length key) key_pointer)

-- the metrics at the end of the loop, or at its `break`
abbrev pub measured : Result ValueMetrics ValueMetrics → ValueMetrics
measured (ok metrics) = metrics
measured (err metrics) = metrics
measured panic = no_metrics

unfoldable pub value_metrics : Value → ℕ → Option ValueMetrics
unfolding measure_node measure_key walk
value_metrics value depth_limit =
    Option.map measured (walk (measure_node depth_limit) measure_key value no_metrics)
