-- ===== src/Limits/Compilation.antt =====
-- crates/schemaform/src/limits.rs: the limits of a compilation, and the checks that read no more than
-- metrics: `check_schema_source`, `check_structure_metrics`, `check_graph_metrics`,
-- `check_compilation_outputs` and `check_qualified_graph`. The limits are those of the profile.
pub mod Accepted
use schemaform.Prelude.{
  ℕ, true, false, Option, none, some, List, [], ◌∷◌, length, ltb, if◌then◌else◌, and_then,
}
use schemaform.Prelude.Results.{Result, ok, err, panic, ◌>>=◌, ◌>>◌}
use schemaform.Prelude.Words.{saturating_add}
use schemaform.Json.{Text}
use schemaform.Pointer.{JsonPtr}
use schemaform.Limits.Metrics.{ValueMetrics}
use schemaform.Limits.Source.{Scan, source_metrics}

pub data CompilationLimitPhase : Type 0 where
  parse structure graph projection definition : CompilationLimitPhase

pub data CompilationLimitDimension : Type 0 where
  bytes tokens depth nodes members scalar_bytes : CompilationLimitDimension
  resources references traversal definition_nodes controls : CompilationLimitDimension
  uri_bytes pointer_bytes capability_findings : CompilationLimitDimension

pub record CompilationLimitError : Type 0 where
  pub phase : CompilationLimitPhase
  pub dimension : CompilationLimitDimension
  pub maximum : ℕ
  pub observed : ℕ
  pub pointer : Text

pub record DataSchemaLimits : Type 0 where
  pub bytes : ℕ
  pub tokens : ℕ
  pub depth : ℕ
  pub nodes : ℕ
  pub members : ℕ
  pub scalar_bytes : ℕ
  pub resources : ℕ
  pub references : ℕ
  pub traversal : ℕ
  pub definition_nodes : ℕ
  pub controls : ℕ
  pub uri_bytes : ℕ
  pub pointer_bytes : ℕ
  pub capability_findings : ℕ

-- a row of a table of checks: the dimension, its maximum, what was observed, and where
abbrev Row : Type 0
Row = CompilationLimitDimension × ℕ × ℕ × Text

abbrev pub structure_rows : ValueMetrics → DataSchemaLimits → List Row
structure_rows metrics limits =
    (depth, limits.depth, metrics.depth, metrics.depth_pointer)
    ∷ (nodes, limits.nodes, metrics.nodes, [])
    ∷ (members, limits.members, metrics.members, metrics.members_pointer)
    ∷ (scalar_bytes, limits.scalar_bytes, metrics.scalar_bytes, metrics.scalar_pointer)
    ∷ (pointer_bytes, limits.pointer_bytes, metrics.pointer_bytes, metrics.pointer)
    ∷ []

unfoldable pub graph_rows : ℕ → ℕ → ℕ → ℕ → ℕ → DataSchemaLimits → List Row
unfolding saturating_add
graph_rows resource_count reference_count traversed max_uri max_pointer limits =
    (resources, limits.resources, resource_count, [])
    ∷ (references, limits.references, reference_count, [])
    ∷ (traversal, limits.traversal, saturating_add traversed reference_count, [])
    ∷ (uri_bytes, limits.uri_bytes, max_uri, [])
    ∷ (pointer_bytes, limits.pointer_bytes, max_pointer, [])
    ∷ []

module _ (j : JsonPtr) where
  -- `Err(CompilationLimitError::new(..))`, which expects a JSON Pointer
  unfoldable pub limit_error : CompilationLimitPhase → Row → Result CompilationLimitError (Unit {0})
  limit_error phase (dimension, maximum, observed, pointer) = elim (j.parse pointer) [
    | none ↦ panic
    | some _ ↦ err (record {
      phase = phase;
      dimension = dimension;
      maximum = maximum;
      observed = observed;
      pointer = pointer;
    })
  ]

  -- The loop over a table: the first row that is exceeded is the error.
  unfoldable pub check_rows :
      CompilationLimitPhase → List Row → Result CompilationLimitError (Unit {0})
  unfolding limit_error
  check_rows phase [] = ok tt
  check_rows phase ((dimension, maximum, observed, pointer) ∷ rows) =
      let rest = check_rows phase rows in
      if ltb maximum observed
      then limit_error phase (dimension, maximum, observed, pointer)
      else rest

  unfoldable pub check_structure_metrics :
      ValueMetrics → DataSchemaLimits → Result CompilationLimitError (Unit {0})
  unfolding check_rows
  check_structure_metrics metrics limits = check_rows structure (structure_rows metrics limits)

  unfoldable check_graph_metrics :
      ℕ → ℕ → ℕ → ℕ → DataSchemaLimits → Result CompilationLimitError (Unit {0})
  unfolding check_rows
  check_graph_metrics resource_count reference_count traversed max_uri limits = check_rows graph (
      (resources, limits.resources, resource_count, [])
      ∷ (references, limits.references, reference_count, [])
      ∷ (traversal, limits.traversal, traversed, [])
      ∷ (uri_bytes, limits.uri_bytes, max_uri, [])
      ∷ [])

  unfoldable check_compilation_outputs :
      ℕ → ℕ → ℕ → DataSchemaLimits → Result CompilationLimitError (Unit {0})
  unfolding check_rows
  check_compilation_outputs nodes_out controls_out findings_out limits = check_rows definition (
      (definition_nodes, limits.definition_nodes, nodes_out, [])
      ∷ (controls, limits.controls, controls_out, [])
      ∷ (capability_findings, limits.capability_findings, findings_out, [])
      ∷ [])

  unfoldable pub check_qualified_graph :
      ℕ → ℕ → ℕ → ℕ → ℕ → DataSchemaLimits → Result CompilationLimitError (Unit {0})
  unfolding check_rows graph_rows
  check_qualified_graph resource_count reference_count traversed max_uri max_pointer limits =
      check_rows graph
        (graph_rows resource_count reference_count traversed max_uri max_pointer limits)

  abbrev check_scan : DataSchemaLimits → Scan → Result CompilationLimitError (Unit {0})
  check_scan limits scan = do
    check_rows parse ((tokens, limits.tokens, scan.tokens, []) ∷ [])
    check_rows structure ((depth, limits.depth, scan.depth, []) ∷ [])

  unfoldable pub check_schema_source :
      Text → DataSchemaLimits → Option (Result CompilationLimitError (Unit {0}))
  unfolding check_rows limit_error source_metrics
  check_schema_source source limits =
      let scanned =
        and_then (source_metrics source) λ (scan : Scan). some (check_scan limits scan) in
      if ltb limits.bytes (length source)
      then some (limit_error parse (bytes, limits.bytes, length source, []))
      else scanned
