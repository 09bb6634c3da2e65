-- ===== src/Limits/Compilation/Accepted.antt =====
-- Which schemas the checks of a compilation accept.
use mathlib.Core.Option
use schemaform.Prelude.{
  ℕ, ◌+◌, ◌^◌, ◌≤◌, ◌<◌, ◌≡◌, ◌↔◌, refl, ap, inl, inr, some, List, [], ◌∷◌, length, ltb, arith,
  Bool-cases, Option-cases,
}
use schemaform.Prelude.Results.{Result, ok, err, panic, ◌>>◌}
use schemaform.Prelude.Words.{saturating_add_exact}
use schemaform.Json.{Text, Value}
use schemaform.Pointer.{JsonPtr}
use schemaform.Limits.Sizes.{node_count, member_total, height, widest, longest}
use schemaform.Limits.Metrics.{ValueMetrics, value_metrics}
use schemaform.Limits.Metrics.Measures.{value_metrics-Measures}
use schemaform.Limits.Source.{Scan}
use schemaform.Limits.Source.Compact.{IsEscaped, write, HasNumberTexts}
use schemaform.Limits.Source.Written.{source_metrics-write}
use schemaform.Limits.Compilation.{
  CompilationLimitPhase, CompilationLimitDimension, CompilationLimitError, DataSchemaLimits, Row,
  structure_rows, graph_rows, check_qualified_graph, limit_error, check_rows,
  check_structure_metrics, check_scan, check_schema_source,
}

module _ (j : JsonPtr) where
  open j use {root, parse, root_lem, parse-as_str}

  -- Each row is within its maximum.
  abbrev Within : List Row → Type 0
  Within [] = Unit {0}
  Within ((dimension, maximum, observed, pointer) ∷ rows) = (observed ≤ maximum) × Within rows

  limit_error-not-ok :
      (phase : CompilationLimitPhase) (row : Row) → ¬ (limit_error j phase row ≡ ok tt)
  unfolding limit_error
  limit_error-not-ok phase (dimension, maximum, observed, pointer) h =
      elim (Option-cases (parse pointer)) [
        | inl e ↦ ground (arith, e)
        | inr (p, e) ↦ ground (arith, e)
      ]

  check_rows-Within :
      (phase : CompilationLimitPhase) (rows : List Row)
      → (check_rows j phase rows ≡ ok tt) ↔ Within rows
  unfolding check_rows
  check_rows-Within phase [] = (λ h. tt, λ h. refl)
  check_rows-Within phase ((dimension, maximum, observed, pointer) ∷ rows) =
      let (to, from) = check_rows-Within phase rows in
      elim (Bool-cases (ltb maximum observed)) [
        | inl over ↦ (
          rw over
              (λ h. absurd (limit_error-not-ok phase (dimension, maximum, observed, pointer) h)),
          λ h. absurd (ground (arith, h.0)),
        )
        | inr under ↦ rw under ((λ h. (ground arith, to h)), (λ h. from h.1))
      ]

  -- Where a value has fewer than 2 ^ 64 nodes and members together, the check of the structure
  -- accepts what is measured of it exactly if its height, its nodes, its longest collection, its longest
  -- scalar or key, and the longest pointer measured, are within the limits.
  pub check_structure_metrics-Measures :
      (v : Value) (limits : DataSchemaLimits)
      → node_count v + member_total v < 2 ^ 64
      → (m : ValueMetrics) × (value_metrics v limits.depth ≡ some m)
        × ((check_structure_metrics j m limits ≡ ok tt) ↔ (
            (height v ≤ limits.depth)
            × (node_count v ≤ limits.nodes)
            × (widest v ≤ limits.members)
            × (longest v ≤ limits.scalar_bytes)
            × (m.pointer_bytes ≤ limits.pointer_bytes)))
  unfolding check_structure_metrics
  check_structure_metrics-Measures v limits few =
      let (m, measured, how) = value_metrics-Measures v limits.depth few in
      let (to, from) =
        check_rows-Within CompilationLimitPhase.structure (structure_rows m limits) in
      (
        m,
        measured,
        elim how [
          | inl (low, e, e', e'', e''', e'''') ↦ (
            λ h.
                let all = to h in
                (
                  low,
                  omega (arith, all.1.0),
                  omega (arith, all.1.1.0),
                  omega (arith, all.1.1.1.0),
                  all.1.1.1.1.0,
                ),
            λ h. from (
              omega (arith, h.0),
              (omega (arith, h.1), (omega (arith, h.2), (omega (arith, h.3), (h.4, tt)))),
            ),
          )
          | inr (high, over) ↦ (
            λ h. let all = to h in absurd (omega (arith, all.0)),
            λ h. absurd (omega (arith, h.0)),
          )
        ],
      )

  sequence-ok :
      (r r' : Result CompilationLimitError (Unit {0}))
      → ((r >> r') ≡ ok tt) ↔ ((r ≡ ok tt) × (r' ≡ ok tt))
  sequence-ok (ok u) r' = (λ h. (refl, h), λ h. h.1)
  sequence-ok (err e) r' = (λ h. absurd (ground arith), λ h. absurd (ground (arith, h.0)))
  sequence-ok panic r' = (λ h. absurd (ground arith), λ h. absurd (ground (arith, h.0)))

  check_scan-ok :
      (limits : DataSchemaLimits) (scan : Scan)
      → (check_scan j limits scan ≡ ok tt)
        ↔ ((scan.tokens ≤ limits.tokens) × (scan.depth ≤ limits.depth))
  check_scan-ok limits scan =
      let tokens_row : Row = (CompilationLimitDimension.tokens, limits.tokens, scan.tokens, []) in
      let depth_row : Row = (CompilationLimitDimension.depth, limits.depth, scan.depth, []) in
      let (to, from) = check_rows-Within CompilationLimitPhase.parse (tokens_row ∷ []) in
      let (to', from') = check_rows-Within CompilationLimitPhase.structure (depth_row ∷ []) in
      let (apart, together) =
        sequence-ok (check_rows j CompilationLimitPhase.parse (tokens_row ∷ []))
          (check_rows j CompilationLimitPhase.structure (depth_row ∷ [])) in
      (
        λ h. let (e, e') = apart h in ((to e).0, (to' e').0),
        λ h. together (from (h.0, tt), from' (h.1, tt)),
      )

  -- Where strings are escaped and numbers are written as JSON writes them: the check of a schema's
  -- source accepts the compact text of a value, of fewer than 2 ^ 64 tokens and levels, exactly if
  -- its bytes, its tokens, which are the nodes and the keys of the value, and the height of the
  -- value are within the limits.
  pub check_schema_source-write :
      (quoted : Text → Text) (quoted_escaped : (s : Text) → IsEscaped (quoted s)) (v : Value)
      (limits : DataSchemaLimits)
      → HasNumberTexts v
      → node_count v + member_total v < 2 ^ 64
      → height v + 1 < 2 ^ 64
      → (check_schema_source j (write quoted v []) limits ≡ some (ok tt)) ↔ (
          (length (write quoted v []) ≤ limits.bytes)
          × (node_count v + member_total v ≤ limits.tokens)
          × (height v ≤ limits.depth))
  unfolding check_schema_source check_rows
  check_schema_source-write quoted quoted_escaped v limits texts few low =
      let scanned = source_metrics-write quoted quoted_escaped v texts few low in
      let source = write quoted v [] in
      let not_ok : (phase : CompilationLimitPhase) (row : Row)
          → ¬ (some (limit_error j phase row) ≡ some (ok tt)) =
        λ phase row h. limit_error-not-ok phase row (Option.some-injective _ _ h) in
      elim (Bool-cases (ltb limits.bytes (length source))) [
        | inl long ↦ rw long (λ h. absurd (not_ok _ _ h), λ h. absurd (ground (arith, h.0)))
        | inr short ↦
            let (to, from) =
              check_scan-ok limits (record {
                tokens = node_count v + member_total v;
                depth = height v;
                nesting = 0;
              }) in
            rw (short, scanned)
              (
                λ h. let fits = to (Option.some-injective _ _ h) in (ground arith, fits.0, fits.1),
                λ h. ap some (from (h.1, h.2)),
              )
      ]

  -- Where its traversals and references do not overflow together, a qualified graph is accepted exactly
  -- if its resources, its references, both its traversals and references, its longest URI and its
  -- longest pointer are within the limits.
  pub check_qualified_graph-Within :
      (limits : DataSchemaLimits) (resources references traversed uri pointer : ℕ)
      → traversed + references < 2 ^ 64
      → (check_qualified_graph j resources references traversed uri pointer limits ≡ ok tt) ↔ (
          (resources ≤ limits.resources)
          × (references ≤ limits.references)
          × (traversed + references ≤ limits.traversal)
          × (uri ≤ limits.uri_bytes)
          × (pointer ≤ limits.pointer_bytes))
  unfolding check_qualified_graph
  check_qualified_graph-Within limits resources references traversed uri pointer small =
      let exact = saturating_add_exact traversed references small in
      let (to, from) =
        check_rows-Within CompilationLimitPhase.graph
          (graph_rows resources references traversed uri pointer limits) in
      (
        λ h.
            let all = to h in
            (all.0, all.1.0, omega (arith, exact, all.1.1.0), all.1.1.1.0, all.1.1.1.1.0),
        λ h. from (h.0, (h.1, (omega (arith, exact, h.2), (h.3, (h.4, tt))))),
      )
