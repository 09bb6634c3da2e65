-- ===== src/Limits/Metrics/Measures.antt =====
-- The metrics of a value are its sizes.
use mathlib.Core.Option
use schemaform.Prelude.{
  ℕ, ◌+◌, ◌^◌, ◌≤◌, ◌<◌, ◌≡◌, refl, ◌∙◌, ◌⊎◌, inl, inr, true, false, some, [], length, arith, ap,
}
use schemaform.Json.{
  Text, Value, Values, Members, null, bool, number, string, array, object, nil, cons, end, member,
  member_count,
}
use schemaform.Json.Equality.{size}
use schemaform.Limits.Sizes.{
  node_count, values_nodes, members_nodes, member_total, values_total, members_total, height,
  values_height, members_height, widest, values_widest, members_widest, longest, values_longest,
  members_longest,
}
use schemaform.Limits.Walk.{append_token, item_token}
use schemaform.Limits.Walk.Recursion.{visited, visited_values, visited_members, walk-eq-visited}
use schemaform.Limits.Metrics.{
  ValueMetrics, no_metrics, record_scalar_metric, measure_node, measure_key, measured,
  value_metrics,
}
use schemaform.Limits.Metrics.Grown.{
  scalar-Grown, Outcome, node-Outcome, collection-Grown, children-Grown, key-Grown,
  scalar_node-Grown, none-Grown, max-le, le-max,
}

module _ (limit : ℕ) where
  abbrev Room : ValueMetrics → ℕ → ℕ → Type 0
  Room m nodes others =
      (m.nodes + nodes < 2 ^ 64) × (m.tokens + nodes + others < 2 ^ 64) × (m.depth ≤ limit)

  mutual
    unfolding visited measure_key node_count member_total height widest longest

    value-Outcome :
        (v : Value) (level : ℕ) (pointer : Text) (m : ValueMetrics)
        → Room m (node_count v) (member_total v)
        → Outcome limit m
            (visited (measure_node limit) measure_key v level pointer m)
            (node_count v)
            (member_total v)
            (level + height v)
            (widest v)
            (longest v)
    value-Outcome null level pointer m h =
        elim (node-Outcome limit null level pointer m (omega arith) (omega arith) h.2) [
          | inl (m', e, d, g) ↦ inl (m', e, omega arith, scalar_node-Grown m m' level 4 g)
          | inr (m', e, d, o) ↦ inr (m', e, omega arith, o)
        ]
    value-Outcome (bool true) level pointer m h =
        elim (node-Outcome limit (bool true) level pointer m (omega arith) (omega arith) h.2) [
          | inl (m', e, d, g) ↦ inl (m', e, omega arith, scalar_node-Grown m m' level 4 g)
          | inr (m', e, d, o) ↦ inr (m', e, omega arith, o)
        ]
    value-Outcome (bool false) level pointer m h =
        elim (node-Outcome limit (bool false) level pointer m (omega arith) (omega arith) h.2) [
          | inl (m', e, d, g) ↦ inl (m', e, omega arith, scalar_node-Grown m m' level 5 g)
          | inr (m', e, d, o) ↦ inr (m', e, omega arith, o)
        ]
    value-Outcome (number n) level pointer m h =
        elim (node-Outcome limit (number n) level pointer m (omega arith) (omega arith) h.2) [
          | inl (m', e, d, g) ↦ inl (m', e, omega arith, scalar_node-Grown m m' level (length n) g)
          | inr (m', e, d, o) ↦ inr (m', e, omega arith, o)
        ]
    value-Outcome (string s) level pointer m h =
        elim (node-Outcome limit (string s) level pointer m (omega arith) (omega arith) h.2) [
          | inl (m', e, d, g) ↦ inl (m', e, omega arith, scalar_node-Grown m m' level (length s) g)
          | inr (m', e, d, o) ↦ inr (m', e, omega arith, o)
        ]
    value-Outcome (array vs) level pointer m h =
        elim (node-Outcome limit (array vs) level pointer m (omega arith) (omega arith) h.2) [
          | inr (m', e, d, o) ↦ inr (m', rw e refl, omega arith, o)
          | inl (m', e, d, g) ↦
              elim (values-Outcome vs 0 level pointer m'
                (omega (arith, max-le m.depth level limit h.2 d))
                (omega (arith, le-max m.depth level))) [
                  | inr (m'', e', d', o) ↦ inr (m'', rw (e, e') refl, d', o)
                  | inl (m'', e', d', g') ↦ inl (
                    m'',
                    rw (e, e') refl,
                    d',
                    collection-Grown m m' m'' 0 level (size vs) (values_nodes vs) (values_total vs)
                        (values_total vs) (values_height vs) (values_widest vs) (values_longest vs)
                        g g' (omega arith),
                  )
                ]
        ]
    value-Outcome (object ms) level pointer m h =
        elim (node-Outcome limit (object ms) level pointer m (omega arith) (omega arith) h.2) [
          | inr (m', e, d, o) ↦ inr (m', rw e refl, omega arith, o)
          | inl (m', e, d, g) ↦
              elim (members-Outcome ms level pointer m'
                (omega (arith, max-le m.depth level limit h.2 d))
                (omega (arith, le-max m.depth level))) [
                  | inr (m'', e', d', o) ↦ inr (m'', rw (e, e') refl, d', o)
                  | inl (m'', e', d', g') ↦ inl (
                    m'',
                    rw (e, e') refl,
                    d',
                    collection-Grown m m' m'' (member_count ms) level (member_count ms)
                        (members_nodes ms) (members_total ms) (member_count ms + members_total ms)
                        (members_height ms) (members_widest ms) (members_longest ms) g g' refl,
                  )
                ]
        ]

    values-Outcome :
        (vs : Values) (index level : ℕ) (pointer : Text) (m : ValueMetrics)
        → Room m (values_nodes vs) (values_total vs)
        → level ≤ m.depth
        → Outcome limit m
            (visited_values (measure_node limit) measure_key vs index level pointer m)
            (values_nodes vs)
            (values_total vs)
            (level + values_height vs)
            (values_widest vs)
            (values_longest vs)
    values-Outcome nil index level pointer m h deep =
        inl (m, refl, omega arith, none-Grown m level deep)
    values-Outcome (cons v vs) index level pointer m h deep =
        elim (value-Outcome v (level + 1) (item_token pointer index) m (omega arith)) [
          | inr (m', e, d, o) ↦
              inr (m', rw e refl, omega (arith, le-max (height v + 1) (values_height vs)), o)
          | inl (m', e, d, g) ↦
              elim (values-Outcome vs (index + 1) level pointer m'
                (omega (arith, max-le m.depth (level + 1 + height v) limit h.2 d))
                (omega (arith, le-max m.depth (level + 1 + height v)))) [
                  | inr (m'', e', d', o) ↦ inr (
                    m'',
                    rw (e, e') refl,
                    omega (arith, le-max (height v + 1) (values_height vs)),
                    o,
                  )
                  | inl (m'', e', d', g') ↦ inl (
                    m'',
                    rw (e, e') refl,
                    ground arith,
                    children-Grown m m' m'' level (node_count v) (member_total v) (height v)
                        (widest v) (longest v) (values_nodes vs) (values_total vs)
                        (values_height vs) (values_widest vs) (values_longest vs) g g',
                  )
                ]
        ]

    members-Outcome :
        (ms : Members) (level : ℕ) (pointer : Text) (m : ValueMetrics)
        → Room m (members_nodes ms) (members_total ms)
        → level ≤ m.depth
        → Outcome limit m
            (visited_members (measure_node limit) measure_key ms level pointer m)
            (members_nodes ms)
            (members_total ms)
            (level + members_height ms)
            (members_widest ms)
            (members_longest ms)
    members-Outcome end level pointer m h deep = inl (m, refl, omega arith, none-Grown m level deep)
    members-Outcome (member key v ms) level pointer m h deep =
        let keyed = record_scalar_metric m (length key) (append_token pointer key) in
        let grown = scalar-Grown m (length key) (append_token pointer key) in
        let near : keyed.depth ≤ limit = ground arith in
        elim (value-Outcome v (level + 1) (append_token pointer key) keyed (omega arith)) [
          | inr (m', e, d, o) ↦
              inr (m', rw e refl, omega (arith, le-max (height v + 1) (members_height ms)), o)
          | inl (m', e, d, g) ↦
              elim (members-Outcome ms level pointer m'
                (omega (arith, max-le keyed.depth (level + 1 + height v) limit near d))
                (omega (arith, le-max keyed.depth (level + 1 + height v)))) [
                  | inr (m'', e', d', o) ↦ inr (
                    m'',
                    rw (e, e') refl,
                    omega (arith, le-max (height v + 1) (members_height ms)),
                    o,
                  )
                  | inl (m'', e', d', g') ↦ inl (
                    m'',
                    rw (e, e') refl,
                    ground arith,
                    key-Grown m keyed m'' (length key) _ _ _ _ _ grown (
                        children-Grown keyed m' m'' level (node_count v) (member_total v) (height v)
                          (widest v) (longest v) (members_nodes ms) (members_total ms)
                          (members_height ms) (members_widest ms) (members_longest ms) g g'),
                  )
                ]
        ]

-- Where a value has fewer than 2 ^ 64 nodes and members together: one that is no deeper than the
-- limit has as its metrics the count of its nodes, of its nodes and members, its height, the length
-- of its longest collection and the bytes of its longest scalar or key; the metrics of one that is
-- deeper have a depth above the limit.
pub value_metrics-Measures :
    (v : Value) (limit : ℕ)
    → node_count v + member_total v < 2 ^ 64
    → (m : ValueMetrics) × (value_metrics v limit ≡ some m)
      × (((height v ≤ limit)
            × (m.nodes ≡ node_count v)
            × (m.tokens ≡ node_count v + member_total v)
            × (m.depth ≡ height v)
            × (m.members ≡ widest v)
            × (m.scalar_bytes ≡ longest v))
          ⊎ ((limit < height v) × (limit < m.depth)))
unfolding value_metrics
value_metrics-Measures v limit few =
    let same =
      ap (Option.map measured) (walk-eq-visited (measure_node limit) measure_key v no_metrics) in
    elim (value-Outcome limit v 0 [] no_metrics (omega arith)) [
      | inl (m, e, d, g) ↦ (
        m,
        same ∙ ap (λ r. some (measured r)) e,
        inl (omega arith, omega arith, omega arith, ground arith, ground arith, ground arith),
      )
      | inr (m, e, d, o) ↦ (m, same ∙ ap (λ r. some (measured r)) e, inr (omega arith, o))
    ]
