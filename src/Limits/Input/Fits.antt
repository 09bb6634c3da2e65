-- ===== src/Limits/Input/Fits.antt =====
-- Which values are within the limits, and that the check accepts these and no others.
use mathlib.Core.Option
use schemaform.Prelude.{
  ℕ, ◌+◌, ◌^◌, ◌≤◌, ◌<◌, ◌≡◌, refl, ◌∙◌, ◌⊎◌, inl, inr, true, false, some, [], length, arith, ltb,
  ap, Bool-cases,
}
use schemaform.Prelude.Results.{Result, ok, err}
use schemaform.Prelude.Words.{saturating_add_exact}
use schemaform.Json.{
  Text, Value, Values, Members, null, bool, number, string, array, object, nil, cons, end, member,
  member_count,
}
use schemaform.Json.Equality.{size}
use schemaform.Limits.Types.{
  InputDimension, InputLimits, InputLimitError, within, depth, nodes, members, collection_length,
  scalar_bytes,
}
use schemaform.Limits.Input.{
  Counts, scalar, open_value, check_node, check_key, verdict, check_input_value,
}
use schemaform.Limits.Sizes.{
  node_count, values_nodes, members_nodes, member_total, values_total, members_total,
}
use schemaform.Limits.Walk.{append_token, item_token}
use schemaform.Limits.Walk.Recursion.{visited, visited_values, visited_members, walk-eq-visited}

module _ (limits : InputLimits) where
  -- No value is too deep, no collection too long, and no scalar and no key too wide.
  mutual
    unfolding size member_count

    pub IsWithin : ℕ → Value → Type 0
    IsWithin level null = (level ≤ limits.depth) × (4 ≤ limits.scalar_bytes)
    IsWithin level (bool true) = (level ≤ limits.depth) × (4 ≤ limits.scalar_bytes)
    IsWithin level (bool false) = (level ≤ limits.depth) × (5 ≤ limits.scalar_bytes)
    IsWithin level (number n) = (level ≤ limits.depth) × (length n ≤ limits.scalar_bytes)
    IsWithin level (string s) = (level ≤ limits.depth) × (length s ≤ limits.scalar_bytes)
    IsWithin level (array vs) =
        (level ≤ limits.depth) × (size vs ≤ limits.collection_length) × AreWithin (level + 1) vs
    IsWithin level (object ms) =
        (level ≤ limits.depth)
        × (member_count ms ≤ limits.collection_length)
        × MembersWithin (level + 1) ms

    pub AreWithin : ℕ → Values → Type 0
    AreWithin level nil = Unit {0}
    AreWithin level (cons v vs) = IsWithin level v × AreWithin level vs

    pub MembersWithin : ℕ → Members → Type 0
    MembersWithin level end = Unit {0}
    MembersWithin level (member k v ms) =
        (length k ≤ limits.scalar_bytes) × IsWithin level v × MembersWithin level ms

  abbrev pub Fits : Value → Type 0
  Fits v = IsWithin 0 v × (node_count v ≤ limits.nodes) × (member_total v ≤ limits.members)

  within_decides :
      (d : InputDimension) (maximum observed : ℕ) (pointer : Text)
      → ((within d maximum observed pointer ≡ ok tt) × (observed ≤ maximum))
        ⊎ ((e : InputLimitError) × (within d maximum observed pointer ≡ err e)
            × (maximum < observed))
  within_decides d maximum observed pointer = elim (Bool-cases (ltb maximum observed)) [
    | inl over ↦ inr (
      record { dimension = d; maximum = maximum; observed = observed; pointer = pointer },
      rw over refl,
      ground arith,
    )
    | inr under ↦ inl (rw under refl, ground arith)
  ]

  -- what a value adds to the count of members by itself
  abbrev own_members : Value → ℕ
  own_members (object ms) = member_count ms
  own_members _ = 0

  abbrev Width : Value → ℕ → Type 0
  Width null total = 4 ≤ limits.scalar_bytes
  Width (bool true) total = 4 ≤ limits.scalar_bytes
  Width (bool false) total = 5 ≤ limits.scalar_bytes
  Width (number n) total = length n ≤ limits.scalar_bytes
  Width (string s) total = length s ≤ limits.scalar_bytes
  Width (array vs) total = size vs ≤ limits.collection_length
  Width (object ms) total = (total ≤ limits.members) × (member_count ms ≤ limits.collection_length)

  abbrev Decides : {A : Type 0} → Result InputLimitError A → A → Type 0 → Type 0
  Decides r a P = ((r ≡ ok a) × P) ⊎ ((e : InputLimitError) × (r ≡ err e) × ¬ P)

  abbrev grown : Counts → ℕ → ℕ → Counts
  grown counts n m = record { nodes = counts.nodes + n; members = counts.members + m }

  scalar_decides :
      (width : ℕ) (pointer : Text) (counts : Counts)
      → Decides
          (scalar limits width pointer counts)
          (grown counts 0 0)
          (width ≤ limits.scalar_bytes)
  scalar_decides width pointer counts =
      elim (within_decides scalar_bytes limits.scalar_bytes width pointer) [
        | inl (e, h) ↦ inl (rw e (ground arith), h)
        | inr (x, e, h) ↦ inr (x, rw e refl, λ k. omega arith)
      ]

  open_decides :
      (v : Value) (pointer : Text) (counts : Counts)
      → counts.members + own_members v < 2 ^ 64
      → Decides
          (open_value limits v pointer counts)
          (grown counts 0 (own_members v))
          (Width v (counts.members + own_members v))
  unfolding open_value
  open_decides null pointer counts h = scalar_decides 4 pointer counts
  open_decides (bool true) pointer counts h = scalar_decides 4 pointer counts
  open_decides (bool false) pointer counts h = scalar_decides 5 pointer counts
  open_decides (number n) pointer counts h = scalar_decides (length n) pointer counts
  open_decides (string s) pointer counts h = scalar_decides (length s) pointer counts
  open_decides (array vs) pointer counts h =
      elim (within_decides collection_length limits.collection_length (size vs) pointer) [
        | inl (e, h) ↦ inl (rw e (ground arith), h)
        | inr (x, e, h) ↦ inr (x, rw e refl, λ k. omega arith)
      ]
  open_decides (object ms) pointer counts h =
      let total = counts.members + member_count ms in
      let exact = saturating_add_exact counts.members (member_count ms) h in
      elim (within_decides members limits.members total pointer) [
        | inr (x, e, over) ↦ inr (x, rw (exact, e) refl, λ k. omega arith)
        | inl (e, under) ↦
            elim (within_decides collection_length limits.collection_length (member_count ms)
              pointer) [
                | inl (e', h') ↦ inl (rw (exact, e, e') (ground arith), (under, h'))
                | inr (x, e', over) ↦ inr (x, rw (exact, e, e') refl, λ k. omega arith)
              ]
      ]

  abbrev Locally : Value → ℕ → Counts → Type 0
  Locally v level counts =
      (level ≤ limits.depth)
      × (counts.nodes + 1 ≤ limits.nodes)
      × Width v (counts.members + own_members v)

  node_decides :
      (v : Value) (level : ℕ) (pointer : Text) (counts : Counts)
      → counts.nodes + 1 < 2 ^ 64
      → counts.members + own_members v < 2 ^ 64
      → Decides
          (check_node limits v level pointer counts)
          (grown counts 1 (own_members v))
          (Locally v level counts)
  unfolding check_node
  node_decides v level pointer counts h h' =
      let exact = saturating_add_exact counts.nodes 1 h in
      elim (within_decides depth limits.depth level pointer) [
        | inr (x, e, over) ↦ inr (x, rw e refl, λ k. omega arith)
        | inl (e, under) ↦ elim (within_decides nodes limits.nodes (counts.nodes + 1) pointer) [
          | inr (x, e', over) ↦ inr (x, rw (exact, e, e') refl, λ k. omega arith)
          | inl (e', under') ↦
              elim (open_decides v pointer (record counts { nodes = counts.nodes + 1 }) h') [
                | inl (e'', w) ↦ inl (rw (exact, e, e', e'') (ground arith), (under, under', w))
                | inr (x, e'', w) ↦ inr (x, rw (exact, e, e', e'') refl, λ k. w k.2)
              ]
        ]
      ]

  abbrev FitsAfter : Value → ℕ → Counts → Type 0
  FitsAfter v level counts =
      IsWithin level v
      × (counts.nodes + node_count v ≤ limits.nodes)
      × (counts.members + member_total v ≤ limits.members)

  abbrev Under : Counts → Type 0
  Under counts = (counts.nodes ≤ limits.nodes) × (counts.members ≤ limits.members)

  abbrev Small : Counts → ℕ → ℕ → Type 0
  Small counts n m = (counts.nodes + n < 2 ^ 64) × (counts.members + m < 2 ^ 64)

  mutual
    unfolding visited check_key node_count member_total IsWithin

    value_decides :
        (v : Value) (level : ℕ) (pointer : Text) (counts : Counts)
        → Small counts (node_count v) (member_total v)
        → Under counts
        → Decides
            (visited (check_node limits) (check_key limits) v level pointer counts)
            (grown counts (node_count v) (member_total v))
            (FitsAfter v level counts)
    value_decides null level pointer counts h u =
        elim (node_decides null level pointer counts (omega arith) (omega arith)) [
          | inl (e, l) ↦ inl (rw e refl, ((l.0, l.2), l.1, omega arith))
          | inr (x, e, l) ↦ inr (x, rw e refl, λ k. l (k.0.0, k.1, k.0.1))
        ]
    value_decides (bool true) level pointer counts h u =
        elim (node_decides (bool true) level pointer counts (omega arith) (omega arith)) [
          | inl (e, l) ↦ inl (rw e refl, ((l.0, l.2), l.1, omega arith))
          | inr (x, e, l) ↦ inr (x, rw e refl, λ k. l (k.0.0, k.1, k.0.1))
        ]
    value_decides (bool false) level pointer counts h u =
        elim (node_decides (bool false) level pointer counts (omega arith) (omega arith)) [
          | inl (e, l) ↦ inl (rw e refl, ((l.0, l.2), l.1, omega arith))
          | inr (x, e, l) ↦ inr (x, rw e refl, λ k. l (k.0.0, k.1, k.0.1))
        ]
    value_decides (number n) level pointer counts h u =
        elim (node_decides (number n) level pointer counts (omega arith) (omega arith)) [
          | inl (e, l) ↦ inl (rw e refl, ((l.0, l.2), l.1, omega arith))
          | inr (x, e, l) ↦ inr (x, rw e refl, λ k. l (k.0.0, k.1, k.0.1))
        ]
    value_decides (string s) level pointer counts h u =
        elim (node_decides (string s) level pointer counts (omega arith) (omega arith)) [
          | inl (e, l) ↦ inl (rw e refl, ((l.0, l.2), l.1, omega arith))
          | inr (x, e, l) ↦ inr (x, rw e refl, λ k. l (k.0.0, k.1, k.0.1))
        ]
    value_decides (array vs) level pointer counts h u =
        elim (node_decides (array vs) level pointer counts (omega arith) (omega arith)) [
          | inr (x, e, l) ↦ inr (x, rw e refl, λ k. l (k.0.0, omega arith, k.0.1))
          | inl (e, l) ↦
              elim (values_decide vs 0 level pointer (grown counts 1 0) (omega arith)
                (omega arith)) [
                  | inl (e', l') ↦
                      inl (rw (e, e') (ground arith), ((l.0, l.2, l'.0), omega arith, omega arith))
                  | inr (x, e', l') ↦
                      inr (x, rw (e, e') refl, λ k. l' (k.0.2, omega arith, omega arith))
                ]
        ]
    value_decides (object ms) level pointer counts h u =
        elim (node_decides (object ms) level pointer counts (omega arith) (omega arith)) [
          | inr (x, e, l) ↦ inr (x, rw e refl, λ k. l (k.0.0, omega arith, (omega arith, k.0.1)))
          | inl (e, l) ↦
              elim (members_decide ms level pointer (grown counts 1 (member_count ms)) (omega arith)
                (omega arith)) [
                  | inl (e', l') ↦
                      inl
                        (rw (e, e') (ground arith), ((l.0, l.2.1, l'.0), omega arith, omega arith))
                  | inr (x, e', l') ↦
                      inr (x, rw (e, e') refl, λ k. l' (k.0.2, omega arith, omega arith))
                ]
        ]

    values_decide :
        (vs : Values) (index level : ℕ) (pointer : Text) (counts : Counts)
        → Small counts (values_nodes vs) (values_total vs)
        → Under counts
        → Decides
            (visited_values (check_node limits) (check_key limits) vs index level pointer counts)
            (grown counts (values_nodes vs) (values_total vs))
            (AreWithin (level + 1) vs
              × (counts.nodes + values_nodes vs ≤ limits.nodes)
              × (counts.members + values_total vs ≤ limits.members))
    values_decide nil index level pointer counts h u =
        inl (ground arith, (tt, omega arith, omega arith))
    values_decide (cons v vs) index level pointer counts h u =
        elim (value_decides v (level + 1) (item_token pointer index) counts (omega arith) u) [
          | inr (x, e, l) ↦ inr (x, rw e refl, λ k. l (k.0.0, omega arith, omega arith))
          | inl (e, l) ↦
              elim (values_decide vs (index + 1) level pointer
                (grown counts (node_count v) (member_total v)) (omega arith) (omega arith)) [
                  | inl (e', l') ↦
                      inl (rw (e, e') (ground arith), ((l.0, l'.0), omega arith, omega arith))
                  | inr (x, e', l') ↦
                      inr (x, rw (e, e') refl, λ k. l' (k.0.1, omega arith, omega arith))
                ]
        ]

    members_decide :
        (ms : Members) (level : ℕ) (pointer : Text) (counts : Counts)
        → Small counts (members_nodes ms) (members_total ms)
        → Under counts
        → Decides
            (visited_members (check_node limits) (check_key limits) ms level pointer counts)
            (grown counts (members_nodes ms) (members_total ms))
            (MembersWithin (level + 1) ms
              × (counts.nodes + members_nodes ms ≤ limits.nodes)
              × (counts.members + members_total ms ≤ limits.members))
    members_decide end level pointer counts h u = inl (ground arith, (tt, omega arith, omega arith))
    members_decide (member key v ms) level pointer counts h u =
        elim (within_decides scalar_bytes limits.scalar_bytes (length key)
          (append_token pointer key)) [
            | inr (x, e, over) ↦ inr (x, rw e refl, λ k. omega arith)
            | inl (e, short) ↦
                elim (value_decides v (level + 1) (append_token pointer key) counts (omega arith)
                  u) [
                    | inr (x, e', l) ↦
                        inr (x, rw (e, e') refl, λ k. l (k.0.1, omega arith, omega arith))
                    | inl (e', l) ↦
                        elim (members_decide ms level pointer
                          (grown counts (node_count v) (member_total v)) (omega arith)
                          (omega arith)) [
                            | inl (e'', l') ↦ inl (
                              rw (e, e', e'') (ground arith),
                              ((short, l.0, l'.0), omega arith, omega arith),
                            )
                            | inr (x, e'', l') ↦
                                inr (
                                  x,
                                  rw (e, e', e'') refl,
                                  λ k. l' (k.0.2, omega arith, omega arith),
                                )
                          ]
                  ]
          ]

  -- Where a value has fewer than 2 ^ 64 nodes and members: the check accepts it exactly if no value of
  -- it is too deep, no collection too long, no scalar or key too wide, and its nodes and the members
  -- of its objects are within their limits. Otherwise the check returns an error.
  pub check_input_value-Fits :
      (v : Value)
      → node_count v < 2 ^ 64
      → member_total v < 2 ^ 64
      → ((check_input_value v limits ≡ some (ok tt)) × Fits v)
        ⊎ ((e : InputLimitError) × (check_input_value v limits ≡ some (err e)) × ¬ Fits v)
  unfolding check_input_value
  check_input_value-Fits v few few' =
      let zeros : Counts = record { nodes = 0; members = 0 } in
      let same =
        ap (Option.map verdict) (walk-eq-visited (check_node limits) (check_key limits) v zeros) in
      elim (value_decides v 0 [] (record { nodes = 0; members = 0 }) (omega arith) (omega arith)) [
        | inl (e, f) ↦ inl (same ∙ ap (λ r. some (verdict r)) e, (f.0, omega arith, omega arith))
        | inr (x, e, f) ↦
            inr (x, same ∙ ap (λ r. some (verdict r)) e, λ k. f (k.0, omega arith, omega arith))
      ]
