-- ===== src/Limits/Metrics/Grown.antt =====
-- How the metrics grow by the parts of a value.
use schemaform.Prelude.{
  ℕ, suc, ◌+◌, ◌^◌, ◌≤◌, ◌<◌, ◌≡◌, refl, ◌⊎◌, inl, inr, true, false, length, arith, ltb, Bool-cases,
}
use schemaform.Prelude.Results.{Result, ok, err}
use schemaform.Prelude.Words.{saturating_add_exact, max}
use schemaform.Json.{Text, Value, null, bool, number, string, array, object, member_count}
use schemaform.Json.Equality.{size}
use schemaform.Limits.Metrics.{
  ValueMetrics, record_scalar_metric, record_members, record_pointer, record_value, measure_node,
}

-- The metrics after a part that has so many nodes, tokens besides these, such a depth and widths.
abbrev pub Grown : ValueMetrics → ValueMetrics → ℕ → ℕ → ℕ → ℕ → ℕ → Type 0
Grown m m' nodes others deep wide long =
    (m'.nodes ≡ m.nodes + nodes)
    × (m'.tokens ≡ m.tokens + nodes + others)
    × (m'.depth ≡ max m.depth deep)
    × (m'.members ≡ max m.members wide)
    × (m'.scalar_bytes ≡ max m.scalar_bytes long)

-- what a value has by itself, without its children
abbrev pub own_members : Value → ℕ
own_members (object ms) = member_count ms
own_members _ = 0

abbrev own_width : Value → ℕ
own_width (array vs) = size vs
own_width (object ms) = member_count ms
own_width _ = 0

abbrev own_length : Value → ℕ
own_length null = 4
own_length (bool true) = 4
own_length (bool false) = 5
own_length (number n) = length n
own_length (string s) = length s
own_length _ = 0

pub scalar-Grown :
    (m : ValueMetrics) (width : ℕ) (pointer : Text)
    → Grown m (record_scalar_metric m width pointer) 0 0 0 0 width
unfolding record_scalar_metric
scalar-Grown m width pointer = ground arith

members-Grown :
    (m : ValueMetrics) (count : ℕ) (pointer : Text)
    → Grown m (record_members m count pointer) 0 0 0 count 0
unfolding record_members
members-Grown m count pointer = ground arith

pointer-Grown : (m : ValueMetrics) (pointer : Text) → Grown m (record_pointer m pointer) 0 0 0 0 0
unfolding record_pointer
pointer-Grown m pointer = ground arith

value-Grown :
    (v : Value) (pointer : Text) (m : ValueMetrics)
    → m.tokens + own_members v < 2 ^ 64
    → Grown m (record_value v pointer m) 0 (own_members v) 0 (own_width v) (own_length v)
unfolding record_value
value-Grown null pointer m h = scalar-Grown m 4 pointer
value-Grown (bool true) pointer m h = scalar-Grown m 4 pointer
value-Grown (bool false) pointer m h = scalar-Grown m 5 pointer
value-Grown (number n) pointer m h = scalar-Grown m (length n) pointer
value-Grown (string s) pointer m h = scalar-Grown m (length s) pointer
value-Grown (array vs) pointer m h = members-Grown m (size vs) pointer
value-Grown (object ms) pointer m h =
    let grown =
      members-Grown (record m { tokens = m.tokens + member_count ms }) (member_count ms) pointer in
    rw (saturating_add_exact m.tokens (member_count ms) h) (ground arith)

Grown-trans :
    (m m' m'' : ValueMetrics) (nodes others deep wide long nodes' others' deep' wide' long' : ℕ)
    → Grown m m' nodes others deep wide long
    → Grown m' m'' nodes' others' deep' wide' long'
    → Grown m m''
        (nodes + nodes')
        (others + others')
        (max deep deep')
        (max wide wide')
        (max long long')
Grown-trans m m' m'' nodes others deep wide long nodes' others' deep' wide' long' g g' =
    ground arith

-- A part that is not too deep is measured; one that is too deep leaves the loop.
abbrev pub Outcome :
    ℕ → ValueMetrics → Result ValueMetrics ValueMetrics → ℕ → ℕ → ℕ → ℕ → ℕ → Type 0
Outcome limit m r nodes others deep wide long =
    ((m' : ValueMetrics) × (r ≡ ok m') × (deep ≤ limit) × Grown m m' nodes others deep wide long)
    ⊎ ((m' : ValueMetrics) × (r ≡ err m') × (limit < deep) × (limit < m'.depth))

pub node-Outcome :
    (limit : ℕ) (v : Value) (level : ℕ) (pointer : Text) (m : ValueMetrics)
    → m.nodes + 1 < 2 ^ 64
    → m.tokens + 1 + own_members v < 2 ^ 64
    → m.depth ≤ limit
    → Outcome limit m
        (measure_node limit v level pointer m)
        1
        (own_members v)
        level
        (own_width v)
        (own_length v)
unfolding measure_node
node-Outcome limit v level pointer m few few' near =
    let exact = saturating_add_exact m.nodes 1 few in
    let exact' = saturating_add_exact m.tokens 1 (omega arith) in
    let counted : ValueMetrics = record m { nodes = m.nodes + 1; tokens = m.tokens + 1 } in
    let deepened : ValueMetrics = record counted { depth = level; depth_pointer = pointer } in
    elim (Bool-cases (ltb m.depth level)) [
      | inr shallow ↦
          let grown = pointer-Grown counted pointer in
          let grown' = value-Grown v pointer (record_pointer counted pointer) (omega arith) in
          inl (
            record_value v pointer (record_pointer counted pointer),
            rw (exact, exact', shallow) refl,
            ground arith,
            ground arith,
          )
      | inl deeper ↦ elim (Bool-cases (ltb limit level)) [
        | inl over ↦
            inr (deepened, rw (exact, exact', deeper, over) refl, ground arith, ground arith)
        | inr under ↦
            let grown = pointer-Grown deepened pointer in
            let grown' = value-Grown v pointer (record_pointer deepened pointer) (omega arith) in
            inl (
              record_value v pointer (record_pointer deepened pointer),
              rw (exact, exact', deeper, under) refl,
              ground arith,
              ground arith,
            )
      ]
    ]

-- a collection, after its own round and its children
pub collection-Grown :
    (m m' m'' : ValueMetrics) (own level wide nodes others total high wide' long : ℕ)
    → Grown m m' 1 own level wide 0
    → Grown m' m'' nodes others (level + high) wide' long
    → total ≡ own + others
    → Grown m m'' (suc nodes) total (level + high) (max wide wide') long
collection-Grown m m' m'' own level wide nodes others total high wide' long g g' e =
    (omega arith, omega arith, ground arith, ground arith, ground arith)

-- a child and those behind it
pub children-Grown :
    (m m' m'' : ValueMetrics)
    (level nodes others high wide long nodes' others' high' wide' long' : ℕ)
    → Grown m m' nodes others (level + 1 + high) wide long
    → Grown m' m'' nodes' others' (level + high') wide' long'
    → Grown m m''
        (nodes + nodes')
        (others + others')
        (level + max (high + 1) high')
        (max wide wide')
        (max long long')
children-Grown m m' m'' level nodes others high wide long nodes' others' high' wide' long' g g' =
    (omega arith, omega arith, ground arith, ground arith, ground arith)

-- a key before what is behind it
pub key-Grown :
    (m m' m'' : ValueMetrics) (width nodes others deep wide long : ℕ)
    → Grown m m' 0 0 0 0 width
    → Grown m' m'' nodes others deep wide long
    → Grown m m'' nodes others deep wide (max width long)
key-Grown m m' m'' width nodes others deep wide long g g' =
    (omega arith, omega arith, ground arith, ground arith, ground arith)

-- a value without children
pub scalar_node-Grown :
    (m m' : ValueMetrics) (level long : ℕ)
    → Grown m m' 1 0 level 0 long
    → Grown m m' 1 0 (level + 0) 0 long
scalar_node-Grown m m' level long g =
    (omega arith, omega arith, ground arith, ground arith, ground arith)

pub none-Grown : (m : ValueMetrics) (level : ℕ) → level ≤ m.depth → Grown m m 0 0 (level + 0) 0 0
none-Grown m level h = (omega arith, omega arith, ground arith, ground arith, ground arith)

pub max-le : (a b c : ℕ) → a ≤ c → b ≤ c → max a b ≤ c
max-le a b c h h' = ground arith

pub le-max : (a b : ℕ) → (a ≤ max a b) × (b ≤ max a b)
le-max a b = ground arith
