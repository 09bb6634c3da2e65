-- ===== src/Limits/Source/Depths.antt =====
-- The counts of a scan behind the parts of a text, and the rounds that these take.
use schemaform.Prelude.{ℕ, suc, ◌+◌, ◌^◌, ◌≤◌, ◌<◌, ◌≡◌, arith}
use schemaform.Prelude.Words.{saturating_add_exact, max}
use schemaform.Json.{Value, Values, Members, array, object, nil, cons, end, member}
use schemaform.Limits.Source.{Scan, token}

pub le-max_left : (a b : ℕ) → a ≤ max a b
le-max_left a b = ground arith

pub le-max_right : (a b : ℕ) → b ≤ max a b
le-max_right a b = ground arith

-- After a part with so many tokens, and values so deep.
abbrev pub counted : Scan → ℕ → ℕ → Scan
counted scan n deep = record scan {
  tokens = scan.tokens + n;
  depth = max scan.depth (scan.nesting + deep);
}

-- Back at the nesting outside.
abbrev pub left : Scan → ℕ → ℕ → ℕ → Scan
left scan outside n deep = record {
  tokens = scan.tokens + n;
  depth = max scan.depth (outside + deep);
  nesting = outside;
}

pub depth-counted : (scan : Scan) (n deep : ℕ) → scan.depth ≤ max scan.depth (scan.nesting + deep)
depth-counted scan n deep = le-max_left scan.depth (scan.nesting + deep)

abbrev scan_of : ℕ → ℕ → ℕ → Scan
scan_of t d k = record { tokens = t; depth = d; nesting = k }

pub Scan_eq : (t t' d d' k : ℕ) → t ≡ t' → d ≡ d' → scan_of t d k ≡ scan_of t' d' k
Scan_eq t t' d d' k e e' = λ i. record { tokens = e i; depth = e' i; nesting = k }

-- The depths behind the items of an array and the members of an object.
pub items_depth :
    (d n k a b : ℕ) → n ≡ suc k → max (max d (n + a)) (k + b) ≡ max d (k + max (a + 1) b)
items_depth d n k a b e = ground arith

pub array_depth :
    (d n a b : ℕ) → max (max (max d n) (n + 1 + a)) (n + b) ≡ max d (n + max (a + 1) b)
array_depth d n a b = ground arith

pub members_depth :
    (d n k a b : ℕ)
    → n ≡ suc k
    → max (max (max d (n + 0)) (n + a)) (k + b) ≡ max d (k + max (a + 1) b)
members_depth d n k a b e = ground arith

pub object_depth :
    (d n a b : ℕ)
    → max (max (max (max d n) (n + 1 + 0)) (n + 1 + a)) (n + b) ≡ max d (n + max (a + 1) b)
object_depth d n a b = ground arith

pub one_token : (scan : Scan) → scan.tokens + 1 < 2 ^ 64 → token scan ≡ counted scan 1 0
one_token scan h = rw (saturating_add_exact scan.tokens 1 h) (ground arith)

-- the rounds of the scan
unfoldable mutual
  pub scans : Value → ℕ
  scans (array nil) = 2
  scans (array (cons v vs)) = suc (scans v + scans_values vs)
  scans (object end) = 2
  scans (object (member k v ms)) = 3 + (scans v + scans_members ms)
  scans _ = 1

  pub scans_values : Values → ℕ
  scans_values nil = 1
  scans_values (cons v vs) = suc (scans v + scans_values vs)

  pub scans_members : Members → ℕ
  scans_members end = 1
  scans_members (member k v ms) = 3 + (scans v + scans_members ms)
