-- ===== src/Limits/Source.antt =====
-- crates/schemaform/src/limits.rs: `source_metrics`, which counts the tokens of an unparsed JSON text
-- and its nesting. The index into the bytes is the list of the bytes from there on.
pub mod Compact
pub mod Depths
pub mod Rounds
pub mod Written
use schemaform.Prelude.{
  ℕ, zero, suc, ◌+◌, ◌-◌, Bool, true, false, not, ◌&&◌, ◌||◌, Option, none, some, [], ◌∷◌, length,
  leb, ◌==◌, if◌then◌else◌,
}
use schemaform.Prelude.Words.{saturating_add, max}
use schemaform.Json.{Text}

pub record Scan : Type 0 where
  pub tokens : ℕ
  pub depth : ℕ
  pub nesting : ℕ

abbrev pub is_opening : ℕ → Bool
is_opening c = c == b'{' || c == b'['

abbrev pub is_closing : ℕ → Bool
is_closing c = c == b'}' || c == b']'

abbrev pub is_number_start : ℕ → Bool
is_number_start c = c == b'-' || (leb b'0' c && leb c b'9')

abbrev is_word_start : ℕ → Bool
is_word_start c = c == b't' || c == b'f' || c == b'n'

-- what ends a number
abbrev pub is_delimiter : ℕ → Bool
is_delimiter c = c == b' ' || c == 10 || c == 13 || c == 9 || c == b',' || c == b']' || c == b'}'

abbrev pub is_ascii_alphabetic : ℕ → Bool
is_ascii_alphabetic c = (leb b'a' c && leb c b'z') || (leb b'A' c && leb c b'Z')

-- The rest behind the quotation mark that ends a string; a backslash skips the byte behind it.
unfoldable pub skip_string : Text → Text
skip_string [] = []
skip_string (c ∷ []) = []
skip_string (c ∷ d ∷ s) = elim (c == b'\\') [
  | true ↦ skip_string s
  | false ↦ elim (c == b'"') [ true ↦ d ∷ s | false ↦ skip_string (d ∷ s) ]
]

-- The rest from the first byte that is not `inside`.
unfoldable pub skip_while : (ℕ → Bool) → Text → Text
skip_while inside [] = []
skip_while inside (c ∷ s) = let rest = skip_while inside s in if inside c then rest else c ∷ s

abbrev pub token : Scan → Scan
token scan = record scan {
  tokens = saturating_add scan.tokens 1;
  depth = max scan.depth scan.nesting;
}

-- One round of the loop, at a byte and what is behind it: what is left, and the counts.
unfoldable pub scan_byte : ℕ → Text → Scan → Text × Scan
unfolding skip_string skip_while saturating_add
scan_byte c rest scan =
    if is_opening c
    then (rest, record (token scan) { nesting = saturating_add scan.nesting 1 })
    else if is_closing c
    then (rest, record scan { nesting = scan.nesting - 1 })
    else if c == b'"'
    then (skip_string rest, token scan)
    else if is_number_start c
    then (skip_while (λ d. not (is_delimiter d)) rest, token scan)
    else if is_word_start c
    then (skip_while is_ascii_alphabetic rest, token scan)
    else (rest, scan)

unfoldable pub scan_bytes : ℕ → Text → Scan → Option Scan
unfolding scan_byte
scan_bytes zero bytes scan = none
scan_bytes (suc fuel) [] scan = some scan
scan_bytes (suc fuel) (c ∷ rest) scan =
    let (rest', scan') = scan_byte c rest scan in scan_bytes fuel rest' scan'

-- The tokens and the depth, in as many rounds as there are bytes, and one to stop.
unfoldable pub source_metrics : Text → Option Scan
unfolding scan_bytes
source_metrics bytes =
    scan_bytes (suc (length bytes)) bytes (record { tokens = 0; depth = 0; nesting = 0 })
