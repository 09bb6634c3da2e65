-- ===== src/Resources/Fragments.antt =====
-- crates/schemaform/src/resources.rs: `decode_uri_fragment` and `hex_value`.
pub mod Encoding
use mathlib.Core.Option
use schemaform.Prelude.{
  ℕ, ◌+◌, ◌-◌, ◌*◌, Bool, true, false, ◌&&◌, Option, none, some, List, [], ◌∷◌, leb, ◌==◌,
  if◌then◌else◌, and_then,
}
use schemaform.Json.{Text}

unfoldable pub hex_value : ℕ → Option ℕ
hex_value value =
    if leb b'0' value && leb value b'9'
    then some (value - b'0')
    else if leb b'a' value && leb value b'f'
    then some (value - b'a' + 10)
    else if leb b'A' value && leb value b'F'
    then some (value - b'A' + 10)
    else none

-- The loop, on the bytes from the index on.
unfoldable pub decode_bytes : Text → Option Text
unfolding hex_value
decode_bytes [] = some []
decode_bytes (c ∷ []) = if c == b'%' then none else some (c ∷ [])
decode_bytes (c ∷ d ∷ []) = elim (c == b'%') [
  | true ↦ none
  | false ↦ Option.map (◌∷◌ c) (decode_bytes (d ∷ []))
]
decode_bytes (c ∷ d ∷ e ∷ s) = elim (c == b'%') [
  | true ↦ and_then (hex_value d) λ (high : ℕ).
      and_then (hex_value e) λ (low : ℕ). Option.map (◌∷◌ (high * 16 + low)) (decode_bytes s)
  | false ↦ Option.map (◌∷◌ c) (decode_bytes (d ∷ e ∷ s))
]

abbrev Range : Type 0
Range = ℕ × ℕ

abbrev tail : Range
tail = (0x80, 0xBF)

-- What may follow the first byte of a character in UTF-8, by the table of the Unicode standard.
abbrev following : ℕ → Option (List Range)
following c =
    if leb c 0x7F
    then some []
    else if leb 0xC2 c && leb c 0xDF
    then some (tail ∷ [])
    else if c == 0xE0
    then some ((0xA0, 0xBF) ∷ tail ∷ [])
    else if c == 0xED
    then some ((0x80, 0x9F) ∷ tail ∷ [])
    else if leb 0xE1 c && leb c 0xEF
    then some (tail ∷ tail ∷ [])
    else if c == 0xF0
    then some ((0x90, 0xBF) ∷ tail ∷ tail ∷ [])
    else if leb 0xF1 c && leb c 0xF3
    then some (tail ∷ tail ∷ tail ∷ [])
    else if c == 0xF4
    then some ((0x80, 0x8F) ∷ tail ∷ tail ∷ [])
    else none

unfoldable characters : List Range → Text → Bool
characters [] [] = true
characters (r ∷ rs) [] = false
characters (r ∷ rs) (c ∷ s) = leb r.0 c && leb c r.1 && characters rs s
characters [] (c ∷ s) = elim (following c) [ none ↦ false | some rs ↦ characters rs s ]

-- whether `String::from_utf8` accepts the bytes
unfoldable pub is_utf8 : Text → Bool
unfolding characters
is_utf8 s = characters [] s

unfoldable pub decode_uri_fragment : Text → Option Text
unfolding decode_bytes is_utf8
decode_uri_fragment fragment =
    and_then (decode_bytes fragment)
      λ (decoded : Text). if is_utf8 decoded then some decoded else none
