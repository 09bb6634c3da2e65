-- ===== src/Number/Syntax.antt =====
-- The string operations that `number_normal_form` and `canonical_integer_with_limit` call.
use schemaform.Prelude.{
  ℕ, zero, suc, ◌+◌, ◌-◌, ◌*◌, ◌^◌, Bool, true, false, ◌&&◌, ◌||◌, Option, none, some, [], ◌∷◌, all,
  leb, ltb, ◌==◌, if◌then◌else◌,
}
use mathlib.Core.List.{reverse}
use schemaform.Prelude.Int.{ℤ, pos, negsuc}
use schemaform.Json.{Text}

-- `strip_prefix('-')`
unfoldable pub split_sign : Text → Bool × Text
split_sign [] = (false, [])
split_sign (c ∷ s) = if c == b'-' then (true, s) else (false, c ∷ s)

abbrev cut : (ℕ → Bool) → Text → Option (Text × Text)
cut at [] = none
cut at (c ∷ s) =
    let rest = cut at s in
    if at c
    then some ([], s)
    else elim rest [ none ↦ none | some (before, after) ↦ some (c ∷ before, after) ]

-- `find(['e', 'E'])` and the two slices round it; the exponent is "0" where there is none
unfoldable pub split_exponent : Text → Text × Text
split_exponent s = elim (cut (λ c. c == b'e' || c == b'E') s) [
  | none ↦ (s, b'0' ∷ [])
  | some parts ↦ parts
]

-- `split_once('.').unwrap_or((s, ""))`
unfoldable pub split_point : Text → Text × Text
split_point s = elim (cut (λ c. c == b'.') s) [ none ↦ (s, []) | some parts ↦ parts ]

-- `trim_start_matches('0')`
unfoldable pub trim_zeros : Text → Text
trim_zeros [] = []
trim_zeros (c ∷ s) = let rest = trim_zeros s in if c == b'0' then rest else c ∷ s

unfoldable pub zero_run : Text → ℕ
zero_run [] = 0
zero_run (c ∷ s) = let rest = zero_run s in if c == b'0' then suc rest else 0

-- `bytes().rev().take_while(|digit| *digit == b'0').count()`
unfoldable pub trailing_zeros : Text → ℕ
unfolding zero_run
trailing_zeros s = zero_run (reverse s)

unfoldable pub take : ℕ → Text → Text
take zero s = []
take (suc n) [] = []
take (suc n) (c ∷ s) = c ∷ take n s

unfoldable pub drop : ℕ → Text → Text
drop zero s = s
drop (suc n) [] = []
drop (suc n) (c ∷ s) = drop n s

unfoldable pub replicate : ℕ → ℕ → Text
replicate zero c = []
replicate (suc n) c = c ∷ replicate n c

unfoldable pub starts_with_minus : Text → Bool
starts_with_minus [] = false
starts_with_minus (c ∷ s) = c == b'-'

abbrev is_digit : ℕ → Bool
is_digit c = leb b'0' c && leb c b'9'

digits_value : ℕ → Text → ℕ
digits_value acc [] = acc
digits_value acc (c ∷ s) = digits_value (acc * 10 + (c - b'0')) s

-- decimal digits, at least one
number_of : Text → Option ℕ
unfolding digits_value
number_of [] = none
number_of (c ∷ s) = if all is_digit (c ∷ s) then some (digits_value 0 (c ∷ s)) else none

in_range : Bool → Option ℕ → Option ℤ
in_range negative none = none
in_range true (some n) =
    if leb n (2 ^ 63) then (if n == 0 then some (pos 0) else some (negsuc (n - 1))) else none
in_range false (some n) = if ltb n (2 ^ 63) then some (pos n) else none

-- `str::parse::<i64>()`: a sign or none, then digits, in range
unfoldable pub parse_i64 : Text → Option ℤ
unfolding number_of in_range
parse_i64 [] = none
parse_i64 (c ∷ s) =
    if c == b'-'
    then in_range true (number_of s)
    else if c == b'+'
    then in_range false (number_of s)
    else in_range false (number_of (c ∷ s))
