-- ===== src/Validation/Cardinality.antt =====
-- crates/schemaform/src/validation.rs: `ExactNonnegativeInteger` and `CardinalityKeyword`, the exact
-- bounds of `minItems` and `maxItems`. `BigInt::from_str` is a parameter.
pub mod Digits
pub mod Exact
pub mod Bounds
use Prim.Native.Nat.{compare, Ordering}
use schemaform.Prelude.{
  ℕ, suc, ◌+◌, ◌-◌, Bool, true, false, Option, none, some, [], ◌∷◌, ◌++◌, length, all, leb, ◌==◌,
  if◌then◌else◌, and_then,
}
use schemaform.Prelude.Int.{ℤ, pos, negsuc, ◌+ℤ◌, ◌-ℤ◌, leb_ℤ}
use schemaform.Prelude.Words.{usize_max}
use schemaform.Json.{Text, text_eq, text_cmp, Value, number, array}
use schemaform.Json.Equality.{size}
use schemaform.Number.Syntax.{
  split_sign, split_exponent, split_point, trim_zeros, trailing_zeros, take, replicate,
}
use schemaform.Pointer.Words.{to_string}

pub record ExactNonnegativeInteger : Type 0 where
  pub significant_digits : Text
  pub scale : ℤ

abbrev is_zero_digit : ℕ → Bool
is_zero_digit digit = digit == b'0'

module _ (parse_big_int : Text → Option ℤ) where
  unfoldable pub exact_of : Bool → Text → Text → Text → Option ExactNonnegativeInteger
  unfolding trim_zeros trailing_zeros take ◌+ℤ◌ ◌-ℤ◌
  exact_of negative whole fraction exponent = and_then (parse_big_int exponent) λ (e : ℤ).
      let all_digits : Text = whole ++ fraction in
      let digits = trim_zeros all_digits in
      let zeros = trailing_zeros digits in
      let scale = e -ℤ pos (length fraction) +ℤ pos zeros in
      if all is_zero_digit all_digits
      then some (record { significant_digits = b'0' ∷ []; scale = pos 0 })
      else if negative
      then none
      else if leb_ℤ (pos 0) scale
      then some (record { significant_digits = take (length digits - zeros) digits; scale = scale })
      else none

  unfoldable pub parse : Value → Option ExactNonnegativeInteger
  unfolding exact_of split_sign split_exponent split_point
  parse (number input) =
      let (negative, unsigned) = split_sign input in
      let (significand, exponent) = split_exponent unsigned in
      let (whole, fraction) = split_point significand in exact_of negative whole fraction exponent
  parse _ = none

-- `scale.to_string().parse::<usize>().ok()`
unfoldable pub to_usize : ℤ → Option ℕ
to_usize (pos n) = if leb n usize_max then some n else none
to_usize (negsuc n) = none

-- `BigInt::from(count) + scale`, compared with a length
abbrev compare_count : ℕ → ℤ → ℕ → Ordering
compare_count count (pos n) width = compare (count + n) width
compare_count count (negsuc n) width = compare count (width + suc n)

-- `none` is the panic of `expect`.
unfoldable pub compare_usize : ExactNonnegativeInteger → ℕ → Option Ordering
unfolding to_string to_usize text_cmp replicate text_eq
compare_usize bound value =
    let written = to_string value in
    let same_width =
      and_then (to_usize bound.scale)
        λ (scale : ℕ). some (text_cmp (bound.significant_digits ++ replicate scale b'0') written) in
    if text_eq bound.significant_digits (b'0' ∷ [])
    then some (compare 0 value)
    else elim (compare_count (length bound.significant_digits) bound.scale (length written)) [
      | Ordering.eq ↦ same_width
      | Ordering.lt ↦ some Ordering.lt
      | Ordering.gt ↦ some Ordering.gt
    ]

pub data CardinalityComparison : Type 0 where
  minimum maximum : CardinalityComparison

pub record CardinalityKeyword : Type 0 where
  pub bound : ExactNonnegativeInteger
  pub comparison : CardinalityComparison

abbrev pub allows : CardinalityComparison → Ordering → Bool
allows minimum Ordering.gt = false
allows minimum _ = true
allows maximum Ordering.lt = false
allows maximum _ = true

unfoldable pub is_valid : CardinalityKeyword → Value → Option Bool
unfolding compare_usize size
is_valid keyword (array vs) =
    and_then (compare_usize keyword.bound (size vs))
      λ (o : Ordering). some (allows keyword.comparison o)
is_valid keyword _ = some true
