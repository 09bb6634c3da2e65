-- ===== src/Number.antt =====
-- crates/schemaform/src/engine.rs: numbers as texts. `number_normal_form` and `numbers_equal`
-- compare them without expanding an exponent; `canonical_integer_with_limit` writes an integer out,
-- within a limit of digits. `BigInt::from_str` is a parameter.
pub mod Syntax
mod Tests
pub mod Totality
use schemaform.Prelude.{
  ℕ, zero, suc, ◌+◌, ◌-◌, ◌*◌, ◌^◌, Bool, true, false, not, ◌&&◌, ◌||◌, Option, none, some, List,
  [], ◌∷◌, ◌++◌, length, all, any, ltb, leb, ◌==◌, if◌then◌else◌, and_then, map_or, is_some_and,
}
use schemaform.Prelude.Int.{ℤ, pos, negsuc, ◌+ℤ◌, ◌-ℤ◌, leb_ℤ, eq_ℤ}
use schemaform.Prelude.Results.{Result, ok, err, panic, ◌>>=◌, ◌>>◌, guard, ok_or}
use schemaform.Json.{Text, text_eq, Value, number}
use schemaform.Json.Equality.{value_eq, json_values_equal}
use Syntax.{
  split_sign, split_exponent, split_point, trim_zeros, trailing_zeros, take, replicate, parse_i64,
  starts_with_minus,
}

-- `ParseBlocker`: why a text was not accepted.
pub data ParseBlocker : Type 0 where
  invalid_number invalid_integer resource_limit_exceeded : ParseBlocker

pub record NumberNormalForm : Type 0 where
  pub negative : Bool
  pub significant_digits : Text
  pub scale : ℤ

abbrev is_zero_digit : ℕ → Bool
is_zero_digit digit = digit == b'0'

module _ (parse_big_int : Text → Option ℤ) where
  unfoldable normal_form_of : Bool → Text → Text → Text → Option NumberNormalForm
  unfolding trim_zeros trailing_zeros take ◌+ℤ◌ ◌-ℤ◌
  normal_form_of negative whole fraction exponent = and_then (parse_big_int exponent) λ (e : ℤ).
      let digits : Text = whole ++ fraction in
      let trimmed = trim_zeros digits in
      let zeros = trailing_zeros trimmed in
      if all is_zero_digit digits
      then some (record { negative = false; significant_digits = b'0' ∷ []; scale = pos 0 })
      else some (record {
        negative = negative;
        significant_digits = take (length trimmed - zeros) trimmed;
        scale = e -ℤ pos (length fraction) +ℤ pos zeros;
      })

  unfoldable pub number_normal_form : Text → Option NumberNormalForm
  unfolding normal_form_of split_sign split_exponent split_point
  number_normal_form input =
      let (negative, unsigned) = split_sign input in
      let (significand, exponent) = split_exponent unsigned in
      let (whole, fraction) = split_point significand in
      normal_form_of negative whole fraction exponent

  abbrev normal_form_eq : NumberNormalForm → NumberNormalForm → Bool
  normal_form_eq m n =
      (if m.negative then n.negative else not n.negative)
      && text_eq m.significant_digits n.significant_digits
      && eq_ℤ m.scale n.scale

  -- two numbers with the same normal form
  abbrev same_form : Option NumberNormalForm → Option NumberNormalForm → Bool
  same_form (some m) (some n) = normal_form_eq m n
  same_form _ _ = false

  unfoldable pub same_number : Text → Text → Bool
  unfolding number_normal_form text_eq
  same_number left right = same_form (number_normal_form left) (number_normal_form right)

  abbrev both_numbers : Value → Value → Bool
  both_numbers (number m) (number n) = same_number m n
  both_numbers _ _ = false

  unfoldable pub numbers_equal : Value → Value → Bool
  unfolding same_number value_eq
  numbers_equal left right = value_eq left right || both_numbers left right

  unfoldable pub number_is_integer : Text → Bool
  unfolding number_normal_form
  number_is_integer input =
      is_some_and (number_normal_form input) (λ normal. leb_ℤ (pos 0) normal.scale)

-- The limits of `i64` and of a 64-bit `usize`.
abbrev i64_max : ℕ
i64_max = 2 ^ 63 - 1

abbrev usize_max : ℕ
usize_max = 2 ^ 64 - 1

-- `exponent.checked_sub(fraction_len)`
abbrev checked_sub_i64 : ℤ → ℕ → Option ℤ
checked_sub_i64 (pos e) n = if leb n e then some (pos (e - n)) else some (negsuc (n - e - 1))
checked_sub_i64 (negsuc e) n = if leb (e + n) i64_max then some (negsuc (e + n)) else none

abbrev is_negative : ℤ → Bool
is_negative (pos n) = false
is_negative (negsuc n) = true

-- The digits shifted by the exponent: zeros added behind them, or zeros taken off.
unfoldable pub shifted : Text → ℤ → ℕ → Result ParseBlocker Text
unfolding take Syntax.drop replicate
shifted digits (pos added) maximum_digits = do
  guard (leb (length digits + added) usize_max) resource_limit_exceeded
  guard (leb (length digits + added) maximum_digits) resource_limit_exceeded
  ok (digits ++ replicate added b'0')
shifted digits (negsuc n) maximum_digits =
    let split = length digits - suc n in
    do
      guard (ltb (suc n) (length digits)) invalid_integer
      guard (all is_zero_digit (Syntax.drop split digits)) invalid_integer
      ok (take split digits)

-- The canonical text: "0" where no digit is left, else the sign and the digits.
unfoldable signed : Bool → Text → Text
signed negative [] = b'0' ∷ []
signed negative (c ∷ s) = if negative then b'-' ∷ c ∷ s else c ∷ s

unfoldable pub canonical_integer_with_limit : Text → ℕ → Result ParseBlocker Text
unfolding split_sign split_exponent split_point trim_zeros parse_i64 shifted starts_with_minus
    signed
canonical_integer_with_limit input maximum_digits =
    let (negative, unsigned) = split_sign input in
    let (significand, exponent) = split_exponent unsigned in
    let (whole, fraction) = split_point significand in
    let all_digits : Text = whole ++ fraction in
    let digits = trim_zeros all_digits in
    let nonzero : Result ParseBlocker Text = do
      e ←
          ok_or (parse_i64 exponent)
            (if starts_with_minus exponent then invalid_integer else resource_limit_exceeded)
      guard (leb (length fraction) i64_max) resource_limit_exceeded
      shift ←
          ok_or (checked_sub_i64 e (length fraction))
            (if is_negative e then invalid_integer else resource_limit_exceeded)
      moved ← shifted digits shift maximum_digits
      guard (leb (length moved) maximum_digits) resource_limit_exceeded
      ok (signed negative (trim_zeros moved))
    in if all is_zero_digit all_digits
      then (if maximum_digits == 0 then err resource_limit_exceeded else ok (b'0' ∷ []))
      else nonzero
