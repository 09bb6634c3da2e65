-- ===== src/Validation/Cardinality/Bounds.antt =====
-- What the bound of a number's text is: its digits, scaled by its exponent.
use Prim.Native.Nat.{compare, Ordering}
use mathlib.Core.Option
use mathlib.Core.Path.{subst}
use mathlib.Core.List.{reverse, reverse-append, reverse-reverse}
use native.Mathlib.Nat.{pow-suc, mul_assoc}
use schemaform.Prelude.{
  ℕ, zero, suc, ◌+◌, ◌-◌, ◌*◌, ◌^◌, ◌<◌, ◌≤◌, ◌↔◌, ◌≡◌, refl, sym, ap, ◌∙◌, inl, inr, Bool, true,
  false, Option, some, [], ◌∷◌, ◌++◌, length, length-append, all, ◌==◌, arith, Bool-cases,
}
use schemaform.Prelude.Int.{ℤ, pos, negsuc, pos_part, neg_part, ◌+ℤ◌, ◌-ℤ◌, leb_ℤ}
use schemaform.Json.{Text, Values, number, array}
use schemaform.Json.Equality.{size}
use schemaform.Number.Syntax.{
  split_sign, split_exponent, split_point, trim_zeros, zero_run, trailing_zeros, take, replicate,
}
use schemaform.Validation.Cardinality.{
  ExactNonnegativeInteger, exact_of, parse, is_zero_digit, CardinalityComparison, minimum, maximum,
  allows, is_valid,
}
use schemaform.Validation.Cardinality.Digits.{
  AreDigits, Leads, value_from, scaled, scaled_add, compare-scaled, value_from-append,
  value_from-replicate,
}
use schemaform.Validation.Cardinality.Exact.{IsExact, compare_usize-IsExact}

value-trim_zeros : (s : Text) → value_from 0 (trim_zeros s) ≡ value_from 0 s
unfolding value_from trim_zeros
value-trim_zeros [] = refl
value-trim_zeros (c ∷ s) = elim (Bool-cases (c == b'0')) [
  | inl e ↦ let digit : 0 * 10 + (c - b'0') ≡ 0 = ground arith in rw (e, digit) (value-trim_zeros s)
  | inr e ↦ rw e refl
]

trim_zeros-AreDigits : (s : Text) → AreDigits s → AreDigits (trim_zeros s)
unfolding trim_zeros
trim_zeros-AreDigits [] h = tt
trim_zeros-AreDigits (c ∷ s) h = elim (Bool-cases (c == b'0')) [
  | inl e ↦ rw e (trim_zeros-AreDigits s h.2)
  | inr e ↦ rw e h
]

trim_zeros-Leads : (s : Text) → AreDigits s → all is_zero_digit s ≡ false → Leads (trim_zeros s)
unfolding trim_zeros
trim_zeros-Leads [] h some_digit = absurd (ground arith)
trim_zeros-Leads (c ∷ s) h some_digit = elim (Bool-cases (c == b'0')) [
  | inl e ↦ rw e (trim_zeros-Leads s h.2 (ground arith))
  | inr e ↦ rw e (ground (arith, h.0))
]

value-zeros : (s : Text) → all is_zero_digit s ≡ true → value_from 0 s ≡ 0
unfolding value_from
value-zeros [] h = refl
value-zeros (c ∷ s) h =
    let digit : 0 * 10 + (c - b'0') ≡ 0 = ground arith in rw digit (value-zeros s (ground arith))

zero_run_lem : (s : Text) → (t : Text) × (s ≡ replicate (zero_run s) b'0' ++ t)
unfolding zero_run replicate
zero_run_lem [] = ([], refl)
zero_run_lem (c ∷ s) =
    let (t, split) = zero_run_lem s in
    elim (Bool-cases (c == b'0')) [
      | inl e ↦
          let zero_digit : c ≡ b'0' = ground arith in (t, rw (e, zero_digit) (ap (◌∷◌ b'0') split))
      | inr e ↦ (c ∷ s, rw e refl)
    ]

replicate_push : (n c : ℕ) → replicate n c ++ c ∷ [] ≡ c ∷ replicate n c
unfolding replicate
replicate_push zero c = refl
replicate_push (suc n) c = ap (◌∷◌ c) (replicate_push n c)

reverse-replicate : (n c : ℕ) → reverse (replicate n c) ≡ replicate n c
unfolding replicate
reverse-replicate zero c = refl
reverse-replicate (suc n) c =
    reverse-append (c ∷ []) (replicate n c)
    ∙ ap (λ (s : Text). s ++ c ∷ []) (reverse-replicate n c)
    ∙ replicate_push n c

take-append : (s t : Text) → take (length s) (s ++ t) ≡ s
unfolding take
take-append [] t = refl
take-append (c ∷ s) t = ap (◌∷◌ c) (take-append s t)

length-zeros : (n c : ℕ) → length (replicate n c) ≡ n
unfolding replicate
length-zeros zero c = refl
length-zeros (suc n) c = ap suc (length-zeros n c)

-- A text is what is left without the zeros at its end, and the zeros.
trailing_zeros_lem :
    (s : Text)
    → (t : Text) × (take (length s - trailing_zeros s) s ≡ t)
      × (s ≡ t ++ replicate (trailing_zeros s) b'0')
unfolding trailing_zeros
trailing_zeros_lem s =
    let z = zero_run (reverse s) in
    let (u, split) = zero_run_lem (reverse s) in
    let whole : s ≡ reverse u ++ replicate z b'0' =
      sym (reverse-reverse s)
      ∙ ap reverse split
      ∙ reverse-append (replicate z b'0') u
      ∙ ap (λ (w : Text). reverse u ++ w) (reverse-replicate z b'0') in
    let width : length s - z ≡ length (reverse u) =
      omega (
        arith,
        ap length whole,
        length-append (reverse u) (replicate z b'0'),
        length-zeros z b'0',
      ) in
    (
      reverse u,
      ap (λ (n : ℕ). take n s) width
          ∙ ap (take (length (reverse u))) whole
          ∙ take-append (reverse u) (replicate z b'0'),
      whole,
    )

append-Leads_left : (s : Text) (n : ℕ) → Leads (s ++ replicate n b'0') → Leads s
unfolding replicate
append-Leads_left [] zero h = absurd h
append-Leads_left [] (suc n) h = absurd (omega arith)
append-Leads_left (c ∷ s) n h = h

append-AreDigits_left : (s t : Text) → AreDigits (s ++ t) → AreDigits s
append-AreDigits_left [] t h = tt
append-AreDigits_left (c ∷ s) t h = (h.0, h.1, append-AreDigits_left s t h.2)

nonnegative_scale :
    (e : ℤ) (f z : ℕ)
    → leb_ℤ (pos 0) (e -ℤ pos f +ℤ pos z) ≡ true
    → (k : ℕ) × (e -ℤ pos f +ℤ pos z ≡ pos k) × (z + pos_part e ≡ k + (f + neg_part e))
unfolding ◌-ℤ◌ ◌+ℤ◌
nonnegative_scale (pos n) f z h = (z + n - f, ground arith, ground arith)
nonnegative_scale (negsuc n) f z h = (z - (f + suc n), ground arith, ground arith)

scaled_zero : (k : ℕ) → scaled 0 k ≡ 0
unfolding scaled
scaled_zero zero = refl
scaled_zero (suc k) = scaled_zero k

scaled_eq : (n k : ℕ) → scaled n k ≡ n * 10 ^ k
unfolding scaled
scaled_eq n zero = omega arith
scaled_eq n (suc k) =
    let power : 10 * 10 ^ k ≡ 10 ^ suc k = omega (arith, pow-suc 10 k) in
    scaled_eq (n * 10) k ∙ mul_assoc n 10 (10 ^ k) ∙ ap (λ (m : ℕ). n * m) power

-- The bound that is parsed is the number that the text writes: its digits times a power of ten.
exact_of_lem :
    (parse_big_int : Text → Option ℤ) (negative : Bool) (whole fraction exponent : Text) (e : ℤ)
    (bound : ExactNonnegativeInteger)
    → AreDigits (whole ++ fraction)
    → parse_big_int exponent ≡ some e
    → exact_of parse_big_int negative whole fraction exponent ≡ some bound
    → (k : ℕ) × IsExact bound k
      × (scaled (value_from 0 (whole ++ fraction)) (pos_part e)
          ≡ scaled
              (scaled (value_from 0 bound.significant_digits) k)
              (length fraction + neg_part e))
unfolding exact_of value_from scaled
exact_of_lem parse_big_int negative whole fraction exponent e bound digits known h =
    elim (Bool-cases (all is_zero_digit (whole ++ fraction))) [
      | inl zeros ↦
          let nothing = value-zeros (whole ++ fraction) zeros in
          let found : some (record { significant_digits = b'0' ∷ []; scale = pos 0 }) ≡ some bound =
            ground (arith, known, zeros) in
          let same = Option.some-injective _ _ found in
          (
            0,
            inl (ap (λ b. b.significant_digits) (sym same), refl, ap (λ b. b.scale) (sym same)),
            ap (λ (m : ℕ). scaled m (pos_part e)) nothing
                ∙ scaled_zero (pos_part e)
                ∙ sym (scaled_zero (length fraction + neg_part e))
                ∙ ap
                    (λ (b : ExactNonnegativeInteger).
                      scaled (scaled (value_from 0 b.significant_digits) 0)
                        (length fraction + neg_part e))
                    same,
          )
      | inr nonzero ↦
          let trimmed = trim_zeros (whole ++ fraction) in
          let z = trailing_zeros trimmed in
          let scale = e -ℤ pos (length fraction) +ℤ pos z in
          let (t, taken, split) = trailing_zeros_lem trimmed in
          elim (Bool-cases negative) [
            | inl minus ↦ absurd (ground (arith, known, nonzero, minus, h))
            | inr plus ↦ elim (Bool-cases (leb_ℤ (pos 0) scale)) [
              | inr below ↦ absurd (ground (arith, known, nonzero, plus, below, h))
              | inl above ↦
                  let found : some (record {
                    significant_digits = take (length trimmed - z) trimmed;
                    scale = scale;
                  })
                      ≡ some bound =
                    ground (arith, known, nonzero, plus, above, h) in
                  let same = Option.some-injective _ _ found in
                  let (k, integral, sum) = nonnegative_scale e (length fraction) z above in
                  let written : bound.significant_digits ≡ t =
                    ap (λ b. b.significant_digits) (sym same) ∙ taken in
                  let all_digits = trim_zeros-AreDigits (whole ++ fraction) digits in
                  let lead = trim_zeros-Leads (whole ++ fraction) digits nonzero in
                  (
                    k,
                    inr (
                      rw written (
                          append-AreDigits_left t (replicate z b'0')
                            (subst AreDigits split all_digits)),
                      rw written (append-Leads_left t z (subst Leads split lead)),
                      sym (ap (λ b. b.scale) same) ∙ integral,
                    ),
                    ap (λ (m : ℕ). scaled m (pos_part e))
                          (sym (value-trim_zeros (whole ++ fraction))
                            ∙ ap (value_from 0) split
                            ∙ value_from-append 0 t (replicate z b'0')
                            ∙ value_from-replicate (value_from 0 t) z
                            ∙ ap (λ (s : Text). scaled (value_from 0 s) z) (sym written))
                        ∙ sym (scaled_add (value_from 0 bound.significant_digits) z (pos_part e))
                        ∙ ap (scaled (value_from 0 bound.significant_digits)) sum
                        ∙ scaled_add (value_from 0 bound.significant_digits) k
                            (length fraction + neg_part e),
                  )
            ]
          ]
    ]

-- The parts of a number's text.
abbrev pub digits_of : Text → Text × Text
digits_of input = split_point (split_exponent (split_sign input).1).0

abbrev pub exponent_of : Text → Text
exponent_of input = (split_exponent (split_sign input).1).1

-- The bound and the size of an array, both scaled alike: not too few items, or not too many.
abbrev pub Respects : CardinalityComparison → ℕ → ℕ → Type 0
Respects minimum bound count = bound ≤ count
Respects maximum bound count = count ≤ bound

allows_lem :
    (comparison : CardinalityComparison) (bound count : ℕ)
    → (allows comparison (compare bound count) ≡ true) ↔ Respects comparison bound count
allows_lem minimum bound count = (λ h. ground arith, λ h. ground arith)
allows_lem maximum bound count = (λ h. ground arith, λ h. ground arith)

-- A keyword whose bound is the text of a number, whose significand is decimal digits d, with f of them
-- behind the point, and whose exponent e is read: where the bound is parsed, the keyword does not
-- panic on an array of fewer than 2 ^ 64 - 1 items. A minimum is valid exactly if d · 10 ^ e is at
-- most size · 10 ^ f, a maximum exactly if it is at least that, with the power of a negative e on
-- the right side.
pub parse-is_valid :
    (parse_big_int : Text → Option ℤ) (input : Text) (e : ℤ) (bound : ExactNonnegativeInteger)
    (comparison : CardinalityComparison) (vs : Values)
    → AreDigits ((digits_of input).0 ++ (digits_of input).1)
    → parse_big_int (exponent_of input) ≡ some e
    → parse parse_big_int (number input) ≡ some bound
    → size vs < 2 ^ 64 - 1
    → (valid : Bool) × (is_valid (record { bound = bound; comparison = comparison }) (array vs)
        ≡ some valid)
      × ((valid ≡ true)
          ↔ Respects comparison
              (value_from 0 ((digits_of input).0 ++ (digits_of input).1) * 10 ^ pos_part e)
              (size vs * 10 ^ (length (digits_of input).1 + neg_part e)))
unfolding parse is_valid
parse-is_valid parse_big_int input e bound comparison vs digits known h small =
    let (k, exact, same) =
      exact_of_lem parse_big_int (split_sign input).0 (digits_of input).0 (digits_of input).1
        (exponent_of input) e bound digits known h in
    let d = value_from 0 ((digits_of input).0 ++ (digits_of input).1) in
    let m = length (digits_of input).1 + neg_part e in
    let n = scaled (value_from 0 bound.significant_digits) k in
    let order : compare n (size vs) ≡ compare (d * 10 ^ pos_part e) (size vs * 10 ^ m) =
      sym (compare-scaled n (size vs) m)
      ∙ ap (λ (a : ℕ). compare a (scaled (size vs) m)) (sym same ∙ scaled_eq d (pos_part e))
      ∙ ap (compare (d * 10 ^ pos_part e)) (scaled_eq (size vs) m) in
    (
      allows comparison (compare (d * 10 ^ pos_part e) (size vs * 10 ^ m)),
      rw (compare_usize-IsExact bound k (size vs) exact small)
          (ap (λ (o : Ordering). some (allows comparison o)) order),
      allows_lem comparison (d * 10 ^ pos_part e) (size vs * 10 ^ m),
    )
