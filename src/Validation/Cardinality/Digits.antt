-- ===== src/Validation/Cardinality/Digits.antt =====
-- Decimal digits and the numbers they write.
use Prim.Native.Nat.{compare}
use schemaform.Prelude.{
  ℕ, zero, suc, ◌+◌, ◌-◌, ◌*◌, ◌/◌, ◌%◌, ◌<◌, ◌≤◌, ◌≡◌, refl, ap, ◌∙◌, inl, inr, [], ◌∷◌, ◌++◌,
  length, ltb, arith, Bool-cases,
}
use schemaform.Json.{Text, text_cmp}
use schemaform.Number.Syntax.{replicate}
use schemaform.Pointer.Words.{digits_from, to_string}

abbrev pub AreDigits : Text → Type 0
AreDigits [] = Unit {0}
AreDigits (c ∷ s) = (b'0' ≤ c) × (c ≤ b'9') × AreDigits s

unfoldable pub value_from : ℕ → Text → ℕ
value_from n [] = n
value_from n (c ∷ s) = value_from (n * 10 + (c - b'0')) s

-- n · 10 ^ k
unfoldable pub scaled : ℕ → ℕ → ℕ
scaled n zero = n
scaled n (suc k) = scaled (n * 10) k

scaled_mono : (n m k : ℕ) → n ≤ m → scaled n k ≤ scaled m k
unfolding scaled
scaled_mono n m zero h = h
scaled_mono n m (suc k) h = scaled_mono (n * 10) (m * 10) k (omega arith)

scaled_lt : (n m k : ℕ) → n < m → scaled n k < scaled m k
unfolding scaled
scaled_lt n m zero h = h
scaled_lt n m (suc k) h = scaled_lt (n * 10) (m * 10) k (omega arith)

pub compare-scaled : (n m k : ℕ) → compare (scaled n k) (scaled m k) ≡ compare n m
unfolding scaled
compare-scaled n m zero = refl
compare-scaled n m (suc k) = compare-scaled (n * 10) (m * 10) k ∙ ground arith

pub scaled_add : (n j k : ℕ) → scaled n (j + k) ≡ scaled (scaled n j) k
unfolding scaled
scaled_add n zero k = let shift : 0 + k ≡ k = omega arith in ap (scaled n) shift
scaled_add n (suc j) k =
    let shift : suc j + k ≡ suc (j + k) = omega arith in
    ap (scaled n) shift ∙ scaled_add (n * 10) j k

scaled_mono_right : (n k j : ℕ) → k ≤ j → scaled n k ≤ scaled n j
unfolding scaled
scaled_mono_right n zero zero h = omega arith
scaled_mono_right n zero (suc j) h =
    let up = scaled_mono_right n zero j (omega arith) in
    let grow = scaled_mono n (n * 10) j (omega arith) in omega arith
scaled_mono_right n (suc k) zero h = absurd (omega arith)
scaled_mono_right n (suc k) (suc j) h = scaled_mono_right (n * 10) k j (omega arith)

pub value_from-append : (n : ℕ) (s t : Text) → value_from n (s ++ t) ≡ value_from (value_from n s) t
unfolding value_from
value_from-append n [] t = refl
value_from-append n (c ∷ s) t = value_from-append (n * 10 + (c - b'0')) s t

pub value_from-replicate : (n k : ℕ) → value_from n (replicate k b'0') ≡ scaled n k
unfolding value_from replicate scaled
value_from-replicate n zero = refl
value_from-replicate n (suc k) =
    let digit : n * 10 + (b'0' - b'0') ≡ n * 10 = omega arith in
    ap (λ (m : ℕ). value_from m (replicate k b'0')) digit ∙ value_from-replicate (n * 10) k

value_lower : (n : ℕ) (s : Text) → scaled n (length s) ≤ value_from n s
unfolding value_from scaled
value_lower n [] = omega arith
value_lower n (c ∷ s) =
    let below = value_lower (n * 10 + (c - b'0')) s in
    let step = scaled_mono (n * 10) (n * 10 + (c - b'0')) (length s) (omega arith) in omega arith

value_upper : (n : ℕ) (s : Text) → AreDigits s → value_from n s < scaled (suc n) (length s)
unfolding value_from scaled
value_upper n [] h = omega arith
value_upper n (c ∷ s) h =
    let above = value_upper (n * 10 + (c - b'0')) s h.2 in
    let step = scaled_mono (suc (n * 10 + (c - b'0'))) (suc n * 10) (length s) (omega arith) in
    omega arith

-- Texts of the same length are in the order of their numbers.
pub text_cmp-compare :
    (n : ℕ) (s t : Text)
    → AreDigits s
    → AreDigits t
    → length s ≡ length t
    → text_cmp s t ≡ compare (value_from n s) (value_from n t)
unfolding text_cmp value_from
text_cmp-compare n [] [] hs ht e = ground arith
text_cmp-compare n [] (d ∷ t) hs ht e = absurd (omega arith)
text_cmp-compare n (c ∷ s) [] hs ht e = absurd (omega arith)
text_cmp-compare n (c ∷ s) (d ∷ t) hs ht e = elim (Bool-cases (ltb c d)) [
  | inl less ↦
      let low = value_upper (n * 10 + (c - b'0')) s hs.2 in
      let mid =
        scaled_mono (suc (n * 10 + (c - b'0'))) (n * 10 + (d - b'0')) (length s) (ground arith) in
      let high = value_lower (n * 10 + (d - b'0')) t in
      let width : scaled (n * 10 + (d - b'0')) (length s)
          ≡ scaled (n * 10 + (d - b'0')) (length t) =
        ap (scaled (n * 10 + (d - b'0'))) (omega arith) in
      ground (arith, width)
  | inr same_or_more ↦ elim (Bool-cases (ltb d c)) [
    | inl more ↦
        let low = value_upper (n * 10 + (d - b'0')) t ht.2 in
        let mid =
          scaled_mono (suc (n * 10 + (d - b'0'))) (n * 10 + (c - b'0')) (length t) (ground arith) in
        let high = value_lower (n * 10 + (c - b'0')) s in
        let width : scaled (n * 10 + (c - b'0')) (length s)
            ≡ scaled (n * 10 + (c - b'0')) (length t) =
          ap (scaled (n * 10 + (c - b'0'))) (omega arith) in
        ground (arith, width)
    | inr neither ↦
        let same : c ≡ d = ground arith in
        let rest = text_cmp-compare (n * 10 + (d - b'0')) s t hs.2 ht.2 (omega arith) in
        rw same (ground (arith, rest))
  ]
]

-- at least one digit, the first not zero
abbrev pub Leads : Text → Type 0
Leads [] = ⊥
Leads (c ∷ s) = b'0' < c

-- A leading digit of a longer text outweighs a shorter text.
pub shorter-lt :
    (s t : Text) → AreDigits s → Leads t → length s < length t → value_from 0 s < value_from 0 t
unfolding value_from scaled
shorter-lt s [] hs lead h = absurd lead
shorter-lt s (c ∷ t) hs lead h =
    let low = value_upper 0 s hs in
    let widths = scaled_mono_right 1 (length s) (length t) (omega arith) in
    let step = scaled_mono 1 (0 * 10 + (c - b'0')) (length t) (omega arith) in
    let high = value_lower (0 * 10 + (c - b'0')) t in omega arith

digits_from-AreDigits :
    (fuel n : ℕ) (rest : Text) → AreDigits rest → AreDigits (digits_from fuel n rest)
unfolding digits_from
digits_from-AreDigits zero n rest h = h
digits_from-AreDigits (suc fuel) n rest h = elim (Bool-cases (ltb n 10)) [
  | inl e ↦ rw e (omega arith, ground arith, h)
  | inr e ↦
      rw e
        (digits_from-AreDigits fuel (n / 10) ((b'0' + n % 10) ∷ rest) (omega arith, omega arith, h))
]

digits_from-Leads : (fuel n : ℕ) (rest : Text) → n < fuel → 0 < n → Leads (digits_from fuel n rest)
unfolding digits_from
digits_from-Leads zero n rest h some_digit = absurd (omega arith)
digits_from-Leads (suc fuel) n rest h some_digit = elim (Bool-cases (ltb n 10)) [
  | inl e ↦ rw e (omega arith)
  | inr e ↦
      rw e (digits_from-Leads fuel (n / 10) ((b'0' + n % 10) ∷ rest) (omega arith) (ground arith))
]

digits_from_value :
    (fuel n : ℕ) (rest : Text)
    → n < fuel
    → value_from 0 (digits_from fuel n rest) ≡ value_from n rest
unfolding digits_from value_from
digits_from_value zero n rest h = absurd (omega arith)
digits_from_value (suc fuel) n rest h = elim (Bool-cases (ltb n 10)) [
  | inl e ↦
      let digit : 0 * 10 + (b'0' + n - b'0') ≡ n = omega arith in
      ground (arith, ap (λ (m : ℕ). value_from m rest) digit)
  | inr e ↦
      let digit : n / 10 * 10 + (b'0' + n % 10 - b'0') ≡ n = omega arith in
      ground (
        arith,
        digits_from_value fuel (n / 10) ((b'0' + n % 10) ∷ rest),
        ap (λ (m : ℕ). value_from m rest) digit,
      )
]

length-digits_from :
    (fuel n : ℕ) (rest : Text) → length (digits_from fuel n rest) ≤ length rest + n + 1
unfolding digits_from
length-digits_from zero n rest = omega arith
length-digits_from (suc fuel) n rest =
    ground (arith, length-digits_from fuel (n / 10) ((b'0' + n % 10) ∷ rest))

pub to_string-AreDigits : (n : ℕ) → AreDigits (to_string n)
unfolding to_string
to_string-AreDigits n = digits_from-AreDigits (suc n) n [] tt

pub to_string-Leads : (n : ℕ) → 0 < n → Leads (to_string n)
unfolding to_string
to_string-Leads n h = digits_from-Leads (suc n) n [] (omega arith) h

pub value-to_string : (n : ℕ) → value_from 0 (to_string n) ≡ n
unfolding to_string value_from
value-to_string n = digits_from_value (suc n) n [] (omega arith)

pub length-to_string : (n : ℕ) → length (to_string n) ≤ n + 1
unfolding to_string
length-to_string n = omega (arith, length-digits_from (suc n) n [])
