-- ===== src/Validation/Cardinality/Exact.antt =====
-- The comparison of a bound whose digits are in order with a length.
use Prim.Native.Nat.{compare, Ordering}
use schemaform.Prelude.{
  ℕ, zero, suc, ◌+◌, ◌-◌, ◌^◌, ◌<◌, ◌≡◌, refl, ap, ◌∙◌, ◌⊎◌, inl, inr, false, some, [], ◌∷◌, ◌++◌,
  length, length-append, ltb, arith, Bool-cases,
}
use schemaform.Prelude.Int.{pos}
use schemaform.Json.{Text, text_eq, text_cmp}
use schemaform.Number.Syntax.{replicate}
use schemaform.Pointer.Words.{to_string}
use schemaform.Validation.Cardinality.{ExactNonnegativeInteger, to_usize, compare_usize}
use schemaform.Validation.Cardinality.Digits.{
  AreDigits, Leads, value_from, scaled, value_from-append, value_from-replicate, shorter-lt,
  text_cmp-compare, to_string-AreDigits, to_string-Leads, value-to_string, length-to_string,
}

length-replicate : (n c : ℕ) → length (replicate n c) ≡ n
unfolding replicate
length-replicate zero c = refl
length-replicate (suc n) c = ap suc (length-replicate n c)

replicate-AreDigits : (n : ℕ) → AreDigits (replicate n b'0')
unfolding replicate
replicate-AreDigits zero = tt
replicate-AreDigits (suc n) = (omega arith, omega arith, replicate-AreDigits n)

append-AreDigits : (s t : Text) → AreDigits s → AreDigits t → AreDigits (s ++ t)
append-AreDigits [] t hs ht = ht
append-AreDigits (c ∷ s) t hs ht = (hs.0, hs.1, append-AreDigits s t hs.2 ht)

append-Leads : (s t : Text) → Leads s → Leads (s ++ t)
append-Leads [] t h = absurd h
append-Leads (c ∷ s) t h = h

Leads-positive : (s : Text) → Leads s → 0 < length s
Leads-positive [] h = absurd h
Leads-positive (c ∷ s) h = omega arith

Leads-nonzero : (s : Text) → Leads s → text_eq s (b'0' ∷ []) ≡ false
unfolding text_eq
Leads-nonzero [] h = absurd h
Leads-nonzero (c ∷ s) h = ground arith

-- Digits with their zeros behind them, and a number written out, compare as numbers do.
digits-compare :
    (s : Text) (n : ℕ)
    → AreDigits s
    → Leads s
    → elim (compare (length s) (length (to_string n))) [
      | Ordering.eq ↦ text_cmp s (to_string n)
      | Ordering.lt ↦ Ordering.lt
      | Ordering.gt ↦ Ordering.gt
    ]
      ≡ compare (value_from 0 s) n
digits-compare s n hs lead =
    let digits = to_string-AreDigits n in
    let back = value-to_string n in
    elim (Bool-cases (ltb (length s) (length (to_string n)))) [
      | inl less ↦
          let positive : 0 < n = elim (Bool-cases (ltb 0 n)) [
            | inl e ↦ ground arith
            | inr e ↦ absurd (ground (arith, length-to_string n, Leads-positive s lead))
          ] in
          let below = shorter-lt s (to_string n) hs (to_string-Leads n positive) (ground arith) in
          ground (arith, below, back)
      | inr no_less ↦ elim (Bool-cases (ltb (length (to_string n)) (length s))) [
        | inl more ↦
            let above = shorter-lt (to_string n) s digits lead (ground arith) in
            ground (arith, above, back)
        | inr no_more ↦
            let width : length s ≡ length (to_string n) = ground arith in
            ground (arith, text_cmp-compare 0 s (to_string n) hs digits width, back)
      ]
    ]

-- The digits of a bound are in order: the text "0", or digits with no zero in front.
abbrev pub IsExact : ExactNonnegativeInteger → ℕ → Type 0
IsExact bound k =
    ((bound.significant_digits ≡ b'0' ∷ []) × (k ≡ 0) × (bound.scale ≡ pos 0))
    ⊎ (AreDigits bound.significant_digits × Leads bound.significant_digits × (bound.scale ≡ pos k))

pub compare_usize-IsExact :
    (bound : ExactNonnegativeInteger) (k n : ℕ)
    → IsExact bound k
    → n < 2 ^ 64 - 1
    → compare_usize bound n ≡ some (compare (scaled (value_from 0 bound.significant_digits) k) n)
unfolding compare_usize to_usize text_eq value_from scaled
compare_usize-IsExact bound k n (inl (e, e', e'')) h = rw (e, e') (ground arith)
compare_usize-IsExact bound k n (inr (digits, lead, e)) h =
    let s : Text = bound.significant_digits ++ replicate k b'0' in
    let same : value_from 0 s ≡ scaled (value_from 0 bound.significant_digits) k =
      value_from-append 0 bound.significant_digits (replicate k b'0')
      ∙ value_from-replicate (value_from 0 bound.significant_digits) k in
    let width : length s ≡ length bound.significant_digits + k =
      length-append bound.significant_digits (replicate k b'0')
      ∙ ap (λ (m : ℕ). length bound.significant_digits + m) (length-replicate k b'0') in
    let compared =
      digits-compare s n
        (append-AreDigits bound.significant_digits (replicate k b'0') digits
          (replicate-AreDigits k))
        (append-Leads bound.significant_digits (replicate k b'0') lead) in
    rw (e, Leads-nonzero bound.significant_digits lead)
      (ground (arith, same, width, compared, length-to_string n))
