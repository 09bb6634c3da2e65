-- ===== src/Resources/Fragments/Encoding.antt =====
-- Percent-encoding, as RFC 3986 says, and that the fragments are decoded by it.
use mathlib.Core.Option
use schemaform.Prelude.{
  ℕ, ◌+◌, ◌*◌, ◌≤◌, ◌<◌, ◌≡◌, ◌≢◌, refl, sym, ◌∙◌, ◌⊎◌, ◌↔◌, inl, inr, Option, true, false, ◌&&◌,
  leb, none, some, [], ◌∷◌, ◌==◌, arith, Bool-cases, Option-cases,
}
use schemaform.Json.{Text}
use schemaform.Resources.Fragments.{hex_value, decode_bytes, is_utf8, decode_uri_fragment}

-- The digit stands for the number, as a letter of either case from ten on.
abbrev pub IsHexDigit : ℕ → ℕ → Type 0
IsHexDigit digit n =
    ((n < 10) × (digit ≡ b'0' + n))
    ⊎ ((10 ≤ n) × (n < 16) × ((digit + 10 ≡ b'a' + n) ⊎ (digit + 10 ≡ b'A' + n)))

-- A byte stands for itself, unless it is the percent sign, or is written with two digits.
abbrev pub Encodes : Text → Text → Type 0
Encodes [] t = t ≡ []
Encodes (c ∷ s) t =
    (rest : Text) × Encodes s rest
    × (((c ≢ b'%') × (t ≡ c ∷ rest))
        ⊎ ((d e high low : ℕ) × (t ≡ b'%' ∷ d ∷ e ∷ rest)
            × IsHexDigit d high
            × IsHexDigit e low
            × (c ≡ high * 16 + low)))

hex_value-IsHexDigit : (d n : ℕ) → hex_value d ≡ some n → IsHexDigit d n
unfolding hex_value
hex_value-IsHexDigit d n h = elim (Bool-cases (leb b'0' d && leb d b'9')) [
  | inl digit ↦ inl (ground arith, ground arith)
  | inr e ↦ elim (Bool-cases (leb b'a' d && leb d b'f')) [
    | inl lower ↦ inr (ground arith, ground arith, inl (ground arith))
    | inr e' ↦ inr (ground arith, ground arith, inr (ground arith))
  ]
]

IsHexDigit-hex_value : (d n : ℕ) → IsHexDigit d n → hex_value d ≡ some n
unfolding hex_value
IsHexDigit-hex_value d n (inl h) = ground arith
IsHexDigit-hex_value d n (inr (a, b, inl h)) = ground arith
IsHexDigit-hex_value d n (inr (a, b, inr h)) = ground arith

decode_plain :
    (c : ℕ) (s : Text)
    → (c == b'%') ≡ false
    → decode_bytes (c ∷ s) ≡ Option.map (◌∷◌ c) (decode_bytes s)
unfolding decode_bytes
decode_plain c [] h = rw h refl
decode_plain c (d ∷ []) h = ground (arith, h)
decode_plain c (d ∷ e ∷ s) h = ground (arith, h)

Encodes-decode_bytes : (s t : Text) → Encodes s t → decode_bytes t ≡ some s
unfolding decode_bytes
Encodes-decode_bytes [] t h = rw h refl
Encodes-decode_bytes (c ∷ s) t (rest, encodes, inl (other, e)) =
    rw (e, decode_plain c rest (ground arith), Encodes-decode_bytes s rest encodes) refl
Encodes-decode_bytes (c ∷ s) t (rest, encodes, inr (d, e, high, low, split, hd, he, whole)) =
    rw
      (
        split,
        IsHexDigit-hex_value d high hd,
        IsHexDigit-hex_value e low he,
        Encodes-decode_bytes s rest encodes,
        whole,
      )
      refl

-- What a map over an optional text leaves.
map_∷-some :
    (c : ℕ) (o : Option Text) (s : Text)
    → Option.map (◌∷◌ c) o ≡ some s
    → (rest : Text) × (o ≡ some rest) × (s ≡ c ∷ rest)
map_∷-some c none s h = absurd (ground arith)
map_∷-some c (some rest) s h = (rest, refl, ground arith)

plain-Encodes :
    (c : ℕ) (t s : Text)
    → (c == b'%') ≡ false
    → ((rest : Text) → decode_bytes t ≡ some rest → Encodes rest t)
    → decode_bytes (c ∷ t) ≡ some s
    → Encodes s (c ∷ t)
plain-Encodes c t s other below h =
    let (rest, e, same) = map_∷-some c (decode_bytes t) s (sym (decode_plain c t other) ∙ h) in
    rw same (t, below rest e, inl (ground arith, refl))

decode_bytes-Encodes : (t s : Text) → decode_bytes t ≡ some s → Encodes s t
unfolding decode_bytes
decode_bytes-Encodes [] s h = let e : s ≡ [] = ground arith in rw e refl
decode_bytes-Encodes (c ∷ []) s h = elim (Bool-cases (c == b'%')) [
  | inl percent ↦ absurd (ground (arith, percent))
  | inr other ↦ plain-Encodes c [] s other (decode_bytes-Encodes []) h
]
decode_bytes-Encodes (c ∷ d ∷ []) s h = elim (Bool-cases (c == b'%')) [
  | inl percent ↦ absurd (ground (arith, percent))
  | inr other ↦ plain-Encodes c (d ∷ []) s other (decode_bytes-Encodes (d ∷ [])) h
]
decode_bytes-Encodes (c ∷ d ∷ e ∷ t) s h = elim (Bool-cases (c == b'%')) [
  | inr other ↦ plain-Encodes c (d ∷ e ∷ t) s other (decode_bytes-Encodes (d ∷ e ∷ t)) h
  | inl percent ↦ elim (Option-cases (hex_value d)) [
    | inl none' ↦ absurd (ground (arith, percent, none'))
    | inr (high, hd) ↦ elim (Option-cases (hex_value e)) [
      | inl none' ↦ absurd (ground (arith, percent, hd, none'))
      | inr (low, he) ↦
          let (rest, below, same) =
            map_∷-some (high * 16 + low) (decode_bytes t) s (ground (arith, percent, hd, he)) in
          let sign : c ≡ b'%' = ground arith in
          rw (same, sign)
            (
              t,
              decode_bytes-Encodes t rest below,
              inr (
                d,
                e,
                high,
                low,
                refl,
                hex_value-IsHexDigit d high hd,
                hex_value-IsHexDigit e low he,
                refl,
              ),
            )
    ]
  ]
]

-- A fragment is decoded to a text exactly if it is a percent-encoding of the text, with hex digits of
-- either case and any bytes but the percent sign left as they are, and the text is in UTF-8.
pub decode_uri_fragment-Encodes :
    (fragment s : Text)
    → (decode_uri_fragment fragment ≡ some s) ↔ (Encodes s fragment × (is_utf8 s ≡ true))
unfolding decode_uri_fragment
decode_uri_fragment-Encodes fragment s = (
  (λ h. elim (Option-cases (decode_bytes fragment)) [
    | inl lost ↦ absurd (ground (arith, lost))
    | inr (t, e) ↦ elim (Bool-cases (is_utf8 t)) [
      | inr bad ↦ absurd (ground (arith, e, bad))
      | inl good ↦
          let same : t ≡ s = ground (arith, e, good) in
          rw (← same) (decode_bytes-Encodes fragment t e, good)
    ]
  ]),
  (λ h. rw (Encodes-decode_bytes s fragment h.0, h.1) refl),
)
