-- ===== src/Pointer/Tokens.antt =====
-- JSON Pointers as lists of tokens, written and read as RFC 6901 says.
use mathlib.Core.List.{append_assoc}
use mathlib.Core.Option
use schemaform.Prelude.{
  ℕ, ◌≡◌, refl, sym, ap, ◌∙◌, Option, none, some, List, [], ◌∷◌, ◌++◌, false, ◌==◌, ==_iff,
  if◌then◌else◌, arith, inl, inr, Option-cases, Bool-cases,
}
use schemaform.Json.{Text}
use schemaform.Pointer.Words.{escape, replace}

unfoldable pub render : List Text → Text
render [] = []
render (t ∷ ts) = b'/' ∷ (escape t ++ render ts)

abbrev Rest : Type 0
Rest = Option (Text × List Text)

abbrev prepend : ℕ → Rest → Rest
prepend c none = none
prepend c (some (t, ts)) = some (c ∷ t, ts)

abbrev begin : Rest → Rest
begin none = none
begin (some (t, ts)) = some ([], t ∷ ts)

-- A token, unescaped, and the tokens behind it.
pub read : Text → Rest
read [] = some ([], [])
read (c ∷ []) =
    if c == b'~' then none else if c == b'/' then begin (read []) else prepend c (read [])
read (c ∷ d ∷ s) =
    let short = read s in
    let long = read (d ∷ s) in
    if c == b'~'
    then (if d == b'0' then prepend b'~' short else if d == b'1' then prepend b'/' short else none)
    else if c == b'/'
    then begin long
    else prepend c long

pub parse_tokens : Text → Option (List Text)
parse_tokens [] = some []
parse_tokens (c ∷ s) =
    if c == b'/' then Option.map (λ (r : Text × List Text). r.0 ∷ r.1) (read s) else none

abbrev prepend_all : Text → Rest → Rest
prepend_all [] r = r
prepend_all (c ∷ t) r = prepend c (prepend_all t r)

read_plain :
    (c : ℕ) (s : Text)
    → (c == b'~') ≡ false
    → (c == b'/') ≡ false
    → read (c ∷ s) ≡ prepend c (read s)
unfolding read
read_plain c [] h k = ground arith
read_plain c (d ∷ s) h k = ground arith

read_slash : (s : Text) → read (b'/' ∷ s) ≡ begin (read s)
unfolding read
read_slash [] = refl
read_slash (d ∷ s) = refl

read-escape : (t s : Text) → read (escape t ++ s) ≡ prepend_all t (read s)
unfolding escape replace read
read-escape [] s = refl
read-escape (c ∷ t) s = elim (Bool-cases (c == b'~')) [
  | inl e ↦ ground (arith, read-escape t s)
  | inr e ↦ elim (Bool-cases (c == b'/')) [
    | inl e' ↦ ground (arith, read-escape t s)
    | inr e' ↦ ground (arith, read_plain c (escape t ++ s) e e', read-escape t s)
  ]
]

prepend_all-some : (t u : Text) (ts : List Text) → prepend_all t (some (u, ts)) ≡ some (t ++ u, ts)
prepend_all-some [] u ts = refl
prepend_all-some (c ∷ t) u ts = ground (arith, prepend_all-some t u ts)

pub append_nil : (t : Text) → t ++ [] ≡ t
append_nil [] = refl
append_nil (c ∷ t) = ap (◌∷◌ c) (append_nil t)

read-render : (t : Text) (ts : List Text) → read (escape t ++ render ts) ≡ some (t, ts)
unfolding read render
read-render t [] = ground (arith, read-escape t [], prepend_all-some t [] [], append_nil t)
read-render t (u ∷ ts) = ground (
  arith,
  read-escape t (render (u ∷ ts)),
  read_slash (escape u ++ render ts),
  read-render u ts,
  prepend_all-some t [] (u ∷ ts),
  append_nil t,
)

pub parse-render : (ts : List Text) → parse_tokens (render ts) ≡ some ts
unfolding parse_tokens render
parse-render [] = refl
parse-render (t ∷ ts) = ground (arith, read-render t ts)

abbrev Reads : Text → Rest → Type 0
Reads s none = Unit {0}
Reads s (some (t, ts)) = escape t ++ render ts ≡ s

Reads-begin : (s : Text) (r : Rest) → Reads s r → Reads (b'/' ∷ s) (begin r)
unfolding escape replace render
Reads-begin s none h = tt
Reads-begin s (some (t, ts)) h = ap (◌∷◌ b'/') h

Reads-plain :
    (c : ℕ) (s : Text) (r : Rest)
    → (c == b'~') ≡ false
    → (c == b'/') ≡ false
    → Reads s r
    → Reads (c ∷ s) (prepend c r)
unfolding escape replace
Reads-plain c s none e e' h = tt
Reads-plain c s (some (t, ts)) e e' h = ground arith

Reads-tilde : (s : Text) (r : Rest) → Reads s r → Reads (b'~' ∷ b'0' ∷ s) (prepend b'~' r)
unfolding escape replace
Reads-tilde s none h = tt
Reads-tilde s (some (t, ts)) h = ground arith

Reads-slash : (s : Text) (r : Rest) → Reads s r → Reads (b'~' ∷ b'1' ∷ s) (prepend b'/' r)
unfolding escape replace
Reads-slash s none h = tt
Reads-slash s (some (t, ts)) h = ground arith

read-Reads : (s : Text) → Reads s (read s)
unfolding read escape replace render
read-Reads [] = refl
read-Reads (c ∷ []) = elim (Bool-cases (c == b'~')) [
  | inl e ↦ rw e tt
  | inr e ↦ elim (Bool-cases (c == b'/')) [
    | inl e' ↦ ground (arith, Reads-begin [] (read []) refl)
    | inr e' ↦ rw (e, e') (Reads-plain c [] (read []) e e' refl)
  ]
]
read-Reads (c ∷ d ∷ s) = elim (Bool-cases (c == b'~')) [
  | inl e ↦
      let tilde : c ≡ b'~' = (==_iff c b'~').0 e in
      elim (Bool-cases (d == b'0')) [
        | inl z ↦
            let zero' : d ≡ b'0' = (==_iff d b'0').0 z in
            rw (tilde, zero') (Reads-tilde s (read s) (read-Reads s))
        | inr z ↦ elim (Bool-cases (d == b'1')) [
          | inl o ↦
              let one : d ≡ b'1' = (==_iff d b'1').0 o in
              rw (tilde, one) (Reads-slash s (read s) (read-Reads s))
          | inr o ↦ rw (e, z, o) tt
        ]
      ]
  | inr e ↦ elim (Bool-cases (c == b'/')) [
    | inl e' ↦
        let slash : c ≡ b'/' = (==_iff c b'/').0 e' in
        rw slash (Reads-begin (d ∷ s) (read (d ∷ s)) (read-Reads (d ∷ s)))
    | inr e' ↦ rw (e, e') (Reads-plain c (d ∷ s) (read (d ∷ s)) e e' (read-Reads (d ∷ s)))
  ]
]

pub render-parse : (s : Text) (p : List Text) → parse_tokens s ≡ some p → render p ≡ s
unfolding parse_tokens render
render-parse [] p h = ground arith
render-parse (c ∷ s) p h = elim (Option-cases (read s)) [
  | inl e ↦ absurd (ground (arith, e))
  | inr ((t, ts), e) ↦ let back = read-Reads s in ground (arith, e, rw e at back)
]

pub render-append : (p q : List Text) → render (p ++ q) ≡ render p ++ render q
unfolding render
render-append [] q = refl
render-append (t ∷ p) q =
    ap (◌∷◌ b'/') (rw (render-append p q) (sym (append_assoc (escape t) (render p) (render q))))

-- Two tokens are escaped alike only if they are the same.
pub escape_injective : (t u : Text) → escape t ≡ escape u → t ≡ u
unfolding render
escape_injective t u e =
    let same : some (t, []) ≡ some (u, []) =
      sym (read-render t []) ∙ ap (λ (s : Text). read (s ++ [])) e ∙ read-render u [] in
    ap (λ (p : Text × List Text). p.0) (Option.some-injective _ _ same)
