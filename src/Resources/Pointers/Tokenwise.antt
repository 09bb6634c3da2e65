-- ===== src/Resources/Pointers/Tokenwise.antt =====
-- A pointer contains another exactly if its tokens are the first tokens of the other.
use schemaform.Prelude.{
  ◌≡◌, refl, sym, ap, ◌∙◌, inl, inr, Bool, true, false, ◌&&◌, ◌||◌, Option, some, List, [], ◌∷◌,
  ◌++◌, ◌==◌, is_some_and, arith, Bool-cases, Option-cases, &&-eq-true, ◌⊎◌,
}
use schemaform.Prelude.Results.{err, ok_or}
use schemaform.Json.{Text, text_eq}
use schemaform.Json.Laws.{text_eq_iff, text_eq_refl}
use schemaform.Pointer.Walk.{is_prefix}
use schemaform.Pointer.Words.{escape, replace}
use schemaform.Pointer.Tokens.{render, render-append, escape_injective}
use schemaform.Resources.Pointers.{
  invalid_graph, strip_prefix, starts_with_slash, is_empty, pointer_contains, relative_pointer,
}

-- What is left is empty or begins another token.
abbrev is_boundary : Text → Bool
is_boundary s = is_empty s || starts_with_slash s

abbrev bounded : Text → Text → Bool
bounded root target = is_some_and (strip_prefix root target) is_boundary

abbrev HasNoSlash : Text → Type 0
HasNoSlash [] = Unit {0}
HasNoSlash (c ∷ s) = ((c == b'/') ≡ false) × HasNoSlash s

append-HasNoSlash : (s t : Text) → HasNoSlash s → HasNoSlash t → HasNoSlash (s ++ t)
append-HasNoSlash [] t h k = k
append-HasNoSlash (c ∷ s) t h k = (h.0, append-HasNoSlash s t h.1 k)

replace-HasNoSlash : (t : Text) → HasNoSlash (replace b'/' (b'~' ∷ b'1' ∷ []) t)
unfolding replace
replace-HasNoSlash [] = tt
replace-HasNoSlash (c ∷ t) = elim (Bool-cases (c == b'/')) [
  | inl e ↦ rw e (refl, (refl, replace-HasNoSlash t))
  | inr e ↦ rw e (e, replace-HasNoSlash t)
]

escape-HasNoSlash : (t : Text) → HasNoSlash (escape t)
unfolding escape
escape-HasNoSlash t = replace-HasNoSlash (replace b'~' (b'~' ∷ b'0' ∷ []) t)

bounded-append :
    (a b x y : Text)
    → HasNoSlash a
    → HasNoSlash b
    → is_boundary x ≡ true
    → is_boundary y ≡ true
    → bounded (a ++ x) (b ++ y) ≡ (text_eq a b && bounded x y)
unfolding strip_prefix text_eq
bounded-append [] [] x y ha hb hx hy = refl
bounded-append [] (d ∷ b) [] y ha hb hx hy = rw (hb.0) refl
bounded-append [] (d ∷ b) (c ∷ x) y ha hb hx hy = ground (arith, hx, hb.0)
bounded-append (c ∷ a) [] x [] ha hb hx hy = refl
bounded-append (c ∷ a) [] x (d ∷ y) ha hb hx hy = ground (arith, hy, ha.0)
bounded-append (c ∷ a) (d ∷ b) x y ha hb hx hy = elim (Bool-cases (c == d)) [
  | inl e ↦ rw e (bounded-append a b x y ha.1 hb.1 hx hy)
  | inr e ↦ rw e refl
]

text_eq-escape : (t u : Text) → text_eq (escape t) (escape u) ≡ text_eq t u
text_eq-escape t u = elim (Bool-cases (text_eq t u)) [
  | inl e ↦
      let same : escape t ≡ escape u = ap escape ((text_eq_iff t u).0 e) in
      (text_eq_iff (escape t) (escape u)).1 same ∙ sym e
  | inr e ↦ elim (Bool-cases (text_eq (escape t) (escape u))) [
    | inl e' ↦
        let same =
          (text_eq_iff t u).1 (escape_injective t u ((text_eq_iff (escape t) (escape u)).0 e')) in
        absurd (ground (arith, e, same))
    | inr e' ↦ e' ∙ sym e
  ]
]

render-boundary : (p : List Text) → is_boundary (render p) ≡ true
unfolding render
render-boundary [] = refl
render-boundary (t ∷ p) = refl

bounded-render : (p q : List Text) → bounded (render p) (render q) ≡ is_prefix p q
unfolding render strip_prefix
bounded-render [] q = render-boundary q
bounded-render (t ∷ p) [] = refl
bounded-render (t ∷ p) (u ∷ q) =
    bounded-append (escape t) (escape u) (render p) (render q) (escape-HasNoSlash t)
      (escape-HasNoSlash u) (render-boundary p) (render-boundary q)
    ∙ ap (λ (b : Bool). b && bounded (render p) (render q)) (text_eq-escape t u)
    ∙ ap (λ (b : Bool). text_eq t u && b) (bounded-render p q)

strip_prefix-empty : (s t : Text) → strip_prefix s t ≡ some [] → text_eq t s ≡ true
unfolding strip_prefix text_eq
strip_prefix-empty [] t h = ground (arith, h, text_eq_refl t)
strip_prefix-empty (c ∷ s) [] h = ground arith
strip_prefix-empty (c ∷ s) (d ∷ t) h = ground (arith, h, strip_prefix-empty s t)

strip_prefix_self : (s : Text) → strip_prefix s s ≡ some []
unfolding strip_prefix
strip_prefix_self [] = refl
strip_prefix_self (c ∷ s) = ground (arith, strip_prefix_self s)

contains-bounded : (s t : Text) → is_empty s ≡ false → pointer_contains s t ≡ bounded s t
unfolding pointer_contains
contains-bounded s t h = elim (Option-cases (strip_prefix s t)) [
  | inl none_left ↦ elim (Bool-cases (text_eq t s)) [
    | inl e ↦
        let self : strip_prefix s t ≡ some [] =
          ap (strip_prefix s) ((text_eq_iff t s).0 e) ∙ strip_prefix_self s in
        absurd (ground (arith, none_left, self))
    | inr e ↦ rw (e, none_left) refl
  ]
  | inr ([], left) ↦ rw (strip_prefix-empty s t left, left) refl
  | inr (c ∷ rest, left) ↦ elim (Bool-cases (text_eq t s)) [
    | inl e ↦
        let self : strip_prefix s t ≡ some [] =
          ap (strip_prefix s) ((text_eq_iff t s).0 e) ∙ strip_prefix_self s in
        absurd (ground (arith, left, self))
    | inr e ↦ rw (e, left, h) refl
  ]
]

-- One pointer, written out, contains another exactly if its tokens are the first ones of the other.
pub pointer_contains-render :
    (p q : List Text) → pointer_contains (render p) (render q) ≡ is_prefix p q
unfolding render pointer_contains strip_prefix
pointer_contains-render [] q = ground arith
pointer_contains-render (t ∷ p) q =
    contains-bounded (render (t ∷ p)) (render q) refl ∙ bounded-render (t ∷ p) q

strip_prefix-append : (s t : Text) → strip_prefix s (s ++ t) ≡ some t
unfolding strip_prefix
strip_prefix-append [] t = refl
strip_prefix-append (c ∷ s) t = ground (arith, strip_prefix-append s t)

is_prefix_lem : (p q : List Text) → is_prefix p q ≡ true → (r : List Text) × (q ≡ p ++ r)
is_prefix_lem [] q h = (q, refl)
is_prefix_lem (t ∷ p) [] h = absurd (ground arith)
is_prefix_lem (t ∷ p) (u ∷ q) h =
    let (same, rest) = &&-eq-true (text_eq t u) (is_prefix p q) h in
    let (r, split) = is_prefix_lem p q rest in (r, λ i. sym ((text_eq_iff t u).0 same) i ∷ split i)

-- A pointer relative to a root is what is parsed of the tokens that the root leaves of it; the graph is
-- invalid if the tokens of the root are not the first ones of the pointer.
pub relative_pointer-render :
    {P : Type 0} (parse : Text → Option P) (p q : List Text)
    → ((is_prefix p q ≡ true)
        × ((r : List Text) × (q ≡ p ++ r)
            × (relative_pointer parse (render p) (render q)
                ≡ ok_or (parse (render r)) invalid_graph)))
      ⊎ ((is_prefix p q ≡ false)
          × (relative_pointer parse (render p) (render q) ≡ err invalid_graph))
unfolding relative_pointer
relative_pointer-render parse p q = elim (Bool-cases (is_prefix p q)) [
  | inl first ↦
      let (r, split) = is_prefix_lem p q first in
      let written : render q ≡ render p ++ render r = ap render split ∙ render-append p r in
      let left : strip_prefix (render p) (render q) ≡ some (render r) =
        ap (strip_prefix (render p)) written ∙ strip_prefix-append (render p) (render r) in
      let edge = render-boundary r in inl (first, (r, split, rw left (ground (arith, edge))))
  | inr other ↦
      let no_edge : bounded (render p) (render q) ≡ false = bounded-render p q ∙ other in
      let deep : is_empty (render p) ≡ false = nonempty p q other in
      inr (
        other,
        elim (Option-cases (strip_prefix (render p) (render q))) [
          | inl none_left ↦ rw none_left refl
          | inr (s, left) ↦
              let no_edge' : is_boundary s ≡ false = ground (arith, left, no_edge) in
              rw left (ground (arith, no_edge', deep))
        ],
      )
]
  where
    nonempty : (p q : List Text) → is_prefix p q ≡ false → is_empty (render p) ≡ false
    nonempty [] q h = absurd (ground arith)
    nonempty (t ∷ p) q h = unfold render in refl
