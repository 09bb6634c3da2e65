-- ===== src/Examples/Pointers.antt =====
-- JSON Pointers as lists of tokens, written and read as RFC 6901 says. They meet `JsonPtr`.
use mathlib.Core.Option
use schemaform.Prelude.{
  ℕ, ◌≡◌, refl, sym, ap, ◌∙◌, Option, none, some, List, [], ◌∷◌, ◌++◌, true, if◌then◌else◌, arith,
  ◌⊎◌, inl, inr,
}
use schemaform.Json.{Text, text_eq}
use schemaform.Json.Laws.{text_eq_iff, text_eq_refl}
use schemaform.Pointer.Tokens.{
  render, parse_tokens, parse-render, render-parse, render-append, append_nil,
}
use schemaform.Validation.Cardinality.Digits.{value_from, value-to_string}
use schemaform.Pointer.{JsonPtr}
use schemaform.Pointer.Walk.{walk, store, is_prefix}
use schemaform.Pointer.Words.{escape, to_string}

-- A number in the digits that `to_string` writes.
pub index_of : Text → Option ℕ
unfolding value_from
index_of s = if text_eq (to_string (value_from 0 s)) s then some (value_from 0 s) else none

pub index_of_injective : (s t : Text) (i : ℕ) → index_of s ≡ some i → index_of t ≡ some i → s ≡ t
unfolding index_of
index_of_injective s t i h k =
    let n = value_from 0 s in
    let m = value_from 0 t in
    let same : n ≡ i = ground arith in
    let same' : m ≡ i = ground arith in
    let left : text_eq (to_string n) s ≡ true = ground arith in
    let right : text_eq (to_string m) t ≡ true = ground arith in
    sym ((text_eq_iff (to_string n) s).0 left)
    ∙ ap to_string (same ∙ sym same')
    ∙ (text_eq_iff (to_string m) t).0 right

pub index_of-to_string : (i : ℕ) → index_of (to_string i) ≡ some i
unfolding index_of
index_of-to_string i = rw (value-to_string i, text_eq_refl (to_string i))

abbrev pub last : List Text → Option (List Text × Text)
last [] = none
last (t ∷ []) = some ([], t)
last (t ∷ u ∷ ts) = Option.map (λ (r : List Text × Text). (t ∷ r.0, r.1)) (last (u ∷ ts))

abbrev Splits : List Text → Type 0
Splits p =
    ((p ≡ []) × (last p ≡ none))
    ⊎ ((q : List Text) × (t : Text) × (last p ≡ some (q, t)) × (p ≡ q ++ t ∷ []))

pub splits : (p : List Text) → Splits p
splits [] = inl (refl, refl)
splits (t ∷ []) = inr ([], t, refl, refl)
splits (t ∷ u ∷ ts) = elim (splits (u ∷ ts)) [
  | inl (e, _) ↦ absurd (ground arith)
  | inr (q, v, e, split) ↦ inr (t ∷ q, v, ground arith, ap (◌∷◌ t) split)
]

pub parse-push :
    (p : List Text) (t : Text) → parse_tokens (render p ++ b'/' ∷ escape t) ≡ some (p ++ t ∷ [])
unfolding render
parse-push p t =
    ap (λ (s : Text). parse_tokens (render p ++ b'/' ∷ s)) (sym (append_nil (escape t)))
    ∙ ap parse_tokens (sym (render-append p (t ∷ [])))
    ∙ parse-render (p ++ t ∷ [])

abbrev pub token_pointers : JsonPtr
token_pointers = record {
  PointerBuf = List Text;
  root = [];
  parse = parse_tokens;
  as_str = render;
  tokens = λ p. p;
  to_index = index_of;
  resolve = walk index_of;
  resolve_mut = λ p d. Option.map (λ v. (v, λ w. store index_of p w d)) (walk index_of p d);
  split_back = last;
  starts_with = λ p q. is_prefix q p;
  root_lem = refl;
  parse-as_str = parse-render;
  as_str-parse = render-parse;
  to_index_injective = index_of_injective;
  resolve_lem = λ p d. refl;
  resolve_mut_lem = λ p d. refl;
  split_back_lem = splits;
  starts_with_lem = λ p q. refl;
  parse_push = λ p t. (p ++ t ∷ [], parse-push p t, refl);
  parse_join =
      λ p q. (p ++ q, ap parse_tokens (sym (render-append p q)) ∙ parse-render (p ++ q), refl);
  to_index-to_string = index_of-to_string;
}
