-- ===== src/Pointer/Paths.antt =====
-- How two lists of tokens can lie to each other.
use schemaform.Prelude.{
  ◌≡◌, refl, ◌⊎◌, inl, inr, List, [], ◌∷◌, ◌++◌, true, false, arith, Bool-cases,
}
use schemaform.Json.{Text, text_eq}
use schemaform.Json.Laws.{text_eq_iff, text_eq_refl}
use schemaform.Pointer.Walk.{is_prefix}

pub is_prefix-append : (ps us : List Text) → is_prefix ps (ps ++ us) ≡ true
is_prefix-append [] us = refl
is_prefix-append (p ∷ ps) us = ground (arith, text_eq_refl p, is_prefix-append ps us)

is_prefix_refl : (ps : List Text) → is_prefix ps ps ≡ true
is_prefix_refl [] = refl
is_prefix_refl (p ∷ ps) = ground (arith, text_eq_refl p, is_prefix_refl ps)

pub is_prefix-push :
    (ps us : List Text) (t u : Text) → is_prefix (ps ++ t ∷ []) (ps ++ u ∷ us) ≡ text_eq t u
is_prefix-push [] us t u = ground arith
is_prefix-push (p ∷ ps) us t u = ground (arith, text_eq_refl p, is_prefix-push ps us t u)

pub is_prefix_trans :
    (ps us vs : List Text)
    → is_prefix ps us ≡ true
    → is_prefix us vs ≡ true
    → is_prefix ps vs ≡ true
is_prefix_trans [] us vs h k = refl
is_prefix_trans (p ∷ ps) [] vs h k = ground arith
is_prefix_trans (p ∷ ps) (u ∷ us) [] h k = ground arith
is_prefix_trans (p ∷ ps) (u ∷ us) (v ∷ vs) h k =
    ground (arith, text_eq_iff p u, text_eq_iff u v, text_eq_iff p v, is_prefix_trans ps us vs)

-- One is above the other, or they part.
abbrev Lie : List Text → List Text → Type 0
Lie ps us =
    ((rest : List Text) × (ps ≡ us ++ rest))
    ⊎ ((u : Text) × (rest : List Text) × (us ≡ ps ++ u ∷ rest))
    ⊎ ((is_prefix ps us ≡ false) × (is_prefix us ps ≡ false))

Lie-cons : (p u : Text) (ps us : List Text) → text_eq p u ≡ true → Lie ps us → Lie (p ∷ ps) (u ∷ us)
Lie-cons p u ps us e (inl (rest, h)) = inl (rest, ground (arith, text_eq_iff p u))
Lie-cons p u ps us e (inr (inl (v, rest, h))) = inr (inl (v, rest, ground (arith, text_eq_iff p u)))
Lie-cons p u ps us e (inr (inr h)) = inr (inr (ground arith, ground arith))

pub lie : (ps us : List Text) → Lie ps us
lie [] [] = inl ([], refl)
lie [] (u ∷ us) = inr (inl (u, us, refl))
lie (p ∷ ps) [] = inl (p ∷ ps, refl)
lie (p ∷ ps) (u ∷ us) = elim (Bool-cases (text_eq p u)) [
  | inl e ↦ Lie-cons p u ps us e (lie ps us)
  | inr e ↦ inr (inr (ground arith, ground (arith, text_eq_iff p u, text_eq_iff u p)))
]
