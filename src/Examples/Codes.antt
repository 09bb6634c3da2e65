-- ===== src/Examples/Codes.antt =====
-- A way of writing values that writes no two alike.
use schemaform.Prelude.{ℕ, ◌≡◌, refl, ap, true, false, [], ◌∷◌, arith}
use schemaform.Json.{
  Text, Value, Values, Members, null, bool, number, string, array, object, nil, cons, end, member,
}

abbrev tail : Text → Text
tail [] = []
tail (c ∷ s) = s

abbrev head : Text → ℕ
head [] = 0
head (c ∷ s) = c

abbrev text_code : Text → Text → Text
text_code [] r = 0 ∷ r
text_code (c ∷ s) r = 1 ∷ c ∷ text_code s r

mutual
  pub value_code : Value → Text → Text
  value_code null r = 0 ∷ r
  value_code (bool true) r = 1 ∷ r
  value_code (bool false) r = 2 ∷ r
  value_code (number n) r = 3 ∷ text_code n r
  value_code (string s) r = 4 ∷ text_code s r
  value_code (array vs) r = 5 ∷ values_code vs r
  value_code (object ms) r = 6 ∷ members_code ms r

  values_code : Values → Text → Text
  values_code nil r = 0 ∷ r
  values_code (cons v vs) r = 1 ∷ value_code v (values_code vs r)

  members_code : Members → Text → Text
  members_code end r = 0 ∷ r
  members_code (member k v ms) r = 1 ∷ text_code k (value_code v (members_code ms r))

text_code_injective : (s t r q : Text) → text_code s r ≡ text_code t q → (s ≡ t) × (r ≡ q)
text_code_injective [] [] r q h = (refl, ap tail h)
text_code_injective [] (d ∷ t) r q h = absurd (ground (arith, ap head h))
text_code_injective (c ∷ s) [] r q h = absurd (ground (arith, ap head h))
text_code_injective (c ∷ s) (d ∷ t) r q h =
    let (e, e') = text_code_injective s t r q (ap (λ (u : Text). tail (tail u)) h) in
    let first : c ≡ d = ap (λ (u : Text). head (tail u)) h in (λ i. first i ∷ e i, e')

mutual
  unfolding value_code values_code members_code

  value_code_injective :
      (v w : Value) (r q : Text) → value_code v r ≡ value_code w q → (v ≡ w) × (r ≡ q)
  value_code_injective null null r q h = (refl, ap tail h)
  value_code_injective (bool true) (bool true) r q h = (refl, ap tail h)
  value_code_injective (bool false) (bool false) r q h = (refl, ap tail h)
  value_code_injective (number m) (number n) r q h =
      let (e, e') = text_code_injective m n r q (ap tail h) in (ap number e, e')
  value_code_injective (string m) (string n) r q h =
      let (e, e') = text_code_injective m n r q (ap tail h) in (ap string e, e')
  value_code_injective (array vs) (array ws) r q h =
      let (e, e') = values_code_injective vs ws r q (ap tail h) in (ap array e, e')
  value_code_injective (object ms) (object ns) r q h =
      let (e, e') = members_code_injective ms ns r q (ap tail h) in (ap object e, e')
  value_code_injective _ _ r q h = absurd (ground (arith, ap head h))

  values_code_injective :
      (vs ws : Values) (r q : Text) → values_code vs r ≡ values_code ws q → (vs ≡ ws) × (r ≡ q)
  values_code_injective nil nil r q h = (refl, ap tail h)
  values_code_injective (cons v vs) (cons w ws) r q h =
      let (e, rest) = value_code_injective v w (values_code vs r) (values_code ws q) (ap tail h) in
      let (e', e'') = values_code_injective vs ws r q rest in (λ i. cons (e i) (e' i), e'')
  values_code_injective _ _ r q h = absurd (ground (arith, ap head h))

  members_code_injective :
      (ms ns : Members) (r q : Text) → members_code ms r ≡ members_code ns q → (ms ≡ ns) × (r ≡ q)
  members_code_injective end end r q h = (refl, ap tail h)
  members_code_injective (member k v ms) (member j w ns) r q h =
      let (first, rest) =
        text_code_injective k j (value_code v (members_code ms r))
          (value_code w (members_code ns q)) (ap tail h) in
      let (e, rest') = value_code_injective v w (members_code ms r) (members_code ns q) rest in
      let (e', e'') = members_code_injective ms ns r q rest' in
      (λ i. member (first i) (e i) (e' i), e'')
  members_code_injective _ _ r q h = absurd (ground (arith, ap head h))

abbrev pub coded : Value → Text
coded v = value_code v []

pub coded_injective : (v w : Value) → coded v ≡ coded w → v ≡ w
coded_injective v w h = (value_code_injective v w [] [] h).0
