-- ===== src/Json/Same.antt =====
-- The derived `==` of `Value` holds of a value and itself, and of no other two.
use mathlib.Core.Path.{subst}
use schemaform.Prelude.{◌≡◌, refl, ap, ◌↔◌, true, false, ◌&&◌, arith, &&-eq-true}
use schemaform.Json.{
  text_eq, Value, Values, Members, null, bool, number, string, array, object, nil, cons, end,
  member,
}
use schemaform.Json.Laws.{text_eq_iff, text_eq_refl}
use schemaform.Json.Equality.{value_eq, values_eq, members_eq}

mutual
  unfolding value_eq

  value_eq_same : (v w : Value) → value_eq v w ≡ true → v ≡ w
  value_eq_same null null h = refl
  value_eq_same (bool true) (bool true) h = refl
  value_eq_same (bool false) (bool false) h = refl
  value_eq_same (number m) (number n) h = ap number ((text_eq_iff m n).0 h)
  value_eq_same (string m) (string n) h = ap string ((text_eq_iff m n).0 h)
  value_eq_same (array vs) (array ws) h = ap array (values_eq_same vs ws h)
  value_eq_same (object vs) (object ws) h = ap object (members_eq_same vs ws h)
  value_eq_same _ _ h = absurd (ground arith)

  values_eq_same : (vs ws : Values) → values_eq vs ws ≡ true → vs ≡ ws
  values_eq_same nil nil h = refl
  values_eq_same (cons v vs) (cons w ws) h =
      let (e, e') = &&-eq-true (value_eq v w) (values_eq vs ws) h in
      λ i. cons (value_eq_same v w e i) (values_eq_same vs ws e' i)
  values_eq_same _ _ h = absurd (ground arith)

  members_eq_same : (ms ns : Members) → members_eq ms ns ≡ true → ms ≡ ns
  members_eq_same end end h = refl
  members_eq_same (member k v ms) (member j w ns) h =
      let (e, rest) = &&-eq-true (text_eq k j) (value_eq v w && members_eq ms ns) (ground arith) in
      let (e', e'') = &&-eq-true (value_eq v w) (members_eq ms ns) rest in
      λ i. member ((text_eq_iff k j).0 e i) (value_eq_same v w e' i) (members_eq_same ms ns e'' i)
  members_eq_same _ _ h = absurd (ground arith)

mutual
  unfolding value_eq

  value_eq_self : (v : Value) → value_eq v v ≡ true
  value_eq_self null = refl
  value_eq_self (bool true) = refl
  value_eq_self (bool false) = refl
  value_eq_self (number n) = text_eq_refl n
  value_eq_self (string s) = text_eq_refl s
  value_eq_self (array vs) = values_eq_self vs
  value_eq_self (object ms) = members_eq_self ms

  values_eq_self : (vs : Values) → values_eq vs vs ≡ true
  values_eq_self nil = refl
  values_eq_self (cons v vs) = ground (arith, value_eq_self v, values_eq_self vs)

  members_eq_self : (ms : Members) → members_eq ms ms ≡ true
  members_eq_self end = refl
  members_eq_self (member k v ms) =
      ground (arith, text_eq_refl k, value_eq_self v, members_eq_self ms)

pub value_eq_iff : (v w : Value) → (value_eq v w ≡ true) ↔ (v ≡ w)
value_eq_iff v w = (value_eq_same v w, λ e. subst (λ u. value_eq v u ≡ true) e (value_eq_self v))
