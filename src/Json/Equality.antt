-- ===== src/Json/Equality.antt =====
-- crates/schemaform/src/engine.rs: `json_values_equal`,
-- over the comparison of numbers, which is `Number.numbers_equal`.
use schemaform.Prelude.{ℕ, suc, Bool, true, false, ◌&&◌, ◌||◌, none, some, ◌==◌}
use schemaform.Json.{
  Text, text_eq, Value, Values, Members, null, bool, number, string, array, object, nil, cons, end,
  member, member_count, get,
}

abbrev bool_eq : Bool → Bool → Bool
bool_eq true b = b
bool_eq false true = false
bool_eq false false = true

-- The derived `==` of `Value`.
unfoldable mutual
  unfolding text_eq

  pub value_eq : Value → Value → Bool
  value_eq null null = true
  value_eq (bool a) (bool b) = bool_eq a b
  value_eq (number m) (number n) = text_eq m n
  value_eq (string s) (string t) = text_eq s t
  value_eq (array vs) (array ws) = values_eq vs ws
  value_eq (object ms) (object ns) = members_eq ms ns
  value_eq _ _ = false

  pub values_eq : Values → Values → Bool
  values_eq nil nil = true
  values_eq (cons v vs) (cons w ws) = value_eq v w && values_eq vs ws
  values_eq _ _ = false

  pub members_eq : Members → Members → Bool
  members_eq end end = true
  members_eq (member k v ms) (member j w ns) = text_eq k j && value_eq v w && members_eq ms ns
  members_eq _ _ = false

unfoldable pub size : Values → ℕ
size nil = 0
size (cons v vs) = suc (size vs)

-- `same_number left right` stands for `numbers_equal` at two numbers that differ as texts.
module _ (same_number : Text → Text → Bool) where
  unfoldable mutual
    unfolding value_eq size member_count get

    pub json_values_equal : Value → Value → Bool
    json_values_equal null w = value_eq null w
    json_values_equal (bool a) w = value_eq (bool a) w
    json_values_equal (string s) w = value_eq (string s) w
    json_values_equal (number m) (number n) = value_eq (number m) (number n) || same_number m n
    json_values_equal (number m) w = value_eq (number m) w
    json_values_equal (array vs) (array ws) =
        value_eq (array vs) (array ws) || size vs == size ws && all_equal vs ws
    json_values_equal (array vs) w = value_eq (array vs) w
    json_values_equal (object ms) (object ns) =
        value_eq (object ms) (object ns) || member_count ms == member_count ns && all_found ms ns
    json_values_equal (object ms) w = value_eq (object ms) w

    -- `left.iter().zip(right).all(..)`
    pub all_equal : Values → Values → Bool
    all_equal nil ws = true
    all_equal (cons v vs) nil = true
    all_equal (cons v vs) (cons w ws) = json_values_equal v w && all_equal vs ws

    -- `left.iter().all(|(key, left)| right.get(key).is_some_and(..))`
    pub all_found : Members → Members → Bool
    all_found end ns = true
    all_found (member k v ms) ns =
        (elim (get k ns) [ none ↦ false | some w ↦ json_values_equal v w ]) && all_found ms ns
