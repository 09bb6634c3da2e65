-- ===== src/Limits/Sizes.antt =====
-- The sizes of a value, each by recursion over it: what the checks of limits are about.
use schemaform.Prelude.{ℕ, suc, ◌+◌, true, false, length}
use schemaform.Prelude.Words.{max}
use schemaform.Json.{
  Value, Values, Members, null, bool, number, string, array, object, nil, cons, end, member,
  member_count,
}
use schemaform.Json.Equality.{size}

-- the values in a value, itself included, and the members of its objects
unfoldable mutual
  pub node_count : Value → ℕ
  node_count (array vs) = suc (values_nodes vs)
  node_count (object ms) = suc (members_nodes ms)
  node_count _ = 1

  pub values_nodes : Values → ℕ
  values_nodes nil = 0
  values_nodes (cons v vs) = node_count v + values_nodes vs

  pub members_nodes : Members → ℕ
  members_nodes end = 0
  members_nodes (member k v ms) = node_count v + members_nodes ms

unfoldable mutual
  unfolding member_count

  pub member_total : Value → ℕ
  member_total (array vs) = values_total vs
  member_total (object ms) = member_count ms + members_total ms
  member_total _ = 0

  pub values_total : Values → ℕ
  values_total nil = 0
  values_total (cons v vs) = member_total v + values_total vs

  pub members_total : Members → ℕ
  members_total end = 0
  members_total (member k v ms) = member_total v + members_total ms

-- how deep the deepest value in a value is below it
unfoldable mutual
  pub height : Value → ℕ
  height (array vs) = values_height vs
  height (object ms) = members_height ms
  height _ = 0

  pub values_height : Values → ℕ
  values_height nil = 0
  values_height (cons v vs) = max (height v + 1) (values_height vs)

  pub members_height : Members → ℕ
  members_height end = 0
  members_height (member k v ms) = max (height v + 1) (members_height ms)

-- the length of the longest collection
unfoldable mutual
  unfolding size member_count

  pub widest : Value → ℕ
  widest (array vs) = max (size vs) (values_widest vs)
  widest (object ms) = max (member_count ms) (members_widest ms)
  widest _ = 0

  pub values_widest : Values → ℕ
  values_widest nil = 0
  values_widest (cons v vs) = max (widest v) (values_widest vs)

  pub members_widest : Members → ℕ
  members_widest end = 0
  members_widest (member k v ms) = max (widest v) (members_widest ms)

-- the bytes of the longest scalar or key
unfoldable mutual
  pub longest : Value → ℕ
  longest null = 4
  longest (bool true) = 4
  longest (bool false) = 5
  longest (number n) = length n
  longest (string s) = length s
  longest (array vs) = values_longest vs
  longest (object ms) = members_longest ms

  pub values_longest : Values → ℕ
  values_longest nil = 0
  values_longest (cons v vs) = max (longest v) (values_longest vs)

  pub members_longest : Members → ℕ
  members_longest end = 0
  members_longest (member k v ms) = max (length k) (max (longest v) (members_longest ms))
