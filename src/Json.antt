-- ===== src/Json.antt =====
-- JSON values as the engine matches on them: `serde_json::Value`, whose numbers keep their text
-- (feature `arbitrary_precision`) and whose objects are `BTreeMap`s, in the order of their keys.
-- A text is the list of its UTF-8 bytes.
pub mod Equality
pub mod Laws
pub mod Order
pub mod Same
use Prim.Native.Nat.{compare, Ordering}
use schemaform.Prelude.{
  ℕ, suc, ◌≡◌, refl, ◌↔◌, Bool, true, false, ◌&&◌, Option, none, some, List, [], ◌∷◌, arith, ltb,
  ◌==◌, ==_iff, if◌then◌else◌,
}

abbrev pub Text : Type 0
Text = List ℕ

unfoldable pub text_eq : Text → Text → Bool
text_eq [] [] = true
text_eq [] (d ∷ t) = false
text_eq (c ∷ s) [] = false
text_eq (c ∷ s) (d ∷ t) = c == d && text_eq s t

-- The order of `String`: that of the bytes.
unfoldable pub text_lt : Text → Text → Bool
text_lt [] [] = false
text_lt [] (d ∷ t) = true
text_lt (c ∷ s) [] = false
text_lt (c ∷ s) (d ∷ t) = if ltb c d then true else c == d && text_lt s t

-- `str::cmp`, by the bytes
unfoldable pub text_cmp : Text → Text → Ordering
text_cmp [] [] = Ordering.eq
text_cmp [] (d ∷ t) = Ordering.lt
text_cmp (c ∷ s) [] = Ordering.gt
text_cmp (c ∷ s) (d ∷ t) =
    let rest = text_cmp s t in
    elim (compare c d) [
      | Ordering.eq ↦ rest
      | Ordering.lt ↦ Ordering.lt
      | Ordering.gt ↦ Ordering.gt
    ]

mutual
  pub data Value : Type 0 where
    null : Value
    bool : Bool → Value
    number : Text → Value
    string : Text → Value
    array : Values → Value
    object : Members → Value

  pub data Values : Type 0 where
    nil : Values
    cons : Value → Values → Values

  pub data Members : Type 0 where
    end : Members
    member : Text → Value → Members → Members

-- A `Vec<Value>` is read and written as a list.
unfoldable pub to_list : Values → List Value
to_list nil = []
to_list (cons v vs) = v ∷ to_list vs

unfoldable pub of_list : List Value → Values
of_list [] = nil
of_list (v ∷ vs) = cons v (of_list vs)

pub to_list-of_list : (vs : List Value) → to_list (of_list vs) ≡ vs
unfolding to_list of_list
to_list-of_list [] = refl
to_list-of_list (v ∷ vs) = ground (arith, to_list-of_list vs)

-- `Value::as_array`, `as_object`, `is_object` and their like.
unfoldable pub as_array : Value → Option (List Value)
as_array (array vs) = some (to_list vs)
as_array _ = none

abbrev pub as_object : Value → Option Members
as_object (object ms) = some ms
as_object _ = none

abbrev pub is_object : Value → Bool
is_object (object ms) = true
is_object _ = false

abbrev pub is_array : Value → Bool
is_array (array vs) = true
is_array _ = false

abbrev pub is_null : Value → Bool
is_null null = true
is_null _ = false

abbrev pub is_string : Value → Bool
is_string (string s) = true
is_string _ = false

abbrev pub is_boolean : Value → Bool
is_boolean (bool b) = true
is_boolean _ = false

abbrev pub as_number : Value → Option Text
as_number (number n) = some n
as_number _ = none

-- `Value::Array(vec)`
abbrev pub array_of : List Value → Value
array_of vs = array (of_list vs)

-- `Map::len`, `get`, `insert` and `remove`; an insertion keeps the keys in order.
unfoldable pub member_count : Members → ℕ
member_count end = 0
member_count (member k v ms) = suc (member_count ms)

unfoldable pub get : Text → Members → Option Value
get k end = none
get k (member j v ms) = if text_eq j k then some v else get k ms

unfoldable pub insert : Text → Value → Members → Members
insert k v end = member k v end
insert k v (member j w ms) =
    let rest = insert k v ms in
    if text_eq j k
    then member j v ms
    else if text_lt k j
    then member k v (member j w ms)
    else member j w rest

unfoldable pub remove : Text → Members → Members
remove k end = end
remove k (member j w ms) = let rest = remove k ms in if text_eq j k then ms else member j w rest
