-- ===== src/Json/Laws.antt =====
-- Laws of texts, and of reading an object after a change.
use schemaform.Prelude.{
  ◌≡◌, refl, ◌↔◌, true, false, none, some, List, [], ◌∷◌, arith, if◌then◌else◌,
}
use schemaform.Json.{
  Text, text_eq, Value, Members, end, member, get, insert, remove, as_array, array_of,
  to_list-of_list,
}

text_eq_sound : (s t : Text) → text_eq s t ≡ true → s ≡ t
unfolding text_eq
text_eq_sound [] [] h = refl
text_eq_sound [] (d ∷ t) h = ground arith
text_eq_sound (c ∷ s) [] h = ground arith
text_eq_sound (c ∷ s) (d ∷ t) h = ground (arith, text_eq_sound s t)

pub text_eq_refl : (s : Text) → text_eq s s ≡ true
unfolding text_eq
text_eq_refl [] = refl
text_eq_refl (c ∷ s) = ground (arith, text_eq_refl s)

text_eq_complete : (s t : Text) → s ≡ t → text_eq s t ≡ true
text_eq_complete s t e = ground (arith, text_eq_refl s)

pub text_eq_iff : (s t : Text) → (text_eq s t ≡ true) ↔ (s ≡ t)
text_eq_iff s t = (text_eq_sound s t, text_eq_complete s t)

text_eq_sym : (s t : Text) → text_eq s t ≡ text_eq t s
text_eq_sym s t = ground (arith, text_eq_iff s t, text_eq_iff t s)

-- What is found under a key after an insertion and after a removal.
pub get-insert :
    (k j : Text) (v : Value) (ms : Members)
    → get j (insert k v ms) ≡ (if text_eq k j then some v else get j ms)
unfolding get insert
get-insert k j v end = refl
get-insert k j v (member i w ms) =
    ground (arith, text_eq_iff i k, text_eq_iff i j, text_eq_iff k j, get-insert k j v ms)

pub get-insert_self : (k : Text) (v : Value) (ms : Members) → get k (insert k v ms) ≡ some v
get-insert_self k v ms = ground (arith, get-insert k k v ms, text_eq_refl k)

pub get-remove_ne :
    (k j : Text) (ms : Members) → text_eq k j ≡ false → get j (remove k ms) ≡ get j ms
unfolding get remove
get-remove_ne k j end h = refl
get-remove_ne k j (member i w ms) h =
    ground (arith, text_eq_iff i k, text_eq_iff i j, text_eq_iff k j, get-remove_ne k j ms h)

-- `BTreeMap` holds a key at most once.
abbrev Distinct : Members → Type 0
Distinct end = Unit {0}
Distinct (member k v ms) = (get k ms ≡ none) × Distinct ms

get-remove_self : (k : Text) (ms : Members) → Distinct ms → get k (remove k ms) ≡ none
unfolding get remove
get-remove_self k end d = refl
get-remove_self k (member i w ms) d = ground (arith, text_eq_iff i k, get-remove_self k ms d.1)

pub as_array-array_of : (vs : List Value) → as_array (array_of vs) ≡ some vs
unfolding as_array
as_array-array_of vs = ground (arith, to_list-of_list vs)
