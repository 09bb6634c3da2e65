-- ===== src/Pointer/Walk.antt =====
-- RFC 6901: how a list of tokens selects a value of a document, and what a write there changes.
use mathlib.Core.Option
use schemaform.Prelude.{
  ℕ, Option, none, some, List, [], ◌∷◌, Bool, true, false, ◌&&◌, get_elem?, set, and_then,
}
use schemaform.Json.{Text, text_eq, Value, array, object, to_list, array_of, get, insert}

abbrev pub is_prefix : List Text → List Text → Bool
is_prefix [] us = true
is_prefix (t ∷ ts) [] = false
is_prefix (t ∷ ts) (u ∷ us) = text_eq t u && is_prefix ts us

module _ (to_index : Text → Option ℕ) where
  -- the member or the item that a token names
  unfoldable pub child : Text → Value → Option Value
  child t (array vs) = and_then (to_index t) (get_elem? (to_list vs))
  child t (object ms) = get t ms
  child t _ = none

  -- the value after its child is replaced
  unfoldable pub put : Text → Value → Value → Value
  put t c (array vs) = elim (to_index t) [
    | none ↦ array vs
    | some i ↦ array_of (set (to_list vs) i c)
  ]
  put t c (object ms) = object (insert t c ms)
  put t c v = v

  unfoldable pub walk : List Text → Value → Option Value
  walk [] d = some d
  walk (t ∷ ts) d = and_then (child t d) (walk ts)

  -- the document after a write at a place that is there
  unfoldable pub store : List Text → Value → Value → Value
  store [] w d = w
  store (t ∷ ts) w d = elim (child t d) [ none ↦ d | some c ↦ put t (store ts w c) d ]

  -- what a document becomes when a value is bound below a parent that is there: an item of an
  -- array only if it is there, a member of an object in any case
  unfoldable upsert_child : Text → Value → Value → Option Value
  upsert_child t w (object ms) = some (object (insert t w ms))
  upsert_child t w d = Option.map (λ c. put t w d) (child t d)

  unfoldable upsert : List Text → Value → Value → Option Value
  upsert [] w d = some w
  upsert (t ∷ []) w d = upsert_child t w d
  upsert (t ∷ u ∷ ts) w d =
      and_then (child t d) (λ c. Option.map (λ c'. put t c' d) (upsert (u ∷ ts) w c))
