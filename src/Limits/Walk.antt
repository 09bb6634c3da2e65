-- ===== src/Limits/Walk.antt =====
-- crates/schemaform/src/limits.rs: the walk of `check_input_value` and `value_metrics` over a value,
-- with a stack of its own. The two loops differ in what they do at a value and at a key, which are
-- parameters here: `on_value` and `on_key` give the new state, or leave the loop.
-- A depth and an index are below the count of the nodes of a value in memory: `+ 1` does not overflow.
pub mod Recursion
use schemaform.Prelude.{ℕ, zero, suc, ◌+◌, Option, none, some, List, [], ◌∷◌, ◌++◌}
use schemaform.Prelude.Results.{Result, ok, err, panic}
use schemaform.Json.{Text, Value, Values, Members, array, object, nil, cons, end, member}
use schemaform.Pointer.Words.{escape, to_string}

-- What is still to be walked: a value, or what is left of a collection.
pub data Frame : Type 0 where
  value_frame : (value : Value) (level : ℕ) (pointer : Text) → Frame
  object_frame : (children : Members) (level : ℕ) (pointer : Text) → Frame
  array_frame : (children : Values) (next_index level : ℕ) (pointer : Text) → Frame

unfoldable pub append_token : Text → Text → Text
unfolding escape
append_token pointer token = pointer ++ b'/' ∷ escape token

unfoldable pub item_token : Text → ℕ → Text
unfolding to_string
item_token pointer index = pointer ++ b'/' ∷ to_string index

-- the stack after a value: a collection leaves its children there
abbrev pub opened : Value → ℕ → Text → List Frame → List Frame
opened (array vs) level pointer pending = array_frame vs 0 level pointer ∷ pending
opened (object ms) level pointer pending = object_frame ms level pointer ∷ pending
opened _ level pointer pending = pending

module _ {S E : Type 0} (on_value : Value → ℕ → Text → S → Result E S)
    (on_key : Text → Text → S → Result E S) where
  -- The loop: the head of the list is the top of the stack. `none` means that the fuel ran out.
  unfoldable pub walk_frames : ℕ → S → List Frame → Option (Result E S)
  walk_frames zero s pending = none
  walk_frames (suc fuel) s [] = some (ok s)
  walk_frames (suc fuel) s (value_frame value level pointer ∷ pending) =
      elim (on_value value level pointer s) [
        | ok s' ↦ walk_frames fuel s' (opened value level pointer pending)
        | err e ↦ some (err e)
        | panic ↦ some panic
      ]
  walk_frames (suc fuel) s (object_frame end level pointer ∷ pending) = walk_frames fuel s pending
  walk_frames (suc fuel) s (object_frame (member key child children) level pointer ∷ pending) =
      elim (on_key key (append_token pointer key) s) [
        | ok s' ↦ walk_frames fuel s' (
            value_frame child (level + 1) (append_token pointer key)
            ∷ object_frame children level pointer
            ∷ pending)
        | err e ↦ some (err e)
        | panic ↦ some panic
      ]
  walk_frames (suc fuel) s (array_frame nil next_index level pointer ∷ pending) =
      walk_frames fuel s pending
  walk_frames (suc fuel) s (array_frame (cons child children) next_index level pointer ∷ pending) =
      walk_frames fuel s (
        value_frame child (level + 1) (item_token pointer next_index)
        ∷ array_frame children (next_index + 1) level pointer
        ∷ pending)

-- The rounds that a value takes: one, one more for a collection when it is done, and for each child
-- one to take it up.
unfoldable mutual
  pub rounds : Value → ℕ
  rounds (array vs) = suc (rounds_values vs)
  rounds (object ms) = suc (rounds_members ms)
  rounds _ = 1

  pub rounds_values : Values → ℕ
  rounds_values nil = 1
  rounds_values (cons v vs) = suc (rounds v + rounds_values vs)

  pub rounds_members : Members → ℕ
  rounds_members end = 1
  rounds_members (member k v ms) = suc (rounds v + rounds_members ms)

unfoldable pub walk :
    {S E : Type 0}
    → (Value → ℕ → Text → S → Result E S)
    → (Text → Text → S → Result E S)
    → Value
    → S
    → Option (Result E S)
unfolding walk_frames rounds append_token item_token
walk on_value on_key value s =
    walk_frames on_value on_key (suc (rounds value)) s (value_frame value 0 [] ∷ [])
