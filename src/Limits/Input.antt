-- ===== src/Limits/Input.antt =====
-- crates/schemaform/src/limits.rs: `check_input_value`.
pub mod Fits
use mathlib.Core.Option
use schemaform.Prelude.{ℕ, true, false, Option, [], length}
use schemaform.Prelude.Results.{Result, ok, err, panic, ◌>>=◌, ◌>>◌}
use schemaform.Prelude.Words.{saturating_add}
use schemaform.Json.{Text, Value, null, bool, number, string, array, object, member_count}
use schemaform.Json.Equality.{size}
use schemaform.Limits.Types.{
  InputLimits, InputLimitError, within, depth, nodes, members, collection_length, scalar_bytes,
}
use schemaform.Limits.Walk.{walk}

pub record Counts : Type 0 where
  pub nodes : ℕ
  pub members : ℕ

module _ (limits : InputLimits) where
  abbrev pub scalar : ℕ → Text → Counts → Result InputLimitError Counts
  scalar width pointer counts = do within scalar_bytes limits.scalar_bytes width pointer; ok counts

  -- The match on a value that is within its depth and the count of the nodes.
  unfoldable pub open_value : Value → Text → Counts → Result InputLimitError Counts
  unfolding saturating_add size member_count
  open_value null pointer counts = scalar 4 pointer counts
  open_value (bool true) pointer counts = scalar 4 pointer counts
  open_value (bool false) pointer counts = scalar 5 pointer counts
  open_value (number n) pointer counts = scalar (length n) pointer counts
  open_value (string s) pointer counts = scalar (length s) pointer counts
  open_value (array vs) pointer counts = do
    within collection_length limits.collection_length (size vs) pointer
    ok counts
  open_value (object ms) pointer counts = do
    let total = saturating_add counts.members (member_count ms)
    within members limits.members total pointer
    within collection_length limits.collection_length (member_count ms) pointer
    ok (record counts { members = total })

  unfoldable pub check_node : Value → ℕ → Text → Counts → Result InputLimitError Counts
  unfolding open_value saturating_add
  check_node value level pointer counts = do
    let total = saturating_add counts.nodes 1
    within depth limits.depth level pointer
    within nodes limits.nodes total pointer
    open_value value pointer (record counts { nodes = total })

  unfoldable pub check_key : Text → Text → Counts → Result InputLimitError Counts
  check_key key pointer counts = do
    within scalar_bytes limits.scalar_bytes (length key) pointer
    ok counts

-- the counts forgotten
abbrev pub verdict : Result InputLimitError Counts → Result InputLimitError (Unit {0})
verdict (ok counts) = ok tt
verdict (err e) = err e
verdict panic = panic

unfoldable pub check_input_value : Value → InputLimits → Option (Result InputLimitError (Unit {0}))
unfolding check_node check_key walk
check_input_value value limits =
    Option.map verdict
      (walk (check_node limits) (check_key limits) value (record { nodes = 0; members = 0 }))
