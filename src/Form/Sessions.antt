-- ===== src/Form/Sessions.antt =====
-- crates/schemaform/src/engine.rs: a session on a form, in which items are appended, inserted,
-- removed and moved, choices toggled, findings reported and submissions prepared, in any order. A call that fails leaves a form as well.
pub mod Arranged
use schemaform.Prelude.{ℕ, suc, List}
use schemaform.Json.{Text, Value}
use schemaform.Pointer.{JsonPtr}
use schemaform.Form.State.{Form, ExternalFinding}
use schemaform.Form.Arrays.{
  append_array_item, insert_array_item_before, remove_array_item, move_array_item, ArrayMove,
}
use schemaform.Form.Parsing.{Parsers}
use schemaform.Form.Toggles.{toggle_array_choice}
use schemaform.Form.Findings.{apply_external_findings}
use schemaform.Form.Submission.{prepare_submission}

module _ (j : JsonPtr) (parsers : Parsers) where
  open j use {PointerBuf}

  pub data Step : Form PointerBuf → Form PointerBuf → Type 0 where
    appends :
        (form : Form PointerBuf) (binding : Text) → Step form (append_array_item j binding form).1
    inserts :
        (form : Form PointerBuf) (binding : Text) (before : ℕ)
        → Step form (insert_array_item_before j binding before form).1
    removes :
        (form : Form PointerBuf) (binding : Text) (identity : ℕ)
        → Step form (remove_array_item j binding identity form).1
    moves :
        (form : Form PointerBuf) (binding : Text) (identity : ℕ) (direction : ArrayMove)
        → Step form (move_array_item j parsers.parse_big_int binding identity direction form).1
    toggles :
        (form : Form PointerBuf) (binding : Text) (value : Value)
        → Step form (toggle_array_choice j parsers binding value form).1
    reports :
        (form : Form PointerBuf) (source : Text) (revision : ℕ)
        (findings : List (ExternalFinding PointerBuf))
        → Step form (apply_external_findings j source revision findings form).1
    submits : (form : Form PointerBuf) → Step form (prepare_submission j form).1

  -- so many calls, one after the other
  pub data Session (form : Form PointerBuf) : ℕ → Form PointerBuf → Type 0 where
    here : Session form 0 form
    next :
        {n : ℕ} {form' form'' : Form PointerBuf}
        → Session form n form'
        → Step form' form''
        → Session form (suc n) form''
