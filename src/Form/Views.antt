-- ===== src/Form/Views.antt =====
-- crates/schemaform/src/engine.rs: what a form tells of its controls, arrays and data, and what a text
-- edit would make of them.
pub mod Prospects
use mathlib.Core.Option
use schemaform.Prelude.{
  ℕ, ◌+◌, ◌-◌, Bool, false, ◌&&◌, Option, none, some, List, [], ◌∷◌, ◌++◌, length, map, find,
  position, keep_if, and_then, map_or, is_none, any, leb, if◌then◌else◌, ◌^◌,
}
use schemaform.Prelude.Results
use schemaform.Prelude.Results.{Result, ok, err, ok_or}
use schemaform.Json.{Text, text_eq, Value}
use schemaform.Pointer.{JsonPtr}
use schemaform.Pointer.Bound.{set_bound_value}
use schemaform.Form.State.{
  Form, ControlState, ArrayState, ArrayItemState, ExternalFinding, ExternalFindingBatch, EditError,
  unknown_control, unresolved_control, bump, identities,
}
use schemaform.Form.Parsing.{Parsers, control_value_is_compatible}
use schemaform.Form.Lookup.{control_location, control_state, array_item_pointer}
use schemaform.Form.Arrays.{bound_at, has_identity}
use schemaform.Form.Edits.{prepare_text_edit}
use schemaform.Form.Submission.{SubmissionBlocker, parse_blocker, external_blocker, flattened}

-- `usize::saturating_add`
unfoldable saturating_add : ℕ → ℕ → ℕ
saturating_add a b = if leb (a + b) (2 ^ 64 - 1) then a + b else 2 ^ 64 - 1

module _ (j : JsonPtr) where
  open j use {PointerBuf, as_str, resolve}

  unfoldable array_item_identities : Form PointerBuf → Text → Option (List ℕ)
  array_item_identities form binding =
      Option.map (λ (array : ArrayState PointerBuf). identities array.items)
        (find (bound_at j binding) form.arrays)

  unfoldable array_item_binding : Form PointerBuf → Text → ℕ → Option Text
  array_item_binding form binding identity =
      and_then (find (bound_at j binding) form.arrays) λ (array : ArrayState PointerBuf).
        Option.map (λ index. as_str (array_item_pointer j array.definition.binding index))
          (position (has_identity j identity) array.items)

  unfoldable external_findings : Form PointerBuf → List (Text × ExternalFinding PointerBuf)
  external_findings form =
      flattened
        (λ (batch : ExternalFindingBatch PointerBuf).
          map (λ (finding : ExternalFinding PointerBuf). (batch.source, finding)) batch.findings)
        form.external_finding_batches

  -- `ControlView::external_findings`: those at the control's binding
  unfoldable findings_at : Form PointerBuf → PointerBuf → List (Text × ExternalFinding PointerBuf)
  findings_at form binding =
      flattened
        (λ (batch : ExternalFindingBatch PointerBuf).
          map (λ (finding : ExternalFinding PointerBuf). (batch.source, finding))
            (keep_if
              (λ (finding : ExternalFinding PointerBuf).
                text_eq (as_str finding.instance_pointer) (as_str binding))
              batch.findings))
        form.external_finding_batches

  unfoldable mark_state_changed : Form PointerBuf → Form PointerBuf
  mark_state_changed form = record form { state_revision = bump form.state_revision }

  abbrev is_parse_blocker : Text → SubmissionBlocker PointerBuf → Bool
  is_parse_blocker binding (parse_blocker at reason) = text_eq (as_str at) binding
  is_parse_blocker binding (external_blocker source pointer code) = false

  unfoldable has_parse_blocker : List (SubmissionBlocker PointerBuf) → Text → Bool
  has_parse_blocker blockers binding = any (is_parse_blocker binding) blockers

  abbrev is_external_blocker : Text → Text → Text → SubmissionBlocker PointerBuf → Bool
  is_external_blocker source instance_pointer code (parse_blocker at reason) = false
  is_external_blocker source instance_pointer code (external_blocker source' at code') =
      text_eq source' source && text_eq (as_str at) instance_pointer && text_eq code' code

  unfoldable has_external_blocker : List (SubmissionBlocker PointerBuf) → Text → Text → Text → Bool
  has_external_blocker blockers source instance_pointer code =
      any (is_external_blocker source instance_pointer code) blockers

  -- the number of texts under edit, and their bytes
  abbrev metrics_of : List (ControlState PointerBuf) → ℕ × ℕ → ℕ × ℕ
  metrics_of [] metrics = metrics
  metrics_of (control ∷ controls) (active, bytes) = metrics_of controls (
      map_or control.edit_buffer (active, bytes)
        λ buffer. (saturating_add active 1, saturating_add bytes (length buffer)))

  unfoldable prospective_edit_buffer_metrics :
      Form PointerBuf → Text → Text → Result EditError (ℕ × ℕ)
  prospective_edit_buffer_metrics form binding input = do
    location ← ok_or (control_location j form binding) (unknown_control binding)
    let in_items =
        flattened
          (λ (array : ArrayState PointerBuf).
            flattened (λ (item : ArrayItemState PointerBuf). item.controls) array.items)
          form.arrays
    let (active, bytes) = metrics_of (form.controls ++ in_items) (0, 0)
    control ← Results.expect (control_state form location)
    let previous = control.edit_buffer
    ok (
      if is_none previous then saturating_add active 1 else active,
      saturating_add (bytes - map_or previous 0 length) (length input),
    )
    where
      infixl 5 ◌>>=◌
      ◌>>=◌ : {A B : Type 0} → Result EditError A → (A → Result EditError B) → Result EditError B
      ◌>>=◌ = Results.◌>>=◌

  module _ (parsers : Parsers) where
    unfoldable control_accepts_value : Form PointerBuf → Text → Value → Option Bool
    control_accepts_value form binding value =
        and_then (control_location j form binding) λ location.
          Option.map
            (λ (control : ControlState PointerBuf).
              control_value_is_compatible parsers control.definition value)
            (control_state form location)

    -- The form with the replacement of a text edit bound, which is `None` where there is none.
    unfoldable pub prospective_text_form_data :
        Form PointerBuf → Text → Text → ℕ → Result EditError (Option Value)
    prospective_text_form_data form binding input max_canonical_integer_digits = do
      edit ← prepare_text_edit j parsers form binding input max_canonical_integer_digits
      elim edit.replacement [
        | none ↦ ok none
        | some value ↦ do
          candidate ←
              ok_or (set_bound_value j edit.binding form.form_data value)
                (unresolved_control binding)
          ok (some candidate)
      ]
      where
        infixl 5 ◌>>=◌
        ◌>>=◌ : {A B : Type 0} → Result EditError A → (A → Result EditError B) → Result EditError B
        ◌>>=◌ = Results.◌>>=◌
