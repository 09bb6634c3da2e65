-- ===== src/Form/Submission.antt =====
-- crates/schemaform/src/engine.rs: `prepare_submission`, and what it gives back.
pub mod Ready
use schemaform.Prelude.{
  ℕ, Bool, true, false, not, ◌||◌, Option, none, some, List, [], ◌∷◌, ◌++◌, map, keep_if,
  if◌then◌else◌,
}
use mathlib.Core.List.{flat_map}
use schemaform.Json.{Text, Value}
use schemaform.Number.{ParseBlocker}
use schemaform.Pointer.{JsonPtr}
use schemaform.Form.State.{
  Form, ControlState, ArrayState, ArrayItemState, ExternalFinding, ExternalFindingBatch, bump,
  finalize_edit_buffer,
}
use schemaform.Form.Lookup.{array_item_pointer, append_relative_pointer, map_from}
use schemaform.Form.Lifecycle.{update_all, update_arrays}

pub data SubmissionBlocker (P : Type 0) : Type 0 where
  parse_blocker : (binding : P) (reason : ParseBlocker) → SubmissionBlocker P
  external_blocker : (source : Text) (instance_pointer : P) (code : Text) → SubmissionBlocker P

pub record SubmissionSnapshot : Type 0 where
  pub form_data : Value
  pub data_revision : ℕ
  pub definition_fingerprint : Text

pub data SubmissionOutcome (P : Type 0) : Type 0 where
  ready : SubmissionSnapshot → SubmissionOutcome P
  blocked : List (SubmissionBlocker P) → SubmissionOutcome P

-- `filter_map`
abbrev pub flattened {ℓ κ} : {A : Type ℓ} {B : Type κ} → (A → List B) → List A → List B
flattened f [] = []
flattened f (x ∷ xs) = f x ++ flattened f xs

abbrev pub flattened_from {ℓ κ} : {A : Type ℓ} {B : Type κ} → (ℕ → A → List B) → ℕ → List A → List B
flattened_from f i [] = []
flattened_from f i (x ∷ xs) = f i x ++ flattened_from f (ℕ.suc i) xs

module _ (j : JsonPtr) where
  open j use {PointerBuf}

  abbrev pub control_blockers :
      PointerBuf → ControlState PointerBuf → List (SubmissionBlocker PointerBuf)
  control_blockers binding control = elim control.parse_blocker [
    | none ↦ []
    | some reason ↦ SubmissionBlocker.parse_blocker binding reason ∷ []
  ]

  unfoldable pub item_blockers :
      PointerBuf → ℕ → ArrayItemState PointerBuf → List (SubmissionBlocker PointerBuf)
  item_blockers array_binding index item =
      flattened
        (λ (control : ControlState PointerBuf).
          control_blockers
            (append_relative_pointer j (array_item_pointer j array_binding index)
              control.definition.binding)
            control)
        item.controls

  abbrev pub finding_blockers :
      Text → ExternalFinding PointerBuf → List (SubmissionBlocker PointerBuf)
  finding_blockers source finding =
      if finding.blocking
      then external_blocker source finding.instance_pointer finding.code ∷ []
      else []

  unfoldable pub blockers : Form PointerBuf → List (SubmissionBlocker PointerBuf)
  unfolding item_blockers
  blockers form =
      flattened
        (λ (control : ControlState PointerBuf). control_blockers control.definition.binding control)
        form.controls
      ++ (flattened
            (λ (array : ArrayState PointerBuf).
              flattened_from (item_blockers array.definition.binding) 0 array.items)
            form.arrays
          ++ flattened
              (λ (batch : ExternalFindingBatch PointerBuf).
                flattened (finding_blockers batch.source) batch.findings)
              form.external_finding_batches)

  abbrev outcome :
      List (SubmissionBlocker PointerBuf) → Form PointerBuf → SubmissionOutcome PointerBuf
  outcome [] form = ready (record {
    form_data = form.form_data;
    data_revision = form.data_revision;
    definition_fingerprint = form.definition_fingerprint;
  })
  outcome (b ∷ bs) form = blocked (b ∷ bs)

  unfoldable pub prepare_submission :
      Form PointerBuf → SubmissionOutcome PointerBuf × Form PointerBuf
  unfolding blockers update_all update_arrays finalize_edit_buffer
  prepare_submission form =
      let found = blockers form in
      let (controls, changed) = update_all finalize_edit_buffer form.controls in
      let (arrays, changed') = update_arrays finalize_edit_buffer false form.arrays in
      let state_changed = not form.submission_attempted || changed || changed' in
      let form' : Form PointerBuf = record form {
        controls = controls;
        arrays = arrays;
        submission_attempted = true;
        state_revision = if state_changed then bump form.state_revision else form.state_revision;
      } in
      (outcome found form', form')
