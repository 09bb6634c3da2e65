-- ===== src/Form/State.antt =====
-- crates/schemaform/src/engine.rs: `Form`, the state that every edit changes, and the shape of its
-- methods. A method takes the form and gives its result beside the form as it leaves it, also where
-- it returns an error.
use schemaform.Prelude.{
  ℕ, ◌+◌, ◌%◌, ◌^◌, Bool, true, false, Option, none, some, List, map, is_some, ◌||◌,
}
use schemaform.Prelude.Results.{Result, ok, err, panic}
use schemaform.Json.{Text, Value}
use schemaform.Number.{ParseBlocker}
use schemaform.Form.Definition.{ControlDefinition, ArrayDefinition}

pub data EditError : Type 0 where
  unknown_control : Text → EditError
  unresolved_control : Text → EditError
  operation_not_allowed : Text → EditError

pub data CreateFormError : Type 0 where
  form_data_must_be_object : CreateFormError

pub data ApplyExternalFindingsError : Type 0 where
  stale_data_revision : (current supplied : ℕ) → ApplyExternalFindingsError

pub record ControlState (P : Type 0) : Type 0 where
  pub definition : ControlDefinition P
  pub edit_buffer : Option Text
  pub parse_blocker : Option ParseBlocker
  pub touched : Bool

pub record ArrayItemState (P : Type 0) : Type 0 where
  pub identity : ℕ
  pub controls : List (ControlState P)

pub record ArrayState (P : Type 0) : Type 0 where
  pub definition : ArrayDefinition P
  pub items : List (ArrayItemState P)
  pub touched : Bool

pub record ExternalFinding (P : Type 0) : Type 0 where
  pub instance_pointer : P
  pub code : Text
  pub blocking : Bool

pub record ExternalFindingBatch (P : Type 0) : Type 0 where
  pub source : Text
  pub data_revision : ℕ
  pub findings : List (ExternalFinding P)

pub record Form (P : Type 0) : Type 0 where
  pub controls : List (ControlState P)
  pub arrays : List (ArrayState P)
  pub next_item_identity : ℕ
  pub baseline_array_identities : List (List ℕ)
  pub definition_fingerprint : Text
  pub baseline : Value
  pub form_data : Value
  pub external_finding_batches : List (ExternalFindingBatch P)
  pub submission_attempted : Bool
  pub data_revision : ℕ
  pub state_revision : ℕ

-- `counter += 1` on a `u64`, as a release build wraps it
unfoldable pub bump : ℕ → ℕ
bump n = (n + 1) % 2 ^ 64

module _ {P : Type 0} where
  -- `ControlState::new`
  unfoldable pub new_control : ControlDefinition P → ControlState P
  new_control definition = record {
    definition = definition;
    edit_buffer = none;
    parse_blocker = none;
    touched = false;
  }

  -- The three methods give the control as they leave it, and whether it changed.
  unfoldable pub finalize_edit_buffer : ControlState P → ControlState P × Bool
  finalize_edit_buffer control = elim control.parse_blocker [
    | none ↦ (record control { edit_buffer = none }, is_some control.edit_buffer)
    | some _ ↦ (control, false)
  ]

  unfoldable pub clear_edit_state : ControlState P → ControlState P × Bool
  clear_edit_state control = (
    record control { edit_buffer = none; parse_blocker = none },
    is_some control.edit_buffer || is_some control.parse_blocker,
  )

  unfoldable pub clear_lifecycle_state : ControlState P → ControlState P × Bool
  unfolding clear_edit_state
  clear_lifecycle_state control =
      let (cleared, changed) = clear_edit_state control in
      (record cleared { touched = false }, changed || control.touched)

  -- `ArrayItemState::new`
  unfoldable pub new_item : ℕ → ArrayDefinition P → ArrayItemState P
  unfolding new_control
  new_item identity definition = record {
    identity = identity;
    controls = map new_control definition.item_template.controls;
  }

  abbrev pub identities : List (ArrayItemState P) → List ℕ
  identities = map λ item. item.identity

abbrev pub M : Type 0 → Type 0 → Type 0 → Type 0
M E P A = Form P → Result E A × Form P

module _ {E P : Type 0} where
  abbrev resume : {A B : Type 0} → Result E A × Form P → (A → M E P B) → Result E B × Form P
  resume (ok a, form) f = f a form
  resume (err e, form) f = (err e, form)
  resume (panic, form) f = (panic, form)

  infixl 5 ◌>>=◌ ◌>>◌
  abbrev pub ◌>>=◌ : {A B : Type 0} → M E P A → (A → M E P B) → M E P B
  ◌>>=◌ m f form = resume (m form) f

  abbrev pub ◌>>◌ : {B : Type 0} → M E P (Unit {0}) → M E P B → M E P B
  m >> k = m >>= λ _. k

  abbrev pub return : {A : Type 0} → A → M E P A
  return a form = (ok a, form)

  abbrev pub current : M E P (Form P)
  current form = (ok form, form)

  abbrev pub leave : Form P → M E P (Unit {0})
  leave form' form = (ok tt, form')

  abbrev pub fail : {A : Type 0} → E → M E P A
  fail e form = (err e, form)

  -- `if !condition { return Err(e) }`
  abbrev pub require : Bool → E → M E P (Unit {0})
  require true e form = (ok tt, form)
  require false e form = (err e, form)

  -- `option.ok_or(e)?`
  abbrev pub or_fail : {A : Type 0} → Option A → E → M E P A
  or_fail none e form = (err e, form)
  or_fail (some a) e form = (ok a, form)

  -- an index, an `unwrap`, an `expect`, `Vec::insert` or `Vec::remove`
  abbrev pub or_panic : {A : Type 0} → Option A → M E P A
  or_panic none form = (panic, form)
  or_panic (some a) form = (ok a, form)
