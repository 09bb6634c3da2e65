-- ===== src/Form/Edits.antt =====
-- crates/schemaform/src/engine.rs: the edits of one bound value.
pub mod Accepted
pub mod Frame
pub mod Contracts
pub mod Readings
pub mod Preparations
pub mod Shown
pub mod Texts
use mathlib.Core.Option
use schemaform.Prelude.{
  ℕ, zero, suc, ◌+◌, ◌-◌, Bool, true, false, not, ◌&&◌, ◌||◌, Option, none, some, List, [], ◌∷◌,
  map, any, find, and_then, map_or, is_some, is_none, is_some_and, if◌then◌else◌, length,
}
use schemaform.Prelude.Results
use schemaform.Prelude.Results.{Result, ok, err, panic, guard, ok_or}
use schemaform.Json.{Text, text_eq, Value, string, is_null, is_object, is_array}
use schemaform.Json.Equality.{value_eq}
use schemaform.Number.{
  ParseBlocker, invalid_number, invalid_integer, resource_limit_exceeded, numbers_equal,
}
use schemaform.Pointer.{JsonPtr}
use schemaform.Pointer.Bound.{set_bound_value, take_bound_value, binding_parent_is_object}
use schemaform.Form.Definition.{ControlDefinition, ControlKind, CompiledChoice, is_multiple_choice}
use schemaform.Form.State.{
  Form, ControlState, ArrayState, ArrayItemState, EditError, unknown_control, unresolved_control,
  operation_not_allowed, M, ◌>>=◌, ◌>>◌, return, current, leave, fail, require, or_fail, or_panic,
  bump, clear_edit_state,
}
use schemaform.Form.Parsing.{
  Parsers, equal, parse_number, parse_integer_with_limit, control_value_is_compatible,
}
use schemaform.Form.Create.{fresh_array_items_for_data}
use schemaform.Form.Lookup.{
  ControlLocation, control_location, control_state, set_control_state, array_item_pointer,
  append_relative_pointer, map_from,
}

-- `Result<T, EditError>` inside a method
abbrev lift : {E P A : Type 0} → Result E A → M E P A
lift (ok a) form = (ok a, form)
lift (err e) form = (err e, form)
lift panic form = (panic, form)

abbrev pub text_option_eq : Option Text → Option Text → Bool
text_option_eq none none = true
text_option_eq (some s) (some t) = text_eq s t
text_option_eq _ _ = false

abbrev pub blocker_eq : Option ParseBlocker → Option ParseBlocker → Bool
blocker_eq none none = true
blocker_eq (some invalid_number) (some invalid_number) = true
blocker_eq (some invalid_integer) (some invalid_integer) = true
blocker_eq (some resource_limit_exceeded) (some resource_limit_exceeded) = true
blocker_eq _ _ = false

-- What a text edit is about to do.
pub record PreparedEdit (P : Type 0) : Type 0 where
  pub location : ControlLocation
  pub binding : P
  pub parse_blocker : Option ParseBlocker
  pub replacement : Option Value

module _ (j : JsonPtr) (parsers : Parsers) where
  open j use {PointerBuf, as_str, parse, resolve, starts_with}

  -- the text as a value of the kind; no other kind is edited as text
  unfoldable pub parsed_text : ControlKind → Text → ℕ → Option (Result ParseBlocker Value)
  parsed_text ControlKind.string input limit = some (ok (string input))
  parsed_text ControlKind.number input limit = some (parse_number parsers input)
  parsed_text ControlKind.integer input limit = some (parse_integer_with_limit parsers input limit)
  parsed_text _ input limit = none

  -- whether the text stands for the value that is there
  unfoldable pub is_unchanged : ControlKind → Option Value → Value → Bool
  is_unchanged ControlKind.string (some now) value = value_eq now value
  is_unchanged _ (some now) value = numbers_equal parsers.parse_big_int now value
  is_unchanged _ none value = false

  unfoldable pub outcome_of :
      ControlKind
      → Option Value
      → Result ParseBlocker Value
      → Result EditError (Option ParseBlocker × Option Value)
  unfolding is_unchanged
  outcome_of kind now (ok value) =
      ok (none, if is_unchanged kind now value then none else some value)
  outcome_of kind now (err blocker) = ok (some blocker, none)
  outcome_of kind now panic = panic

  unfoldable pub prepare_text_edit :
      Form PointerBuf → Text → Text → ℕ → Result EditError (PreparedEdit PointerBuf)
  unfolding parsed_text outcome_of
  prepare_text_edit form binding input max_canonical_integer_digits = do
    location ← ok_or (control_location j form binding) (unknown_control binding)
    control ← Results.expect (control_state form location)
    let definition = control.definition
    control_binding ← ok_or (parse binding) (unknown_control binding)
    parsed ←
        ok_or (parsed_text definition.kind input max_canonical_integer_digits)
          (operation_not_allowed binding)
    let now = resolve control_binding form.form_data
    guard
        (not (
          is_some_and now (λ value.
            not (is_null value) && not (control_value_is_compatible parsers definition value))))
        (operation_not_allowed binding)
    guard (not (is_some_and now is_null && not definition.accepts_null))
        (operation_not_allowed binding)
    guard (is_some now || binding_parent_is_object j control_binding form.form_data)
        (unresolved_control binding)
    (blocker, replacement) ← outcome_of definition.kind now parsed
    ok (record {
      location = location;
      binding = control_binding;
      parse_blocker = blocker;
      replacement = replacement;
    })
    where
      infixl 5 ◌>>=◌ ◌>>◌
      ◌>>=◌ : {A B : Type 0} → Result EditError A → (A → Result EditError B) → Result EditError B
      ◌>>=◌ = Results.◌>>=◌

      ◌>>◌ : {B : Type 0} → Result EditError (Unit {0}) → Result EditError B → Result EditError B
      ◌>>◌ = Results.◌>>◌

  abbrev bind_replacement : PointerBuf → Value → Option Value → Option Value
  bind_replacement binding form_data none = some form_data
  bind_replacement binding form_data (some value) = set_bound_value j binding form_data value

  -- A change of the form's data: the findings of other sources no longer stand.
  abbrev pub data_changed_to : Form PointerBuf → Value → Form PointerBuf
  data_changed_to form form_data = record form {
    form_data = form_data;
    external_finding_batches = [];
    data_revision = bump form.data_revision;
  }

  unfoldable pub edit_text_with_integer_digit_limit :
      Text → Text → ℕ → M EditError PointerBuf (Unit {0})
  edit_text_with_integer_digit_limit binding input max_canonical_integer_digits = do
    form ← current
    edit ← lift (prepare_text_edit form binding input max_canonical_integer_digits)
    control ← or_panic (control_state form edit.location)
    form_data ←
        or_fail (bind_replacement edit.binding form.form_data edit.replacement)
          (unresolved_control binding)
    let edited = record control { edit_buffer = some input; parse_blocker = edit.parse_blocker }
    let edit_state_changed =
        not (text_option_eq control.edit_buffer (some input))
        || not (blocker_eq control.parse_blocker edit.parse_blocker)
    let form_data_changed = is_some edit.replacement
    let form' = if form_data_changed then data_changed_to form form_data else form
    leave (record (set_control_state form' edit.location edited) {
      state_revision =
          if form_data_changed || edit_state_changed
          then bump form.state_revision
          else form.state_revision;
    })

  -- the option of the control that the value stands for, or the value itself
  unfoldable pub chosen_value : ControlDefinition PointerBuf → Value → Value
  chosen_value definition value =
      map_or (find (λ choice. equal parsers choice.value value) definition.choices) value
        (λ choice. choice.value)

  unfoldable pub set_value : Text → Value → M EditError PointerBuf (Unit {0})
  set_value binding value = do
    form ← current
    location ← or_fail (control_location j form binding) (unknown_control binding)
    control ← or_panic (control_state form location)
    require (control_value_is_compatible parsers control.definition value)
        (operation_not_allowed binding)
    let chosen = chosen_value control.definition value
    control_binding ← or_fail (parse binding) (unknown_control binding)
    if is_some_and (resolve control_binding form.form_data) (λ now. equal parsers now chosen)
        then return tt
        else do
          form_data ←
              or_fail (set_bound_value j control_binding form.form_data chosen)
                (unresolved_control binding)
          leave
              (record (set_control_state (data_changed_to form form_data) location
                (clear_edit_state control).0) { state_revision = bump form.state_revision })
