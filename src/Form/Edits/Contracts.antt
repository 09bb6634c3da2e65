-- ===== src/Form/Edits/Contracts.antt =====
-- What `set_value` does on every branch.
use schemaform.Prelude.{◌≡◌, ◌⊎◌, Bool, true, some, [], is_some_and}
use schemaform.Prelude.Results.{Result}
use schemaform.Json.{Text, Value}
use schemaform.Pointer.{JsonPtr}
use schemaform.Pointer.Bound.{set_bound_value}
use schemaform.Form.State.{Form, ControlState, EditError, bump, clear_edit_state}
use schemaform.Form.Parsing.{Parsers, equal}
use schemaform.Form.Lookup.{ControlLocation, control_location, control_state}
use schemaform.Form.Edits.Accepted.{Takes, Chooses}
use schemaform.Form.Edits.Frame.{KeepsOthers}
use schemaform.Form.Arrays.Contracts.{Contract}
use schemaform.Prelude.{false, none}
use schemaform.Form.State.{unknown_control, unresolved_control, operation_not_allowed}

module _ (j : JsonPtr) (parsers : Parsers) where
  open j use {PointerBuf, parse, resolve}

  -- The data is changed at the binding, the control's edit is forgotten, the findings of other
  -- sources are gone, both revisions have moved on and all else is kept.
  pub record Writes (form form' : Form PointerBuf) (location : ControlLocation)
      (c : ControlState PointerBuf) (p : PointerBuf) (w : Value) : Type 0 where
    pub written : set_bound_value j p form.form_data w ≡ some form'.form_data
    pub reads : resolve p form'.form_data ≡ some w
    pub forgotten : control_state form' location ≡ some (clear_edit_state c).0
    pub cleared : form'.external_finding_batches ≡ []
    pub data_moved : form'.data_revision ≡ bump form.data_revision
    pub state_moved : form'.state_revision ≡ bump form.state_revision
    pub others : KeepsOthers form form' location

  -- The binding holds a value that is equal.
  abbrev holds : Form PointerBuf → PointerBuf → Value → Bool
  holds form p w = is_some_and (resolve p form.form_data) (λ now. equal parsers now w)

  abbrev pub SetsValue : Form PointerBuf → Text → Value → Unit {0} → Form PointerBuf → Type 0
  SetsValue form binding value _ form' =
      (location : ControlLocation) × (c : ControlState PointerBuf) × (p : PointerBuf) × (w : Value)
      × (control_location j form binding ≡ some location)
      × (control_state form location ≡ some c)
      × (parse binding ≡ some p)
      × Takes parsers c.definition value
      × Chooses parsers c.definition value w
      × (((holds form p w ≡ true) × (form' ≡ form))
          ⊎ ((holds form p w ≡ false) × Writes form form' location c p w))

  -- why a value cannot be set
  abbrev pub CannotSet : Form PointerBuf → Text → Value → EditError → Type 0
  CannotSet form binding value e =
      ((e ≡ unknown_control binding) × (control_location j form binding ≡ none))
      ⊎ ((location : ControlLocation) × (c : ControlState PointerBuf) × (control_location j form
              binding
            ≡ some location)
          × (control_state form location ≡ some c)
          × (((e ≡ operation_not_allowed binding) × ¬ Takes parsers c.definition value)
              ⊎ ((e ≡ unknown_control binding) × (parse binding ≡ none))
              ⊎ ((p : PointerBuf) × (w : Value) × (e ≡ unresolved_control binding)
                  × (parse binding ≡ some p)
                  × Chooses parsers c.definition value w
                  × (set_bound_value j p form.form_data w ≡ none))))

  module _ (form : Form PointerBuf) (binding : Text) (value : Value) where
    abbrev Q : Result EditError (Unit {0}) × Form PointerBuf → Type 0
    Q = Contract j form (CannotSet form binding value) (SetsValue form binding value)
