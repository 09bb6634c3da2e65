-- ===== src/Form/Edits/Texts.antt =====
-- What a text edit does on every branch.
use schemaform.Prelude.{ℕ, ◌≡◌, ◌⊎◌, none, some, []}
use schemaform.Prelude.Results.{Result, ok, err, panic}
use schemaform.Json.{Text, Value}
use schemaform.Number.{ParseBlocker}
use schemaform.Pointer.{JsonPtr}
use schemaform.Pointer.Bound.{set_bound_value}
use schemaform.Form.State.{Form, ControlState, EditError, unresolved_control, bump}
use schemaform.Form.Parsing.{Parsers}
use schemaform.Form.Lookup.{ControlLocation}
use schemaform.Form.Edits.Readings.{ReadsAs, StandsThere}
use schemaform.Form.Edits.Preparations.{Finds, Replaceable, Refuses}
use schemaform.Form.Edits.Shown.{Shows, Leaves}

module _ (j : JsonPtr) (parsers : Parsers) where
  open j use {PointerBuf, resolve}

  -- The value is bound and read back, the findings are gone and both revisions have moved on.
  abbrev Binds : Form PointerBuf → Form PointerBuf → PointerBuf → Value → Type 0
  Binds form form' p v =
      (set_bound_value j p form.form_data v ≡ some form'.form_data)
      × (resolve p form'.form_data ≡ some v)
      × (form'.data_revision ≡ bump form.data_revision)
      × (form'.state_revision ≡ bump form.state_revision)
      × (form'.external_finding_batches ≡ [])

  -- What an edit does, by what its text is read as.
  abbrev Follows :
      Form PointerBuf
      → Form PointerBuf
      → ControlLocation
      → ControlState PointerBuf
      → PointerBuf
      → Text
      → Result ParseBlocker Value
      → Type 0
  Follows form form' location c p input (ok v) =
      Shows j parsers form form' location c input none
      × ((StandsThere parsers c.definition.kind (resolve p form.form_data) v
            × Leaves j parsers form form' c input none)
          ⊎ (¬ StandsThere parsers c.definition.kind (resolve p form.form_data) v
              × Binds form form' p v))
  Follows form form' location c p input (err b) =
      Shows j parsers form form' location c input (some b)
      × Leaves j parsers form form' c input (some b)
  Follows form form' location c p input panic = ⊥

  abbrev pub EditsText : Form PointerBuf → Text → Text → ℕ → Unit {0} → Form PointerBuf → Type 0
  EditsText form binding input limit _ form' =
      (location : ControlLocation) × (c : ControlState PointerBuf) × (p : PointerBuf) × (r : Result
        ParseBlocker Value)
      × Finds j parsers form binding location c p
      × ReadsAs parsers c.definition.kind input limit r
      × Replaceable j parsers form c p
      × Follows form form' location c p input r

  -- why a text cannot be edited: the edit is refused, or the new value cannot be bound
  abbrev pub CannotEdit : Form PointerBuf → Text → Text → ℕ → EditError → Type 0
  CannotEdit form binding input limit e =
      Refuses j parsers form binding input limit e
      ⊎ ((location : ControlLocation) × (c : ControlState PointerBuf) × (p : PointerBuf)
          × (v : Value) × Finds j parsers form binding location c p
          × ReadsAs parsers c.definition.kind input limit (ok v)
          × ¬ StandsThere parsers c.definition.kind (resolve p form.form_data) v
          × (e ≡ unresolved_control binding)
          × (set_bound_value j p form.form_data v ≡ none))
