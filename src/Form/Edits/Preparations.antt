-- ===== src/Form/Edits/Preparations.antt =====
-- What `prepare_text_edit` finds out about a text edit, on every branch.
use schemaform.Prelude.{
  ℕ, ◌≡◌, refl, ◌⊎◌, inl, inr, true, false, ◌||◌, Option, none, some, is_some, Option-cases,
  Bool-cases, arith,
}
use schemaform.Prelude.Results.{Result, ok, err, panic}
use schemaform.Json.{Text, Value}
use schemaform.Number.{ParseBlocker}
use schemaform.Pointer.{JsonPtr}
use schemaform.Pointer.Bound.{binding_parent_is_object}
use schemaform.Form.State.{
  Form, ControlState, EditError, unknown_control, unresolved_control, operation_not_allowed,
}
use schemaform.Form.Parsing.{Parsers}
use schemaform.Form.Lookup.{ControlLocation, control_location, control_state}
use schemaform.Form.Lookup.Laws.{control_location-control_state}
use schemaform.Form.Edits.{PreparedEdit, parsed_text, outcome_of, prepare_text_edit}
use schemaform.Form.Edits.Accepted.{Takes}
use schemaform.Form.Edits.Readings.{
  ReadsAs, StandsThere, parsed_text-ReadsAs, parsed_text-none, ReadsAs-cases, is_unchanged_cases,
  is_unfit, is_unfit_null, unfit-Takes, unfit_null-Takes, fit-Takes,
}

module _ (j : JsonPtr) (parsers : Parsers) where
  open j use {PointerBuf, parse, resolve}

  -- A control at which something is found out about an edit.
  pub record Finds (form : Form PointerBuf) (binding : Text) (location : ControlLocation)
      (c : ControlState PointerBuf) (p : PointerBuf) : Type 0 where
    pub located : control_location j form binding ≡ some location
    pub there : control_state form location ≡ some c
    pub parsed : parse binding ≡ some p

  -- A text may take the place of what is there: a value that the control takes, or nothing, below an
  -- object.
  abbrev pub Replaceable : Form PointerBuf → ControlState PointerBuf → PointerBuf → Type 0
  Replaceable form c p =
      ((resolve p form.form_data ≡ none) × (binding_parent_is_object j p form.form_data ≡ true))
      ⊎ ((value : Value) × (resolve p form.form_data ≡ some value)
          × Takes parsers c.definition value)

  -- why a text edit is refused
  abbrev pub Refuses : Form PointerBuf → Text → Text → ℕ → EditError → Type 0
  Refuses form binding input limit e =
      ((e ≡ unknown_control binding)
        × ((control_location j form binding ≡ none) ⊎ (parse binding ≡ none)))
      ⊎ ((location : ControlLocation) × (c : ControlState PointerBuf) × (p : PointerBuf) × Finds
            form binding location c p
          × (((e ≡ operation_not_allowed binding)
                × ¬ (
                    (r : Result ParseBlocker Value) × ReadsAs parsers c.definition.kind input limit
                      r))
              ⊎ ((value : Value) × (e ≡ operation_not_allowed binding)
                  × (resolve p form.form_data ≡ some value)
                  × ¬ Takes parsers c.definition value)
              ⊎ ((e ≡ unresolved_control binding)
                  × (resolve p form.form_data ≡ none)
                  × (binding_parent_is_object j p form.form_data ≡ false))))

  -- What an edit is to do, by what its text was read as: a text that was not understood blocks, and
  -- one that stands there already replaces nothing.
  abbrev pub Decides :
      ControlState PointerBuf
      → Option Value
      → Result ParseBlocker Value
      → Option ParseBlocker
      → Option Value
      → Type 0
  Decides c now (ok v) blocker replacement =
      (blocker ≡ none)
      × ((StandsThere parsers c.definition.kind now v × (replacement ≡ none))
          ⊎ (¬ StandsThere parsers c.definition.kind now v × (replacement ≡ some v)))
  Decides c now (err b) blocker replacement = (blocker ≡ some b) × (replacement ≡ none)
  Decides c now panic blocker replacement = ⊥

  abbrev pub Prepared :
      Form PointerBuf → Text → Text → ℕ → Result EditError (PreparedEdit PointerBuf) → Type 0
  Prepared form binding input limit (ok edit) =
      (c : ControlState PointerBuf) × (r : Result ParseBlocker Value) × Finds form binding
        edit.location c edit.binding
      × ReadsAs parsers c.definition.kind input limit r
      × Replaceable form c edit.binding
      × Decides c (resolve edit.binding form.form_data) r edit.parse_blocker edit.replacement
  Prepared form binding input limit (err e) = Refuses form binding input limit e
  Prepared form binding input limit panic = ⊥

  -- The control is found, and its kind has texts.
  module _ (form : Form PointerBuf) (binding input : Text) (limit : ℕ) (location : ControlLocation)
      (c : ControlState PointerBuf) (p : PointerBuf) (r : Result ParseBlocker Value)
      (f : Finds form binding location c p)
      (as_text : parsed_text j parsers c.definition.kind input limit ≡ some r) where
    -- What is there may be replaced: the reading decides.
    decided :
        is_unfit parsers c.definition (resolve p form.form_data) ≡ false
        → is_unfit_null parsers c.definition (resolve p form.form_data) ≡ false
        → (is_some (resolve p form.form_data) || binding_parent_is_object j p form.form_data) ≡ true
        → Replaceable form c p
        → Prepared form binding input limit (prepare_text_edit j parsers form binding input limit)
    unfolding prepare_text_edit outcome_of
    decided fit fit' bindable replaceable =
        let reads = parsed_text-ReadsAs parsers j c.definition.kind input limit r as_text in
        elim (ReadsAs-cases parsers c.definition.kind input limit r reads) [
          | inr (b, e) ↦
              rw (f.located, f.there, f.parsed, as_text, fit, fit', bindable, e)
                (c, err b, f, rw (← e) reads, replaceable, (refl, refl))
          | inl (v, e) ↦
              elim (is_unchanged_cases parsers j c.definition.kind (resolve p form.form_data) v) [
                | inl (same, stands) ↦
                    rw (f.located, f.there, f.parsed, as_text, fit, fit', bindable, e, same)
                      (c, ok v, f, rw (← e) reads, replaceable, (refl, inl (stands, refl)))
                | inr (other, differs) ↦
                    rw (f.located, f.there, f.parsed, as_text, fit, fit', bindable, e, other)
                      (c, ok v, f, rw (← e) reads, replaceable, (refl, inr (differs, refl)))
              ]
        ]

    checked :
        Prepared form binding input limit (prepare_text_edit j parsers form binding input limit)
    unfolding prepare_text_edit
    checked = elim (Bool-cases (is_unfit parsers c.definition (resolve p form.form_data))) [
      | inl unfit ↦
          let (v, now, refused) =
            unfit-Takes parsers c.definition (resolve p form.form_data) unfit in
          rw (f.located, f.there, f.parsed, as_text, unfit)
            (inr (location, c, p, f, inr (inl (v, refl, now, refused))))
      | inr fit ↦
          elim (Bool-cases (is_unfit_null parsers c.definition (resolve p form.form_data))) [
            | inl unfit ↦
                let (v, now, refused) =
                  unfit_null-Takes parsers c.definition (resolve p form.form_data) unfit in
                rw (f.located, f.there, f.parsed, as_text, fit, unfit)
                  (inr (location, c, p, f, inr (inl (v, refl, now, refused))))
            | inr fit' ↦ elim (Option-cases (resolve p form.form_data)) [
              | inr (v, now) ↦ decided fit fit' (rw now refl) (
                  inr (
                    v,
                    now,
                    fit-Takes parsers c.definition v (ground (arith, now)) (ground (arith, now)),
                  ))
              | inl absent ↦ elim (Bool-cases (binding_parent_is_object j p form.form_data)) [
                | inl below ↦ decided fit fit' (rw (absent, below) refl) (inl (absent, below))
                | inr lost ↦
                    rw (f.located, f.there, f.parsed, as_text, absent, lost)
                      (inr (location, c, p, f, inr (inr (refl, absent, lost))))
              ]
            ]
          ]
    ]

  -- A preparation never panics. It is refused for a reason, or says what the edit is to do.
  pub prepare_text_edit-Prepared :
      (form : Form PointerBuf) (binding input : Text) (limit : ℕ)
      → Prepared form binding input limit (prepare_text_edit j parsers form binding input limit)
  unfolding prepare_text_edit
  prepare_text_edit-Prepared form binding input limit =
      elim (Option-cases (control_location j form binding)) [
        | inl e ↦ rw e (inl (refl, inl e))
        | inr (location, e) ↦
            let (c, there) = control_location-control_state j form binding location e in
            elim (Option-cases (parse binding)) [
              | inl e' ↦ rw (e, there, e') (inl (refl, inr e'))
              | inr (p, e') ↦
                  let f : Finds form binding location c p = record {
                    located = e;
                    there = there;
                    parsed = e';
                  } in
                  elim (Option-cases (parsed_text j parsers c.definition.kind input limit)) [
                    | inl none_such ↦
                        rw (e, there, e', none_such)
                          (inr (
                            location,
                            c,
                            p,
                            f,
                            inl (
                              refl,
                              parsed_text-none parsers j c.definition.kind input limit none_such,
                            ),
                          ))
                    | inr (r, as_text) ↦ checked form binding input limit location c p r f as_text
                  ]
            ]
      ]
