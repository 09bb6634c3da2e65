-- ===== src/Form/Edits/Shown.antt =====
-- What a control shows after a text edit: the text and why it was not understood.
use schemaform.Prelude.{
  ◌≡◌, refl, ◌⊎◌, ◌↔◌, inl, inr, not, ◌||◌, if◌then◌else◌, true, false, Bool, Option, none, some,
  Bool-cases, arith,
}
use schemaform.Json.{Text, Value}
use schemaform.Json.Laws.{text_eq_iff}
use schemaform.Number.{ParseBlocker, invalid_number, invalid_integer, resource_limit_exceeded}
use schemaform.Pointer.{JsonPtr}
use schemaform.Form.State.{Form, ControlState, bump}
use schemaform.Form.Parsing.{Parsers}
use schemaform.Form.Lookup.{ControlLocation, control_state, set_control_state}
use schemaform.Form.Lookup.Laws.{control_state-set_control_state}
use schemaform.Form.Edits.{data_changed_to, text_option_eq, blocker_eq}
use schemaform.Form.Edits.Frame.{KeepsOthers, set_control_state-IsKept}

text_option_eq_iff : (a b : Option Text) → (text_option_eq a b ≡ true) ↔ (a ≡ b)
text_option_eq_iff none none = (λ h. refl, λ h. refl)
text_option_eq_iff none (some t) = (λ h. ground arith, λ h. ground arith)
text_option_eq_iff (some s) none = (λ h. ground arith, λ h. ground arith)
text_option_eq_iff (some s) (some t) =
    (λ h. ground (arith, text_eq_iff s t), λ h. ground (arith, text_eq_iff s t))

blocker_eq_iff : (a b : Option ParseBlocker) → (blocker_eq a b ≡ true) ↔ (a ≡ b)
blocker_eq_iff none none = (λ h. refl, λ h. refl)
blocker_eq_iff (some invalid_number) (some invalid_number) = (λ h. refl, λ h. refl)
blocker_eq_iff (some invalid_integer) (some invalid_integer) = (λ h. refl, λ h. refl)
blocker_eq_iff (some resource_limit_exceeded) (some resource_limit_exceeded) =
    (λ h. refl, λ h. refl)
blocker_eq_iff _ _ = (λ h. ground arith, λ h. ground arith)

module _ (j : JsonPtr) (parsers : Parsers) where
  open j use {PointerBuf}

  -- The control showed the text and the blocker already.
  abbrev pub Showed : ControlState PointerBuf → Text → Option ParseBlocker → Type 0
  Showed c input blocker = (c.edit_buffer ≡ some input) × (c.parse_blocker ≡ blocker)

  -- The control shows the text and why it was not understood, and all else of the form's state but
  -- its data is kept.
  pub record Shows (form form' : Form PointerBuf) (location : ControlLocation)
      (c : ControlState PointerBuf) (input : Text) (blocker : Option ParseBlocker) : Type 0 where
    pub shown :
        control_state form' location
        ≡ some (record c { edit_buffer = some input; parse_blocker = blocker })
    pub others : KeepsOthers form form' location

  -- The data stays; the state revision moves on unless the control showed the same before.
  abbrev pub Leaves :
      Form PointerBuf
      → Form PointerBuf
      → ControlState PointerBuf
      → Text
      → Option ParseBlocker
      → Type 0
  Leaves form form' c input blocker =
      (form'.form_data ≡ form.form_data)
      × (form'.data_revision ≡ form.data_revision)
      × (form'.external_finding_batches ≡ form.external_finding_batches)
      × ((Showed c input blocker × (form'.state_revision ≡ form.state_revision))
          ⊎ (¬ Showed c input blocker × (form'.state_revision ≡ bump form.state_revision)))

  -- whether the edit changes what the control shows
  abbrev pub shows_anew : ControlState PointerBuf → Text → Option ParseBlocker → Bool
  shows_anew c input blocker =
      not (text_option_eq c.edit_buffer (some input)) || not (blocker_eq c.parse_blocker blocker)

  Showed-cases :
      (c : ControlState PointerBuf) (input : Text) (blocker : Option ParseBlocker)
      → ((shows_anew c input blocker ≡ false) × Showed c input blocker)
        ⊎ ((shows_anew c input blocker ≡ true) × ¬ Showed c input blocker)
  Showed-cases c input blocker = elim (Bool-cases (text_option_eq c.edit_buffer (some input))) [
    | inr e ↦ inr (
      ground (arith, e),
      λ h. let e' = (text_option_eq_iff c.edit_buffer (some input)).1 h.0 in cc,
    )
    | inl e ↦ elim (Bool-cases (blocker_eq c.parse_blocker blocker)) [
      | inr e' ↦
          inr (
            ground (arith, e'),
            λ h. let e'' = (blocker_eq_iff c.parse_blocker blocker).1 h.1 in cc,
          )
      | inl e' ↦ inl (
        ground (arith, e, e'),
        (
          (text_option_eq_iff c.edit_buffer (some input)).0 e,
          (blocker_eq_iff c.parse_blocker blocker).0 e',
        ),
      )
    ]
  ]

  -- The form that an edit which leaves the data ends in.
  abbrev pub shown_in :
      Form PointerBuf
      → ControlLocation
      → ControlState PointerBuf
      → Text
      → Option ParseBlocker
      → Form PointerBuf
  shown_in form location c input blocker =
      record (set_control_state form location
        (record c { edit_buffer = some input; parse_blocker = blocker })) {
          state_revision =
              if shows_anew c input blocker then bump form.state_revision else form.state_revision;
        }

  -- The form that an edit which binds a value ends in.
  abbrev pub bound_in :
      Form PointerBuf → ControlLocation → ControlState PointerBuf → Text → Value → Form PointerBuf
  bound_in form location c input d =
      record (set_control_state (data_changed_to j parsers form d) location
        (record c { edit_buffer = some input; parse_blocker = none })) {
          state_revision = bump form.state_revision;
        }

  module _ (form : Form PointerBuf) (location : ControlLocation) (c : ControlState PointerBuf)
      (there : control_state form location ≡ some c) (input : Text) where
    pub shown_in-Shows :
        (blocker : Option ParseBlocker)
        → Shows form (shown_in form location c input blocker) location c input blocker
    unfolding set_control_state control_state
    shown_in-Shows blocker = record {
      shown = control_state-set_control_state form location c _ there;
      others = record {
        baseline_kept = refl;
        baseline_identities_kept = refl;
        fingerprint_kept = refl;
        attempt_kept = refl;
        next_identity_kept = refl;
        controls_kept =
            set_control_state-IsKept form location
              (record c { edit_buffer = some input; parse_blocker = blocker });
      };
    }

    pub bound_in-Shows :
        (d : Value) → Shows form (bound_in form location c input d) location c input none
    unfolding set_control_state control_state
    bound_in-Shows d = record {
      shown = control_state-set_control_state (data_changed_to j parsers form d) location c _ there;
      others = record {
        baseline_kept = refl;
        baseline_identities_kept = refl;
        fingerprint_kept = refl;
        attempt_kept = refl;
        next_identity_kept = refl;
        controls_kept =
            set_control_state-IsKept form location
              (record c { edit_buffer = some input; parse_blocker = none });
      };
    }

    pub shown_in-Leaves :
        (blocker : Option ParseBlocker)
        → Leaves form (shown_in form location c input blocker) c input blocker
    unfolding set_control_state
    shown_in-Leaves blocker = elim (Showed-cases c input blocker) [
      | inl (same, showed) ↦ (refl, refl, refl, inl (showed, rw same refl))
      | inr (other, anew) ↦ (refl, refl, refl, inr (anew, rw other refl))
    ]
