-- ===== src/Form/Views/Prospects.antt =====
-- `prospective_text_form_data` tells what `edit_text` does.
use schemaform.Prelude.{ℕ, ◌≡◌, refl, inl, inr, Option, none, some, Option-cases}
use schemaform.Prelude.Results.{Result, ok, err, panic}
use schemaform.Json.{Text, Value}
use schemaform.Pointer.{JsonPtr}
use schemaform.Pointer.Bound.{set_bound_value}
use schemaform.Form.State.{Form, EditError, bump}
use schemaform.Form.Lookup.{set_control_state}
use schemaform.Form.Parsing.{Parsers}
use schemaform.Form.Edits.{PreparedEdit, prepare_text_edit, edit_text_with_integer_digit_limit}
use schemaform.Form.Edits.Preparations.{Prepared, prepare_text_edit-Prepared}
use schemaform.Form.Views.{prospective_text_form_data}

module _ (j : JsonPtr) (parsers : Parsers) where
  open j use {PointerBuf}

  abbrev pub Foretells :
      Form PointerBuf
      → Result EditError (Option Value)
      → Result EditError (Unit {0}) × Form PointerBuf
      → Type 0
  Foretells form (ok none) (r, form') =
      (r ≡ ok tt) × (form'.form_data ≡ form.form_data) × (form'.data_revision ≡ form.data_revision)
  Foretells form (ok (some candidate)) (r, form') =
      (r ≡ ok tt) × (form'.form_data ≡ candidate) × (form'.data_revision ≡ bump form.data_revision)
  Foretells form (err e) (r, form') = (r ≡ err e) × (form' ≡ form)
  Foretells form panic p = ⊥

  -- What is foretold of a text edit is what the edit does: it fails with the error foretold and leaves
  -- the form, or it succeeds, and the data is the data foretold, under the next revision, or stays
  -- under its revision where none is foretold. Neither panics.
  pub prospective_text_form_data-Foretells :
      (form : Form PointerBuf) (binding input : Text) (limit : ℕ)
      → Foretells form
          (prospective_text_form_data j parsers form binding input limit)
          (edit_text_with_integer_digit_limit j parsers binding input limit form)
  unfolding prospective_text_form_data edit_text_with_integer_digit_limit set_control_state
  prospective_text_form_data-Foretells form binding input limit =
      edited (prepare_text_edit j parsers form binding input limit) refl
        (prepare_text_edit-Prepared j parsers form binding input limit)
    where
      edited :
          (r : Result EditError (PreparedEdit PointerBuf))
          → prepare_text_edit j parsers form binding input limit ≡ r
          → Prepared j parsers form binding input limit r
          → Foretells form
              (prospective_text_form_data j parsers form binding input limit)
              (edit_text_with_integer_digit_limit j parsers binding input limit form)
      edited panic e h = absurd h
      edited (err e') e h = rw e (refl, refl)
      edited (ok edit) e h =
          let there = h.2.there in
          elim (Option-cases edit.replacement) [
            | inl kept ↦ rw (e, there, kept) (refl, refl, refl)
            | inr (v, replaced) ↦
                elim (Option-cases (set_bound_value j edit.binding form.form_data v)) [
                  | inl refused ↦ rw (e, there, replaced, refused) (refl, refl)
                  | inr (d, bound) ↦ rw (e, there, replaced, bound) (refl, refl, refl)
                ]
          ]
