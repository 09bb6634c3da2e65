-- ===== src/Examples/Witnesses.antt =====
-- The theorems at concrete inputs.
use schemaform.Form.Findings.{apply_external_findings}
use schemaform.Form.Findings.Published
use schemaform.Form.Findings.Published.{Publishes}
use schemaform.Examples.Forms.{taken}
use schemaform.Form.Lifecycle.{reset}
use schemaform.Form.Lifecycle.Restores
use schemaform.Form.Lifecycle.Restores.{Restored}
use schemaform.Examples.Forms.{touched_up}
use schemaform.Form.Edits.{edit_text_with_integer_digit_limit}
use schemaform.Form.Edits.Texts
use schemaform.Form.Arrays.Contracts.{Full, CannotInsert, CannotRemove}
use schemaform.Form.Arrays.Moves.{CannotMove}
use schemaform.Form.Edits.Contracts.{CannotSet}
use schemaform.Prelude.{◌≡◌, refl, true, some, [], ◌∷◌, arith}
use schemaform.Json.{text_eq, string, get, insert, remove, to_list, as_array}
use schemaform.Pointer.Frame.{count}
use schemaform.Pointer.Walk.{walk, child, store, put}
use schemaform.Pointer.Bound.{set_bound_value, take_bound_value, change_object}
use schemaform.Pointer.Frame
use schemaform.Form.Arrays.{
  append_array_item, insert_array_item_before, remove_array_item, move_array_item, up, down,
}
use schemaform.Form.Arrays.Contracts
use schemaform.Form.Arrays.Contracts.{
  Contract, Full, CannotInsert, CannotRemove, Appends, Inserts, Removes,
}
use schemaform.Form.State.{Form}
use schemaform.Form.Toggles.{toggle_array_choice}
use schemaform.Form.Toggles.Contracts as ToggleContracts
use schemaform.Form.Toggles.Contracts.{CannotToggle, Toggles}
use schemaform.Form.Sessions.{appends, toggles, submits, here, next}
use schemaform.Form.Sessions.Arranged as Sessions
use schemaform.Form.Views.{prospective_text_form_data}
use schemaform.Form.Views.Prospects
use schemaform.Form.Views.Prospects.{Foretells}
use schemaform.Form.Arrays.Moves
use schemaform.Form.Arrays.Moves.{Moves, CannotMove}
use schemaform.Form.Arrays.Invariant
use schemaform.Form.Arrays.Invariant.{IsArranged}
use schemaform.Form.Create.{create_form}
use schemaform.Form.Create.Arranged
use schemaform.Form.Create.Arranged.{Creates}
use schemaform.Form.Submission.{prepare_submission}
use schemaform.Form.Submission.Ready
use schemaform.Form.Submission.Ready.{Submits}
use schemaform.Form.Edits.Contracts as SetContracts
use schemaform.Form.Edits.Contracts.{CannotSet}
use schemaform.Examples.Pointers.{token_pointers as pointers}
use schemaform.Examples.Forms.{
  two, two_texts, definition, two-IsArranged, texts_text, name_text, name_binding, texts_binding,
  parsers, renamed, nameless, one_pick, one_pick-IsArranged,
}

append_array_item-Contract_example :
    Contract pointers two
      (Full pointers two texts_text)
      (Appends pointers two texts_text)
      (append_array_item pointers texts_text two)
append_array_item-Contract_example = Contracts.append_array_item-Contract pointers two texts_text

insert_array_item_before-Contract_example :
    Contract pointers two
      (CannotInsert pointers two texts_text 2)
      (Inserts pointers two texts_text 2)
      (insert_array_item_before pointers texts_text 2 two)
insert_array_item_before-Contract_example =
    Contracts.insert_array_item_before-Contract pointers two texts_text 2 two-IsArranged.aligned

remove_array_item-Contract_example :
    Contract pointers two
      (CannotRemove pointers two texts_text 1)
      (Removes pointers two texts_text 1)
      (remove_array_item pointers texts_text 1 two)
remove_array_item-Contract_example =
    Contracts.remove_array_item-Contract pointers two texts_text 1 two-IsArranged.aligned

move_array_item-Contract_example :
    Contract pointers two
      (CannotMove pointers parsers.parse_big_int two texts_text 2 up)
      (Moves pointers parsers.parse_big_int two texts_text 2 up)
      (move_array_item pointers parsers.parse_big_int texts_text 2 up two)
move_array_item-Contract_example =
    Moves.move_array_item-Contract pointers parsers.parse_big_int two texts_text 2 up
      two-IsArranged.aligned

append_array_item-IsArranged_example :
    IsArranged pointers (append_array_item pointers texts_text two).1
append_array_item-IsArranged_example =
    Invariant.append_array_item-IsArranged pointers two texts_text (omega arith) two-IsArranged

insert_array_item_before-IsArranged_example :
    IsArranged pointers (insert_array_item_before pointers texts_text 2 two).1
insert_array_item_before-IsArranged_example =
    Invariant.insert_array_item_before-IsArranged pointers two texts_text 2 (omega arith)
      two-IsArranged

remove_array_item-IsArranged_example :
    IsArranged pointers (remove_array_item pointers texts_text 1 two).1
remove_array_item-IsArranged_example =
    Invariant.remove_array_item-IsArranged pointers two texts_text 1 two-IsArranged

move_array_item-IsArranged_example :
    IsArranged pointers (move_array_item pointers parsers.parse_big_int texts_text 1 down two).1
move_array_item-IsArranged_example =
    Invariant.move_array_item-IsArranged pointers parsers.parse_big_int two texts_text 1 down
      two-IsArranged

create_form-Creates_example :
    Creates pointers definition two_texts (create_form pointers definition two_texts)
unfolding walk child get text_eq as_array to_list
create_form-Creates_example =
    Arranged.create_form-Creates pointers definition two_texts (tt, tt) (omega arith)

prepare_submission-Submits_example :
    Submits pointers two (prepare_submission pointers two).0
    × ((prepare_submission pointers two).1.submission_attempted ≡ true)
    × ((prepare_submission pointers two).1.form_data ≡ two.form_data)
    × ((prepare_submission pointers two).1.baseline ≡ two.baseline)
    × ((prepare_submission pointers two).1.data_revision ≡ two.data_revision)
    × ((prepare_submission pointers two).1.external_finding_batches ≡ two.external_finding_batches)
prepare_submission-Submits_example = Ready.prepare_submission-Submits pointers two

resolve-set_bound_value_example : pointers.resolve name_binding renamed ≡ some (string (b'B' ∷ []))
unfolding set_bound_value walk child store get insert text_eq put
resolve-set_bound_value_example =
    Frame.resolve-set_bound_value pointers name_binding two_texts (string (b'B' ∷ [])) renamed refl

resolve-set_bound_value_apart_example :
    pointers.resolve texts_binding renamed ≡ pointers.resolve texts_binding two_texts
unfolding set_bound_value walk child store get insert text_eq put
resolve-set_bound_value_apart_example =
    Frame.resolve-set_bound_value_apart pointers name_binding texts_binding two_texts
      (string (b'B' ∷ [])) renamed refl refl refl

count-set_bound_value_example :
    count pointers texts_binding renamed ≡ count pointers texts_binding two_texts
unfolding set_bound_value walk child store get insert text_eq put
count-set_bound_value_example =
    Frame.count-set_bound_value pointers name_binding texts_binding two_texts (string (b'B' ∷ []))
      renamed refl refl

count-take_bound_value_example :
    count pointers texts_binding nameless ≡ count pointers texts_binding two_texts
unfolding take_bound_value change_object walk child store get remove text_eq put
count-take_bound_value_example =
    Frame.count-take_bound_value pointers name_binding texts_binding two_texts (string (b'A' ∷ []))
      nameless refl refl

reset-Restored_example : Restored pointers parsers touched_up (reset pointers parsers touched_up)
reset-Restored_example = Restores.reset-Restored pointers parsers touched_up refl

apply_external_findings-Publishes_example :
    Publishes pointers two name_text 0
      (taken ∷ [])
      (apply_external_findings pointers name_text 0 (taken ∷ []) two)
apply_external_findings-Publishes_example =
    Published.apply_external_findings-Publishes pointers two name_text 0 (taken ∷ [])

-- a choice toggled, an item appended, then the form submitted
abbrev both_picked : Form pointers.PointerBuf
both_picked = (toggle_array_choice pointers parsers texts_text (string (b'b' ∷ [])) one_pick).1

abbrev appended_pick : Form pointers.PointerBuf
appended_pick = (append_array_item pointers texts_text both_picked).1

Session-IsArranged_example : IsArranged pointers (prepare_submission pointers appended_pick).1
Session-IsArranged_example =
    Sessions.Session-IsArranged pointers parsers
      (next
        (next (next here (toggles one_pick texts_text (string (b'b' ∷ []))))
          (appends both_picked texts_text))
        (submits appended_pick))
      (omega arith) one_pick-IsArranged

prospective_text_form_data-Foretells_example :
    Foretells pointers parsers two
      (prospective_text_form_data pointers parsers two name_text (b'B' ∷ []) 10)
      (edit_text_with_integer_digit_limit pointers parsers name_text (b'B' ∷ []) 10 two)
prospective_text_form_data-Foretells_example =
    Prospects.prospective_text_form_data-Foretells pointers parsers two name_text (b'B' ∷ []) 10

toggle_array_choice-Contract_example :
    Contract pointers one_pick
      (CannotToggle pointers parsers one_pick texts_text (string (b'b' ∷ [])))
      (Toggles pointers parsers one_pick texts_text (string (b'b' ∷ [])))
      (toggle_array_choice pointers parsers texts_text (string (b'b' ∷ [])) one_pick)
toggle_array_choice-Contract_example =
    ToggleContracts.toggle_array_choice-Contract pointers parsers one_pick texts_text
      (string (b'b' ∷ [])) one_pick-IsArranged
