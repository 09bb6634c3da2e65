-- ===== src/Form/Sessions/Arranged.antt =====
-- No session breaks the arrangement of the arrays, as long as identities are left.
use schemaform.Prelude.{
  ℕ, suc, ◌+◌, ◌^◌, ◌≤◌, ◌<◌, ◌≡◌, refl, ap, ◌∙◌, Bool, false, List, [], ◌∷◌, length, arith,
}
use schemaform.Prelude.Results.{Result, ok, err, panic}
use schemaform.Json.{Text, Value}
use schemaform.Pointer.{JsonPtr}
use schemaform.Form.State.{
  Form, ControlState, ArrayState, ArrayItemState, ExternalFinding, finalize_edit_buffer,
}
use schemaform.Form.Arrays.Aligned.{IsAligned, IsFlat, PartsAll}
use schemaform.Form.Arrays.Identities.{uses, occurrences}
use schemaform.Form.Arrays.Steps.{append_cases, insert_cases, remove_cases}
use schemaform.Form.Arrays.Moves.{move_cases}
use schemaform.Form.Arrays.Invariant.{
  IsArranged, bump_lem, append_array_item-IsArranged, insert_array_item_before-IsArranged,
  remove_array_item-IsArranged, move_array_item-IsArranged,
}
use schemaform.Form.Parsing.{Parsers}
use schemaform.Form.Toggles.Arranged.{toggle_array_choice-Steady}
use schemaform.Form.Findings.{apply_external_findings}
use schemaform.Form.Findings.Published.{Publishes, apply_external_findings-Publishes}
use schemaform.Form.Lifecycle.{update_items, update_arrays}
use schemaform.Form.Submission.{prepare_submission}
use schemaform.Form.Sessions.{
  Step, appends, inserts, removes, moves, toggles, reports, submits, Session, here, next,
}

module _ (j : JsonPtr) where
  open j use {PointerBuf}

  module _ (f : ControlState PointerBuf → ControlState PointerBuf × Bool) (untouch : Bool) where
    length-update_items :
        (items : List (ArrayItemState PointerBuf)) → length (update_items f items).0 ≡ length items
    unfolding update_items
    length-update_items [] = refl
    length-update_items (item ∷ items) = ap suc (length-update_items items)

    occurrences-update_items :
        (x : ℕ) (items : List (ArrayItemState PointerBuf))
        → occurrences x (update_items f items).0 ≡ occurrences x items
    unfolding update_items
    occurrences-update_items x [] = refl
    occurrences-update_items x (item ∷ items) = omega (arith, occurrences-update_items x items)

    uses-update_arrays :
        (x : ℕ) (arrays : List (ArrayState PointerBuf))
        → uses x (update_arrays f untouch arrays).0 ≡ uses x arrays
    unfolding update_arrays
    uses-update_arrays x [] = refl
    uses-update_arrays x (a ∷ arrays) =
        omega (arith, occurrences-update_items x a.items, uses-update_arrays x arrays)

    update_arrays-PartsAll :
        (p : PointerBuf) (arrays : List (ArrayState PointerBuf))
        → PartsAll j p arrays
        → PartsAll j p (update_arrays f untouch arrays).0
    unfolding update_arrays
    update_arrays-PartsAll p [] h = tt
    update_arrays-PartsAll p (a ∷ arrays) h = (h.0, update_arrays-PartsAll p arrays h.1)

    update_arrays-IsFlat :
        (arrays : List (ArrayState PointerBuf))
        → IsFlat j arrays
        → IsFlat j (update_arrays f untouch arrays).0
    unfolding update_arrays
    update_arrays-IsFlat [] h = tt
    update_arrays-IsFlat (a ∷ arrays) h =
        (update_arrays-PartsAll a.definition.binding arrays h.0, update_arrays-IsFlat arrays h.1)

    update_arrays-IsAligned :
        (arrays : List (ArrayState PointerBuf)) (d : Value)
        → IsAligned j arrays d
        → IsAligned j (update_arrays f untouch arrays).0 d
    unfolding update_arrays
    update_arrays-IsAligned [] d h = tt
    update_arrays-IsAligned (a ∷ arrays) d h =
        (length-update_items a.items ∙ h.0, update_arrays-IsAligned arrays d h.1)

  prepare_submission-IsArranged :
      (form : Form PointerBuf) → IsArranged j form → IsArranged j (prepare_submission j form).1
  unfolding prepare_submission
  prepare_submission-IsArranged form v = record {
    flat = update_arrays-IsFlat finalize_edit_buffer false form.arrays v.flat;
    aligned =
        update_arrays-IsAligned finalize_edit_buffer false form.arrays form.form_data v.aligned;
    unique =
        λ x. omega (arith, uses-update_arrays finalize_edit_buffer false x form.arrays, v.unique x);
    unused = λ x h. uses-update_arrays finalize_edit_buffer false x form.arrays ∙ v.unused x h;
  }

  -- what the invariant reads of a form
  alike-IsArranged :
      (form form' : Form PointerBuf)
      → form'.arrays ≡ form.arrays
      → form'.form_data ≡ form.form_data
      → form'.next_item_identity ≡ form.next_item_identity
      → IsArranged j form
      → IsArranged j form'
  alike-IsArranged form form' e e' e'' v = record {
    flat = rw e v.flat;
    aligned = rw (e, e') v.aligned;
    unique = λ x. rw e (v.unique x);
    unused = λ x h. rw e (v.unused x (omega (arith, e'')));
  }

  -- The form stays arranged, and gives out one identity at most.
  Steady : Form PointerBuf → Form PointerBuf → Type 0
  Steady form form' = IsArranged j form' × (form'.next_item_identity ≤ suc form.next_item_identity)

  reported :
      (form : Form PointerBuf) (source : Text) (revision : ℕ)
      (findings : List (ExternalFinding PointerBuf)) (r : Result _ _ × Form PointerBuf)
      → Publishes j form source revision findings r
      → IsArranged j form
      → Steady form r.1
  unfolding Steady
  reported form source revision findings (ok u, form') (fresh, k, how) v = (
    alike-IsArranged form form' k.arrays_kept k.data_kept k.identities_kept v,
    omega (arith, k.identities_kept),
  )
  reported form source revision findings (err e, form') (stale, e', same) v =
      rw same (v, omega arith)
  reported form source revision findings (panic, form') h v = absurd h

  module _ (parsers : Parsers) where
    Step-Steady :
        {form form' : Form PointerBuf}
        → Step j parsers form form'
        → suc form.next_item_identity < 2 ^ 64
        → IsArranged j form
        → Steady form form'
    unfolding Steady
    Step-Steady (appends form binding) room v = (
      append_array_item-IsArranged j form binding room v,
      append_cases j (λ r. r.1.next_item_identity ≤ suc form.next_item_identity) form binding
          (λ _. omega arith)
          λ i array values put_back can f. omega (arith, bump_lem form.next_item_identity room),
    )
    Step-Steady (inserts form binding before) room v = (
      insert_array_item_before-IsArranged j form binding before room v,
      insert_cases j (λ r. r.1.next_item_identity ≤ suc form.next_item_identity) form binding before
          v.aligned (λ _. omega arith) (λ _ _ _. omega arith)
          λ i array values put_back k values' items can f at made made' same.
            omega (arith, bump_lem form.next_item_identity room),
    )
    Step-Steady (removes form binding identity) room v = (
      remove_array_item-IsArranged j form binding identity v,
      remove_cases j (λ r. r.1.next_item_identity ≤ suc form.next_item_identity) form binding
          identity v.aligned (λ _. omega arith) (λ _ _ _. omega arith)
          λ i array values put_back k value values' item items can f at made made' same.
            omega arith,
    )
    Step-Steady (moves form binding identity direction) room v = (
      move_array_item-IsArranged j parsers.parse_big_int form binding identity direction v,
      move_cases j parsers.parse_big_int (λ r. r.1.next_item_identity ≤ suc form.next_item_identity)
          form binding identity direction v.aligned (λ _ _. omega arith)
          λ i array values put_back k l a b x' y f at goes ta tb tx ty same. omega arith,
    )
    Step-Steady (toggles form binding value) room v =
        toggle_array_choice-Steady j parsers form binding value room v
    Step-Steady (reports form source revision findings) room v =
        reported form source revision findings
          (apply_external_findings j source revision findings form)
          (apply_external_findings-Publishes j form source revision findings) v
    Step-Steady (submits form) room v =
        (prepare_submission-IsArranged form v, unfold prepare_submission in omega arith)

    Session-Steady :
        {form : Form PointerBuf} {n : ℕ} {form' : Form PointerBuf}
        → Session j parsers form n form'
        → form.next_item_identity + n < 2 ^ 64
        → IsArranged j form
        → IsArranged j form' × (form'.next_item_identity ≤ form.next_item_identity + n)
    unfolding Steady
    Session-Steady here room v = (v, omega arith)
    Session-Steady (next before step) room v =
        let (v', few) = Session-Steady before (omega arith) v in
        let (v'', more) = Step-Steady step (omega (arith, few)) v' in
        (v'', omega (arith, few, more))

    -- From an arranged form, with at least as many identities left as there are calls: whatever items
    -- are appended, inserted, removed and moved, choices toggled, findings reported and submissions
    -- prepared, in any order and failed calls included, the form is arranged. The items of each array
    -- are as many as its values, no identity is used twice, and none before it is given out.
    pub Session-IsArranged :
        {form : Form PointerBuf} {n : ℕ} {form' : Form PointerBuf}
        → Session j parsers form n form'
        → form.next_item_identity + n < 2 ^ 64
        → IsArranged j form
        → IsArranged j form'
    Session-IsArranged session room v = (Session-Steady session room v).0
