-- ===== src/Form/Lifecycle/Restores.antt =====
-- What `reset` leaves of a form.
use schemaform.Prelude.{
  ℕ, suc, ◌≡◌, refl, ap, ◌∙◌, ◌⊎◌, inl, inr, Bool, true, false, not, none, List, [], ◌∷◌, map,
  length, arith, Bool-cases, ==_iff, ||-eq-false, &&-eq-true, if◌then◌else◌, ◌==◌,
}
use schemaform.Pointer.{JsonPtr}
use schemaform.Form.Definition.{ControlDefinition, ArrayDefinition}
use schemaform.Form.State.{
  Form, ControlState, ArrayState, ArrayItemState, bump, clear_lifecycle_state, clear_edit_state,
  new_control, new_item, identities,
}
use schemaform.Form.Parsing.{Parsers, equal}
use schemaform.Form.Create.{array_items_with_identities}
use schemaform.Form.Lifecycle.{
  identities_eq, update_all, update_items, update_arrays, topology_changed, restore_topology, reset,
}
use schemaform.Form.Submission.Ready.{All}

identities_eq_lem : (xs ys : List ℕ) → identities_eq xs ys ≡ true → xs ≡ ys
identities_eq_lem [] [] h = refl
identities_eq_lem [] (y ∷ ys) h = absurd (ground arith)
identities_eq_lem (x ∷ xs) [] h = absurd (ground arith)
identities_eq_lem (x ∷ xs) (y ∷ ys) h =
    let (same, rest) = &&-eq-true (x == y) (identities_eq xs ys) h in
    let here = (==_iff x y).0 same in let there = identities_eq_lem xs ys rest in cc (here, there)

module _ {P : Type 0} where
  -- A control that nobody edited or left.
  pub record IsFresh (control : ControlState P) : Type 0 where
    pub no_text : control.edit_buffer ≡ none
    pub no_blocker : control.parse_blocker ≡ none
    pub untouched : control.touched ≡ false

  abbrev IsFreshArray : ArrayState P → Type 0
  IsFreshArray array =
      (array.touched ≡ false)
      × All (λ (item : ArrayItemState P). All IsFresh item.controls) array.items

  update_all-IsFresh :
      (controls : List (ControlState P)) → All IsFresh (update_all clear_lifecycle_state controls).0
  unfolding update_all clear_lifecycle_state clear_edit_state
  update_all-IsFresh [] = tt
  update_all-IsFresh (c ∷ controls) =
      (record { no_text = refl; no_blocker = refl; untouched = refl }, update_all-IsFresh controls)

  update_items-IsFresh :
      (items : List (ArrayItemState P))
      → All
          (λ (item : ArrayItemState P). All IsFresh item.controls)
          (update_items clear_lifecycle_state items).0
  unfolding update_items
  update_items-IsFresh [] = tt
  update_items-IsFresh (i ∷ items) = (update_all-IsFresh i.controls, update_items-IsFresh items)

  update_items-identities :
      (items : List (ArrayItemState P))
      → identities (update_items clear_lifecycle_state items).0 ≡ identities items
  unfolding update_items
  update_items-identities [] = refl
  update_items-identities (i ∷ items) = ap (◌∷◌ i.identity) (update_items-identities items)

  update_arrays-IsFresh :
      (arrays : List (ArrayState P))
      → All IsFreshArray (update_arrays clear_lifecycle_state true arrays).0
  unfolding update_arrays
  update_arrays-IsFresh [] = tt
  update_arrays-IsFresh (a ∷ arrays) =
      ((refl, update_items-IsFresh a.items), update_arrays-IsFresh arrays)

  new_controls-IsFresh :
      (definitions : List (ControlDefinition P)) → All IsFresh (map new_control definitions)
  unfolding new_control
  new_controls-IsFresh [] = tt
  new_controls-IsFresh (d ∷ definitions) = (
    record { no_text = refl; no_blocker = refl; untouched = refl },
    new_controls-IsFresh definitions,
  )

  with_identities-IsFresh :
      (definition : ArrayDefinition P) (xs : List ℕ)
      → All
          (λ (item : ArrayItemState P). All IsFresh item.controls)
          (array_items_with_identities definition xs)
  unfolding array_items_with_identities new_item
  with_identities-IsFresh definition [] = tt
  with_identities-IsFresh definition (x ∷ xs) = (
    new_controls-IsFresh definition.item_template.controls,
    with_identities-IsFresh definition xs,
  )

  with_identities_lem :
      (definition : ArrayDefinition P) (xs : List ℕ)
      → identities (array_items_with_identities definition xs) ≡ xs
  unfolding array_items_with_identities new_item
  with_identities_lem definition [] = refl
  with_identities_lem definition (x ∷ xs) = ap (◌∷◌ x) (with_identities_lem definition xs)

  abbrev pub topology : List (ArrayState P) → List (List ℕ)
  topology = map λ array. identities array.items

  restore-IsFresh :
      (arrays : List (ArrayState P)) (baselines : List (List ℕ))
      → All IsFreshArray arrays
      → All IsFreshArray (restore_topology arrays baselines)
  unfolding restore_topology
  restore-IsFresh [] baselines h = tt
  restore-IsFresh (a ∷ arrays) [] h = h
  restore-IsFresh (a ∷ arrays) (b ∷ baselines) h =
      ((h.0.0, with_identities-IsFresh a.definition b), restore-IsFresh arrays baselines h.1)

  topology-restore :
      (arrays : List (ArrayState P)) (baselines : List (List ℕ))
      → length arrays ≡ length baselines
      → topology (restore_topology arrays baselines) ≡ baselines
  unfolding restore_topology
  topology-restore [] [] h = refl
  topology-restore [] (b ∷ baselines) h = absurd (omega arith)
  topology-restore (a ∷ arrays) [] h = absurd (omega arith)
  topology-restore (a ∷ arrays) (b ∷ baselines) h =
      let here = with_identities_lem a.definition b in
      let there = topology-restore arrays baselines (omega arith) in cc (here, there)

  topology-update_arrays :
      (arrays : List (ArrayState P))
      → topology (update_arrays clear_lifecycle_state true arrays).0 ≡ topology arrays
  unfolding update_arrays
  topology-update_arrays [] = refl
  topology-update_arrays (a ∷ arrays) =
      let here = update_items-identities a.items in
      let there = topology-update_arrays arrays in cc (here, there)

  length-update_arrays :
      (arrays : List (ArrayState P))
      → length (update_arrays clear_lifecycle_state true arrays).0 ≡ length arrays
  unfolding update_arrays
  length-update_arrays [] = refl
  length-update_arrays (a ∷ arrays) = ap suc (length-update_arrays arrays)

  topology_unchanged :
      (arrays : List (ArrayState P)) (baselines : List (List ℕ))
      → length arrays ≡ length baselines
      → topology_changed arrays baselines ≡ false
      → topology arrays ≡ baselines
  unfolding topology_changed
  topology_unchanged [] [] n h = refl
  topology_unchanged [] (b ∷ baselines) n h = absurd (omega arith)
  topology_unchanged (a ∷ arrays) [] n h = absurd (omega arith)
  topology_unchanged (a ∷ arrays) (b ∷ baselines) n h =
      let (same, rest) =
        ||-eq-false (not (identities_eq (identities a.items) b)) (topology_changed arrays baselines)
          h in
      let here = identities_eq_lem (identities a.items) b (ground arith) in
      let there = topology_unchanged arrays baselines (omega arith) rest in cc (here, there)

module _ (j : JsonPtr) (parsers : Parsers) where
  open j use {PointerBuf}

  -- The form is as it stood at its baseline.
  pub record Restored (form form' : Form PointerBuf) : Type 0 where
    pub controls_fresh : All IsFresh form'.controls
    pub arrays_fresh : All IsFreshArray form'.arrays
    pub identities_back : topology form'.arrays ≡ form.baseline_array_identities
    pub not_submitted : form'.submission_attempted ≡ false
    pub baseline_kept : form'.baseline ≡ form.baseline
    pub next_kept : form'.next_item_identity ≡ form.next_item_identity
    pub data_back :
        ((equal parsers form.form_data form.baseline ≡ true)
          × (form'.form_data ≡ form.form_data)
          × (form'.data_revision ≡ form.data_revision)
          × (form'.external_finding_batches ≡ form.external_finding_batches))
        ⊎ ((equal parsers form.form_data form.baseline ≡ false)
            × (form'.form_data ≡ form.baseline)
            × (form'.data_revision ≡ bump form.data_revision)
            × (form'.external_finding_batches ≡ []))

  reset_arrays :
      (b : Bool) (arrays : List (ArrayState PointerBuf)) (baselines : List (List ℕ))
      → topology_changed arrays baselines ≡ b
      → length arrays ≡ length baselines
      → let arrays' : List (ArrayState PointerBuf) =
          if b
          then restore_topology (update_arrays clear_lifecycle_state true arrays).0 baselines
          else (update_arrays clear_lifecycle_state true arrays).0 in
        All IsFreshArray arrays' × (topology arrays' ≡ baselines)
  reset_arrays true arrays baselines e n = (
    restore-IsFresh _ baselines (update_arrays-IsFresh arrays),
    topology-restore _ baselines (length-update_arrays arrays ∙ n),
  )
  reset_arrays false arrays baselines e n = (
    update_arrays-IsFresh arrays,
    topology-update_arrays arrays ∙ topology_unchanged arrays baselines n e,
  )

  -- Where the form has as many arrays as its baseline: `reset` leaves no text, no blocker and no
  -- touched control or array, gives the items of every array the identities of the baseline, and
  -- forgets that a submission was attempted. Where the data differs from the baseline it becomes the
  -- baseline, the external findings go and the data revision moves on; otherwise all three stay.
  pub reset-Restored :
      (form : Form PointerBuf)
      → length form.arrays ≡ length form.baseline_array_identities
      → Restored form (reset j parsers form)
  unfolding reset
  reset-Restored form n =
      let (fresh, back) = reset_arrays _ form.arrays form.baseline_array_identities refl n in
      elim (Bool-cases (equal parsers form.form_data form.baseline)) [
        | inl same ↦ record {
          controls_fresh = update_all-IsFresh form.controls;
          arrays_fresh = fresh;
          identities_back = back;
          not_submitted = refl;
          baseline_kept = rw same refl;
          next_kept = rw same refl;
          data_back = inl (rw same (refl, refl, refl, refl));
        }
        | inr other ↦ record {
          controls_fresh = update_all-IsFresh form.controls;
          arrays_fresh = fresh;
          identities_back = back;
          not_submitted = refl;
          baseline_kept = rw other refl;
          next_kept = rw other refl;
          data_back = inr (rw other (refl, refl, refl, refl));
        }
      ]
