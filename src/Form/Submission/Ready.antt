-- ===== src/Form/Submission/Ready.antt =====
-- When a submission is ready, and what it leaves of the form.
use schemaform.Prelude.{
  ℕ, suc, ◌≡◌, refl, sym, ◌↔◌, true, false, none, List, [], ◌∷◌, ◌++◌, arith, inl, inr, Bool-cases,
  Option-cases,
}
use schemaform.Json.{Text}
use schemaform.Pointer.{JsonPtr}
use schemaform.Form.State.{
  Form, ControlState, ArrayState, ArrayItemState, ExternalFinding, ExternalFindingBatch,
}
use schemaform.Form.Submission.{
  SubmissionBlocker, SubmissionOutcome, ready, blocked, flattened, flattened_from, control_blockers,
  item_blockers, finding_blockers, blockers, prepare_submission,
}

abbrev pub All {ℓ} : {A : Type ℓ} → (A → Type 0) → List A → Type 0
All P [] = Unit
All P (x ∷ xs) = P x × All P xs

module _ {B : Type 0} where
  append-eq-nil : (xs ys : List B) → (xs ++ ys ≡ []) ↔ ((xs ≡ []) × (ys ≡ []))
  append-eq-nil [] ys = (λ h. (refl, h), λ h. h.1)
  append-eq-nil (x ∷ xs) ys = (λ h. cc, λ h. cc h.0)

  module _ {A : Type 0} where
    flattened-eq-nil :
        (f : A → List B) (P : A → Type 0) (xs : List A)
        → ((x : A) → (f x ≡ []) ↔ P x)
        → (flattened f xs ≡ []) ↔ All P xs
    flattened-eq-nil f P [] h = (λ _. tt, λ _. refl)
    flattened-eq-nil f P (x ∷ xs) h =
        let both = append-eq-nil (f x) (flattened f xs) in
        let rest = flattened-eq-nil f P xs h in
        (
          λ e. ((h x).0 (both.0 e).0, rest.0 (both.0 e).1),
          λ all. both.1 ((h x).1 all.0, rest.1 all.1),
        )

    flattened_from-eq-nil :
        (f : ℕ → A → List B) (P : A → Type 0) (i : ℕ) (xs : List A)
        → ((i : ℕ) (x : A) → (f i x ≡ []) ↔ P x)
        → (flattened_from f i xs ≡ []) ↔ All P xs
    flattened_from-eq-nil f P i [] h = (λ _. tt, λ _. refl)
    flattened_from-eq-nil f P i (x ∷ xs) h =
        let both = append-eq-nil (f i x) (flattened_from f (suc i) xs) in
        let rest = flattened_from-eq-nil f P (suc i) xs h in
        (
          λ e. ((h i x).0 (both.0 e).0, rest.0 (both.0 e).1),
          λ all. both.1 ((h i x).1 all.0, rest.1 all.1),
        )

module _ {P : Type 0} where
  abbrev IsParsed : ControlState P → Type 0
  IsParsed control = control.parse_blocker ≡ none

  abbrev IsAdvisory : ExternalFinding P → Type 0
  IsAdvisory finding = finding.blocking ≡ false

  -- Every text was understood, and no finding of another source blocks.
  pub record IsClear (form : Form P) : Type 0 where
    pub controls_parsed : All IsParsed form.controls
    pub items_parsed :
        All
          (λ (a : ArrayState P). All (λ (i : ArrayItemState P). All IsParsed i.controls) a.items)
          form.arrays
    pub findings_advisory :
        All
          (λ (b : ExternalFindingBatch P). All IsAdvisory b.findings)
          form.external_finding_batches

module _ (j : JsonPtr) where
  open j use {PointerBuf}

  control-eq-nil :
      (p : PointerBuf) (control : ControlState PointerBuf)
      → (control_blockers j p control ≡ []) ↔ IsParsed control
  control-eq-nil p control = elim (Option-cases control.parse_blocker) [
    | inl e ↦ (λ h. e, λ h. rw h refl)
    | inr (r, e) ↦ (λ h. absurd (ground (arith, e)), λ h. absurd (ground (arith, e)))
  ]

  finding-eq-nil :
      (source : Text) (finding : ExternalFinding PointerBuf)
      → (finding_blockers j source finding ≡ []) ↔ IsAdvisory finding
  finding-eq-nil source finding = elim (Bool-cases finding.blocking) [
    | inl e ↦ (λ h. absurd (ground (arith, e)), λ h. absurd (ground (arith, e)))
    | inr e ↦ (λ h. e, λ h. rw h refl)
  ]

  blockers-eq-nil : (form : Form PointerBuf) → (blockers j form ≡ []) ↔ IsClear form
  unfolding blockers item_blockers
  blockers-eq-nil form = (
    λ h.
        let split = (append-eq-nil _ _).0 h in
        let split' = (append-eq-nil _ _).0 split.1 in
        record {
          controls_parsed = statics.0 split.0;
          items_parsed = items.0 split'.0;
          findings_advisory = findings.0 split'.1;
        },
    λ c. (append-eq-nil _ _).1 (
      statics.1 c.controls_parsed,
      (append-eq-nil _ _).1 (items.1 c.items_parsed, findings.1 c.findings_advisory),
    ),
  )
    where
      statics :
          (flattened
              (λ (control : ControlState PointerBuf).
                control_blockers j control.definition.binding control)
              form.controls
            ≡ [])
          ↔ All IsParsed form.controls
      statics =
          flattened-eq-nil _ IsParsed form.controls (λ c. control-eq-nil c.definition.binding c)

      items :
          (flattened
              (λ (array : ArrayState PointerBuf).
                flattened_from (item_blockers j array.definition.binding) 0 array.items)
              form.arrays
            ≡ [])
          ↔ All
              (λ (a : ArrayState PointerBuf).
                All (λ (i : ArrayItemState PointerBuf). All IsParsed i.controls) a.items)
              form.arrays
      items = flattened-eq-nil _ _ form.arrays λ a.
          flattened_from-eq-nil _ _ 0 a.items
            λ n i. flattened-eq-nil _ IsParsed i.controls λ c. control-eq-nil _ c

      findings :
          (flattened
              (λ (batch : ExternalFindingBatch PointerBuf).
                flattened (finding_blockers j batch.source) batch.findings)
              form.external_finding_batches
            ≡ [])
          ↔ All
              (λ (b : ExternalFindingBatch PointerBuf). All IsAdvisory b.findings)
              form.external_finding_batches
      findings =
          flattened-eq-nil _ _ form.external_finding_batches
            λ b. flattened-eq-nil _ IsAdvisory b.findings (finding-eq-nil b.source)

  abbrev pub Submits : Form PointerBuf → SubmissionOutcome PointerBuf → Type 0
  Submits form (ready snapshot) =
      IsClear form
      × (snapshot.form_data ≡ form.form_data)
      × (snapshot.data_revision ≡ form.data_revision)
      × (snapshot.definition_fingerprint ≡ form.definition_fingerprint)
  Submits form (blocked bs) = (¬ IsClear form) × (bs ≡ blockers j form)

  -- A submission is ready exactly if every control's text was understood and no finding blocks. It
  -- is then a snapshot of the form's data, its revision and the definition's fingerprint; otherwise
  -- it lists the blockers of the form. In either case the attempt is recorded, and the data, the
  -- baseline, the data revision and the findings stay as they were.
  pub prepare_submission-Submits :
      (form : Form PointerBuf)
      → Submits form (prepare_submission j form).0
        × ((prepare_submission j form).1.submission_attempted ≡ true)
        × ((prepare_submission j form).1.form_data ≡ form.form_data)
        × ((prepare_submission j form).1.baseline ≡ form.baseline)
        × ((prepare_submission j form).1.data_revision ≡ form.data_revision)
        × ((prepare_submission j form).1.external_finding_batches ≡ form.external_finding_batches)
  unfolding prepare_submission
  prepare_submission-Submits form = (submits (blockers j form) refl, refl, refl, refl, refl, refl)
    where
      submits :
          (bs : List (SubmissionBlocker PointerBuf))
          → blockers j form ≡ bs
          → Submits form (prepare_submission j form).0
      submits [] e = rw e ((blockers-eq-nil form).0 e, refl, refl, refl)
      submits (b ∷ bs) e =
          rw e ((λ c. let none_found = (blockers-eq-nil form).1 c in cc (none_found, e)), sym e)
