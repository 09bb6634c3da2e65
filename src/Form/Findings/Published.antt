-- ===== src/Form/Findings/Published.antt =====
-- What `apply_external_findings` does on every branch.
use schemaform.Prelude.{
  ℕ, ◌≡◌, refl, ◌⊎◌, inl, inr, Bool, true, false, none, some, List, [], ◌∷◌, find, position,
  remove_at, push, arith, Bool-cases, Option-cases, position_lem, get_elem?-lt, remove_at_total,
  ◌==◌,
}
use schemaform.Prelude.Results.{Result, ok, err, panic}
use schemaform.Prelude.Sorting.{insert_sorted, sort_by}
use schemaform.Json.{Text}
use schemaform.Json.Laws.{text_eq_refl}
use schemaform.Pointer.{JsonPtr}
use schemaform.Form.State.{
  Form, ExternalFinding, ExternalFindingBatch, ApplyExternalFindingsError, stale_data_revision,
  bump,
}
use schemaform.Form.Findings.{
  from_source, batch_eq, source_lt, canonical_findings, withdraw, publish, apply_external_findings,
}
use schemaform.Form.Arrays.Steps.{find_placed, find-none}
use schemaform.Form.Arrays.Contracts.{find-set_placed}

module _ {ℓ} {A : Type ℓ} (lt : A → A → Bool) (p : A → Bool) where
  find-insert_sorted_other :
      (x : A) (xs : List A) → p x ≡ false → find p (insert_sorted lt x xs) ≡ find p xs
  unfolding insert_sorted
  find-insert_sorted_other x [] h = rw h refl
  find-insert_sorted_other x (y ∷ xs) h = elim (Bool-cases (lt y x)) [
    | inl e ↦ rw e (ground (arith, find-insert_sorted_other x xs h))
    | inr e ↦ rw (e, h) refl
  ]

  find-insert_sorted_only : (x : A) → p x ≡ true → find p (insert_sorted lt x []) ≡ some x
  unfolding insert_sorted
  find-insert_sorted_only x h = rw h refl

  -- The entry that no other is like is found after a sort.
  find-sort_by-push :
      (xs : List A) (x : A)
      → position p xs ≡ none
      → p x ≡ true
      → find p (sort_by lt (push xs x)) ≡ some x
  unfolding sort_by
  find-sort_by-push [] x none_like h = find-insert_sorted_only x h
  find-sort_by-push (y ∷ xs) x none_like h = elim (Bool-cases (p y)) [
    | inl yes' ↦ absurd (ground (arith, yes'))
    | inr no' ↦
        let rest : position p xs ≡ none = ground (arith, no') in
        rw (find-insert_sorted_other y (sort_by lt (push xs x)) no') (find-sort_by-push xs x rest h)
  ]

module _ (j : JsonPtr) where
  open j use {PointerBuf}

  -- Findings change nothing of the form but its findings and its state revision.
  pub record KeepsAllElse (form form' : Form PointerBuf) : Type 0 where
    pub data_kept : form'.form_data ≡ form.form_data
    revision_kept : form'.data_revision ≡ form.data_revision
    pub baseline_kept : form'.baseline ≡ form.baseline
    controls_kept : form'.controls ≡ form.controls
    pub arrays_kept : form'.arrays ≡ form.arrays
    pub identities_kept : form'.next_item_identity ≡ form.next_item_identity
    baseline_identities_kept : form'.baseline_array_identities ≡ form.baseline_array_identities
    fingerprint_kept : form'.definition_fingerprint ≡ form.definition_fingerprint
    attempt_kept : form'.submission_attempted ≡ form.submission_attempted

  -- An equal batch of the source is there.
  abbrev StandsAlready : Form PointerBuf → Text → ExternalFindingBatch PointerBuf → Type 0
  StandsAlready form source batch =
      (existing : ExternalFindingBatch PointerBuf) × (find (from_source j source)
          form.external_finding_batches
        ≡ some existing)
      × (batch_eq j existing batch ≡ true)

  -- The form is left alone where an equal batch of the source is there; otherwise the batch is the
  -- source's, and the state revision has moved on.
  abbrev Stands :
      Form PointerBuf → Form PointerBuf → Text → ExternalFindingBatch PointerBuf → Type 0
  Stands form form' source batch =
      (StandsAlready form source batch × (form' ≡ form))
      ⊎ (¬ StandsAlready form source batch
          × (find (from_source j source) form'.external_finding_batches ≡ some batch)
          × (form'.state_revision ≡ bump form.state_revision))

  -- The first batch of the source is taken out, if there is one.
  abbrev Withdrawn : Form PointerBuf → Form PointerBuf → Text → Type 0
  Withdrawn form form' source =
      ((position (from_source j source) form.external_finding_batches ≡ none) × (form' ≡ form))
      ⊎ ((i : ℕ) × (batch : ExternalFindingBatch PointerBuf) × (position (from_source j source)
              form.external_finding_batches
            ≡ some i)
          × (remove_at i form.external_finding_batches
              ≡ some (batch, form'.external_finding_batches))
          × (form'.state_revision ≡ bump form.state_revision))

  abbrev Reported :
      Form PointerBuf → Form PointerBuf → Text → ℕ → List (ExternalFinding PointerBuf) → Type 0
  Reported form form' source revision [] = Withdrawn form form' source
  Reported form form' source revision (f ∷ fs) =
      Stands form form' source
        (record { source = source; data_revision = revision; findings = f ∷ fs })

  abbrev pub Publishes :
      Form PointerBuf
      → Text
      → ℕ
      → List (ExternalFinding PointerBuf)
      → Result ApplyExternalFindingsError (Unit {0}) × Form PointerBuf
      → Type 0
  Publishes form source revision findings (ok _, form') =
      ((revision == form.data_revision) ≡ true)
      × KeepsAllElse form form'
      × Reported form form' source revision (canonical_findings j findings)
  Publishes form source revision findings (err e, form') =
      ((revision == form.data_revision) ≡ false)
      × (e ≡ stale_data_revision form.data_revision revision)
      × (form' ≡ form)
  Publishes form source revision findings (panic, form') = ⊥

  kept : (form : Form PointerBuf) → KeepsAllElse form form
  kept form = record {
    data_kept = refl;
    revision_kept = refl;
    baseline_kept = refl;
    controls_kept = refl;
    arrays_kept = refl;
    identities_kept = refl;
    baseline_identities_kept = refl;
    fingerprint_kept = refl;
    attempt_kept = refl;
  }

  nowhere_stands :
      (form : Form PointerBuf) (source : Text) (batch : ExternalFindingBatch PointerBuf)
      → find (from_source j source) form.external_finding_batches ≡ none
      → ¬ StandsAlready form source batch
  nowhere_stands form source batch nowhere (existing, found, equal) = absurd (ground arith)

  differs :
      (form : Form PointerBuf) (source : Text) (b batch : ExternalFindingBatch PointerBuf)
      → find (from_source j source) form.external_finding_batches ≡ some b
      → batch_eq j b batch ≡ false
      → ¬ StandsAlready form source batch
  differs form source b batch there other (existing, found, equal) =
      let same : b ≡ existing = ground arith in cc

  -- Findings for another data revision are refused, and the form stays. Else the call succeeds and
  -- changes nothing but the findings and the state revision. With findings to store: where an equal
  -- batch of the source is there, the form stays; otherwise theirs is the batch of the source and
  -- the state revision moves on. With none: the first batch of the source is taken out and the state
  -- revision moves on, or there was none and the form stays.
  pub apply_external_findings-Publishes :
      (form : Form PointerBuf) (source : Text) (revision : ℕ)
      (findings : List (ExternalFinding PointerBuf))
      → Publishes form source revision findings
          (apply_external_findings j source revision findings form)
  unfolding apply_external_findings withdraw publish
  apply_external_findings-Publishes form source revision findings =
      elim (Bool-cases (revision == form.data_revision)) [
        | inr stale ↦ rw (stale) (stale, refl, refl)
        | inl fresh ↦ reported (canonical_findings j findings) refl fresh
      ]
    where
      reported :
          (fs : List (ExternalFinding PointerBuf))
          → canonical_findings j findings ≡ fs
          → (revision == form.data_revision) ≡ true
          → Publishes form source revision findings
              (apply_external_findings j source revision findings form)
      reported [] e fresh =
          elim (Option-cases (position (from_source j source) form.external_finding_batches)) [
            | inl nowhere ↦ rw (fresh, e, nowhere) (fresh, kept form, rw e (inl (nowhere, refl)))
            | inr (i, at) ↦
                let (b, there, _) =
                  position_lem (from_source j source) form.external_finding_batches i at in
                let within = get_elem?-lt form.external_finding_batches i there in
                let ((batch, rest), taken, _) =
                  remove_at_total i form.external_finding_batches within in
                rw (fresh, e, at, taken)
                  (
                    fresh,
                    (record {
                      data_kept = refl;
                      revision_kept = refl;
                      baseline_kept = refl;
                      controls_kept = refl;
                      arrays_kept = refl;
                      identities_kept = refl;
                      baseline_identities_kept = refl;
                      fingerprint_kept = refl;
                      attempt_kept = refl;
                    }),
                    rw e (inr (i, batch, at, taken, refl)),
                  )
          ]
      reported (f ∷ fs) e fresh =
          elim (Option-cases (position (from_source j source) form.external_finding_batches)) [
            | inl nowhere ↦
                rw (fresh, e, nowhere)
                  (
                    fresh,
                    (record {
                      data_kept = refl;
                      revision_kept = refl;
                      baseline_kept = refl;
                      controls_kept = refl;
                      arrays_kept = refl;
                      identities_kept = refl;
                      baseline_identities_kept = refl;
                      fingerprint_kept = refl;
                      attempt_kept = refl;
                    }),
                    rw e (
                        inr (
                          nowhere_stands form source _ (
                              find-none (from_source j source) form.external_finding_batches
                                nowhere),
                          find-sort_by-push (source_lt j) (from_source j source)
                              form.external_finding_batches _ nowhere (text_eq_refl source),
                          refl,
                        )),
                  )
            | inr (i, at) ↦
                let batch : ExternalFindingBatch PointerBuf = record {
                  source = source;
                  data_revision = revision;
                  findings = f ∷ fs;
                } in
                let (b, there, _) =
                  position_lem (from_source j source) form.external_finding_batches i at in
                elim (Bool-cases (batch_eq j b batch)) [
                  | inl same ↦
                      rw (fresh, e, at, there, same)
                        (
                          fresh,
                          kept form,
                          rw e (
                              inl (
                                (
                                  b,
                                  find_placed (from_source j source) form.external_finding_batches i
                                      b at there,
                                  same,
                                ),
                                refl,
                              )),
                        )
                  | inr other ↦
                      rw (fresh, e, at, there, other)
                        (
                          fresh,
                          (record {
                            data_kept = refl;
                            revision_kept = refl;
                            baseline_kept = refl;
                            controls_kept = refl;
                            arrays_kept = refl;
                            identities_kept = refl;
                            baseline_identities_kept = refl;
                            fingerprint_kept = refl;
                            attempt_kept = refl;
                          }),
                          rw e (
                              inr (
                                differs form source b batch
                                    (find_placed (from_source j source)
                                      form.external_finding_batches i b at there)
                                    other,
                                find-set_placed (from_source j source) form.external_finding_batches
                                    i batch at (text_eq_refl source),
                                refl,
                              )),
                        )
                ]
          ]
