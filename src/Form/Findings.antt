-- ===== src/Form/Findings.antt =====
-- crates/schemaform/src/engine.rs: the findings that other sources report about the form's data.
pub mod Published
use schemaform.Prelude.{
  ℕ, Bool, true, false, not, ◌&&◌, Option, none, some, List, [], ◌∷◌, position, get_elem?, set,
  remove_at, push, if◌then◌else◌, ◌==◌,
}
use schemaform.Prelude.Sorting.{sort_by, dedup}
use schemaform.Json.{Text, text_eq, text_lt}
use schemaform.Pointer.{JsonPtr}
use schemaform.Form.State.{
  Form, ExternalFinding, ExternalFindingBatch, ApplyExternalFindingsError, stale_data_revision, M,
  ◌>>=◌, ◌>>◌, current, leave, require, or_panic, return, bump,
}

abbrev bool_lt : Bool → Bool → Bool
bool_lt false true = true
bool_lt _ _ = false

abbrev bool_eq : Bool → Bool → Bool
bool_eq true b = b
bool_eq false b = not b

module _ (j : JsonPtr) where
  open j use {PointerBuf, as_str}

  -- by pointer, then by code, then advisory before blocking
  unfoldable finding_lt : ExternalFinding PointerBuf → ExternalFinding PointerBuf → Bool
  unfolding text_eq text_lt
  finding_lt left right =
      if text_eq (as_str left.instance_pointer) (as_str right.instance_pointer)
      then (if text_eq left.code right.code
          then bool_lt left.blocking right.blocking
          else text_lt left.code right.code)
      else text_lt (as_str left.instance_pointer) (as_str right.instance_pointer)

  unfoldable finding_eq : ExternalFinding PointerBuf → ExternalFinding PointerBuf → Bool
  unfolding text_eq
  finding_eq left right =
      text_eq (as_str left.instance_pointer) (as_str right.instance_pointer)
      && text_eq left.code right.code
      && bool_eq left.blocking right.blocking

  abbrev findings_eq : List (ExternalFinding PointerBuf) → List (ExternalFinding PointerBuf) → Bool
  findings_eq [] [] = true
  findings_eq (f ∷ fs) (g ∷ gs) = finding_eq f g && findings_eq fs gs
  findings_eq _ _ = false

  unfoldable pub batch_eq : ExternalFindingBatch PointerBuf → ExternalFindingBatch PointerBuf → Bool
  unfolding text_eq finding_eq
  batch_eq left right =
      text_eq left.source right.source
      && left.data_revision == right.data_revision
      && findings_eq left.findings right.findings

  abbrev pub source_lt : ExternalFindingBatch PointerBuf → ExternalFindingBatch PointerBuf → Bool
  source_lt left right = text_lt left.source right.source

  abbrev moved_on : Form PointerBuf → List (ExternalFindingBatch PointerBuf) → Form PointerBuf
  moved_on form batches = record form {
    external_finding_batches = batches;
    state_revision = bump form.state_revision;
  }

  -- What is stored of the findings: in order, none twice.
  unfoldable pub canonical_findings :
      List (ExternalFinding PointerBuf) → List (ExternalFinding PointerBuf)
  unfolding sort_by dedup finding_lt finding_eq
  canonical_findings findings = dedup finding_eq (sort_by finding_lt findings)

  unfoldable pub withdraw : Option ℕ → M ApplyExternalFindingsError PointerBuf (Unit {0})
  withdraw none = return tt
  withdraw (some index) = do
    form ← current
    (_, batches) ← or_panic (remove_at index form.external_finding_batches)
    leave (moved_on form batches)

  unfoldable pub publish :
      Option ℕ
      → ExternalFindingBatch PointerBuf
      → M ApplyExternalFindingsError PointerBuf (Unit {0})
  unfolding sort_by batch_eq
  publish (some index) batch = do
    form ← current
    existing ← or_panic (get_elem? form.external_finding_batches index)
    if batch_eq existing batch
        then return tt
        else leave (moved_on form (set form.external_finding_batches index batch))
  publish none batch = do
    form ← current
    leave (moved_on form (sort_by source_lt (push form.external_finding_batches batch)))

  abbrev report :
      Text
      → ℕ
      → Option ℕ
      → List (ExternalFinding PointerBuf)
      → M ApplyExternalFindingsError PointerBuf (Unit {0})
  report source data_revision existing_index [] = withdraw existing_index
  report source data_revision existing_index (f ∷ fs) =
      publish existing_index
        (record { source = source; data_revision = data_revision; findings = f ∷ fs })

  abbrev pub from_source : Text → ExternalFindingBatch PointerBuf → Bool
  from_source source batch = text_eq batch.source source

  unfoldable pub apply_external_findings :
      Text
      → ℕ
      → List (ExternalFinding PointerBuf)
      → M ApplyExternalFindingsError PointerBuf (Unit {0})
  unfolding withdraw publish canonical_findings
  apply_external_findings source data_revision findings = do
    form ← current
    require (data_revision == form.data_revision)
        (stale_data_revision form.data_revision data_revision)
    report source data_revision (position (from_source source) form.external_finding_batches)
        (canonical_findings findings)
