-- ===== src/Form/Create/Arranged.antt =====
-- A form that is created has its arrays arranged.
use schemaform.Prelude.{
  ℕ, ◌+◌, ◌^◌, ◌<◌, ◌≡◌, refl, ◌∙◌, true, false, List, [], ◌∷◌, length, arith, map_or, Bool-cases,
  inl, inr, map,
}
use schemaform.Prelude.Results.{Result, ok, err, panic}
use schemaform.Json.{Value, is_object}
use schemaform.Pointer.{JsonPtr}
use schemaform.Pointer.Frame.{count}
use schemaform.Form.Definition.{ArrayDefinition, FormDefinition}
use schemaform.Form.State.{Form, CreateFormError, identities}
use schemaform.Form.Arrays.{array_values}
use schemaform.Form.Arrays.Aligned.{IsAligned, IsFlat, Parts, PartsAll}
use schemaform.Form.Arrays.Identities.{uses}
use schemaform.Form.Arrays.Invariant.{IsArranged}
use schemaform.Form.Create.{create_arrays, create_form, fresh_array_items_for_data}
use schemaform.Form.Create.Fresh.{IsRun, length-fresh, next-fresh, fresh-IsRun, count-array_values}

module _ (j : JsonPtr) where
  open j use {PointerBuf}

  abbrev PartsAllDefinitions : PointerBuf → List (ArrayDefinition PointerBuf) → Type 0
  PartsAllDefinitions p [] = Unit {0}
  PartsAllDefinitions p (a ∷ definitions) = Parts j p a.binding × PartsAllDefinitions p definitions

  -- No array of the definition is at or below another.
  abbrev IsFlatDefinition : List (ArrayDefinition PointerBuf) → Type 0
  IsFlatDefinition [] = Unit {0}
  IsFlatDefinition (a ∷ definitions) =
      PartsAllDefinitions a.binding definitions × IsFlatDefinition definitions

  -- the items that the data has in all arrays of the definition
  abbrev total : List (ArrayDefinition PointerBuf) → Value → ℕ
  total [] d = 0
  total (a ∷ definitions) d = count j a.binding d + total definitions d

  create-PartsAll :
      (p : PointerBuf) (definitions : List (ArrayDefinition PointerBuf)) (d : Value) (next : ℕ)
      → PartsAllDefinitions p definitions
      → PartsAll j p (create_arrays j definitions d next).0
  unfolding create_arrays
  create-PartsAll p [] d next h = tt
  create-PartsAll p (a ∷ definitions) d next h =
      (h.0, create-PartsAll p definitions d (fresh_array_items_for_data j a d next).1 h.1)

  create-IsFlat :
      (definitions : List (ArrayDefinition PointerBuf)) (d : Value) (next : ℕ)
      → IsFlatDefinition definitions
      → IsFlat j (create_arrays j definitions d next).0
  unfolding create_arrays
  create-IsFlat [] d next h = tt
  create-IsFlat (a ∷ definitions) d next h = (
    create-PartsAll a.binding definitions d (fresh_array_items_for_data j a d next).1 h.0,
    create-IsFlat definitions d (fresh_array_items_for_data j a d next).1 h.1,
  )

  create-IsAligned :
      (definitions : List (ArrayDefinition PointerBuf)) (d : Value) (next : ℕ)
      → IsAligned j (create_arrays j definitions d next).0 d
  unfolding create_arrays fresh_array_items_for_data
  create-IsAligned [] d next = tt
  create-IsAligned (a ∷ definitions) d next = (
    length-fresh a _ next ∙ count-array_values j a.binding d,
    create-IsAligned definitions d (fresh_array_items_for_data j a d next).1,
  )

  create-IsRun :
      (definitions : List (ArrayDefinition PointerBuf)) (d : Value) (next : ℕ)
      → next + total definitions d < 2 ^ 64
      → ((create_arrays j definitions d next).1 ≡ next + total definitions d)
        × IsRun next
            (next + total definitions d)
            (λ x. uses x (create_arrays j definitions d next).0)
  unfolding create_arrays fresh_array_items_for_data
  create-IsRun [] d next h = (
    omega arith,
    record { once = λ x. omega arith; none_before = λ x k. refl; none_after = λ x k. refl },
  )
  create-IsRun (a ∷ definitions) d next h =
      let n = map_or (array_values j a.binding d) 0 length in
      let same : n ≡ count j a.binding d = count-array_values j a.binding d in
      let next' = (fresh_array_items_for_data j a d next).1 in
      let here = next-fresh a n next (omega arith) in
      let run = fresh-IsRun a n next (omega arith) in
      let (there, runs) = create-IsRun definitions d next' (omega arith) in
      (
        omega arith,
        record {
          once = λ x.
              ground (arith, here, run.once x, run.none_after x, runs.once x, runs.none_before x);
          none_before = λ x k. omega (arith, run.none_before x k, runs.none_before x (omega arith));
          none_after =
              λ x k. omega (arith, run.none_after x (omega arith), runs.none_after x (omega arith));
        },
      )

  abbrev pub Creates :
      FormDefinition PointerBuf → Value → Result CreateFormError (Form PointerBuf) → Type 0
  Creates definition form_data (ok form) =
      (is_object form_data ≡ true)
      × IsArranged j form
      × (form.form_data ≡ form_data)
      × (form.baseline ≡ form_data)
      × (form.baseline_array_identities ≡ map (λ array. identities array.items) form.arrays)
      × (form.external_finding_batches ≡ [])
      × (form.submission_attempted ≡ false)
  Creates definition form_data (err e) = is_object form_data ≡ false
  Creates definition form_data panic = ⊥

  -- Where no array of the definition is at or below another, and the data has fewer items than
  -- there are identities: a form is created exactly if the data is an object. It has that data as
  -- its data and its baseline, its arrays are arranged, and nothing is reported or submitted yet.
  pub create_form-Creates :
      (definition : FormDefinition PointerBuf) (form_data : Value)
      → IsFlatDefinition definition.arrays
      → 1 + total definition.arrays form_data < 2 ^ 64
      → Creates definition form_data (create_form j definition form_data)
  unfolding create_form
  create_form-Creates definition form_data flat few = elim (Bool-cases (is_object form_data)) [
    | inl e ↦
        let (next, run) = create-IsRun definition.arrays form_data 1 few in
        rw e (
          e,
          record {
            flat = create-IsFlat definition.arrays form_data 1 flat;
            aligned = create-IsAligned definition.arrays form_data 1;
            unique = run.once;
            unused = λ x h. run.none_after x (omega arith);
          },
          refl,
          refl,
          refl,
          refl,
          refl,
        )
    | inr e ↦ rw e e
  ]
