-- ===== src/Form/Create.antt =====
-- crates/schemaform/src/engine.rs: the items of an array under fresh identities, and
-- `FormDefinition::create_form`.
pub mod Fresh
pub mod Arranged
use schemaform.Prelude.{
  ℕ, zero, suc, Bool, false, Option, none, some, List, [], ◌∷◌, length, map, map_or, if◌then◌else◌,
}
use schemaform.Prelude.Results.{Result, ok, err}
use schemaform.Json.{Value, is_object}
use schemaform.Pointer.{JsonPtr}
use schemaform.Form.Definition.{ArrayDefinition, FormDefinition}
use schemaform.Form.State.{
  Form, ArrayState, ArrayItemState, CreateFormError, form_data_must_be_object, bump, new_control,
  new_item, identities,
}
use schemaform.Form.Arrays.{array_values}

module _ {P : Type 0} where
  -- The items, and the identity that is next after them.
  unfoldable pub fresh_array_items : ArrayDefinition P → ℕ → ℕ → List (ArrayItemState P) × ℕ
  unfolding new_item
  fresh_array_items definition zero next = ([], next)
  fresh_array_items definition (suc count) next =
      let (items, next') = fresh_array_items definition count (bump next) in
      (new_item next definition ∷ items, next')

  unfoldable pub array_items_with_identities : ArrayDefinition P → List ℕ → List (ArrayItemState P)
  unfolding new_item
  array_items_with_identities definition = map λ identity. new_item identity definition

module _ (j : JsonPtr) where
  open j use {PointerBuf}

  unfoldable pub fresh_array_items_for_data :
      ArrayDefinition PointerBuf → Value → ℕ → List (ArrayItemState PointerBuf) × ℕ
  unfolding fresh_array_items
  fresh_array_items_for_data definition form_data next =
      fresh_array_items definition (map_or (array_values j definition.binding form_data) 0 length)
        next

  unfoldable pub create_arrays :
      List (ArrayDefinition PointerBuf) → Value → ℕ → List (ArrayState PointerBuf) × ℕ
  unfolding fresh_array_items_for_data
  create_arrays [] form_data next = ([], next)
  create_arrays (definition ∷ definitions) form_data next =
      let (items, next') = fresh_array_items_for_data definition form_data next in
      let (arrays, next'') = create_arrays definitions form_data next' in
      (record { definition = definition; items = items; touched = false } ∷ arrays, next'')

  unfoldable pub create_form :
      FormDefinition PointerBuf → Value → Result CreateFormError (Form PointerBuf)
  unfolding create_arrays new_control
  create_form definition form_data =
      let (arrays, next) = create_arrays definition.arrays form_data 1 in
      if is_object form_data
      then ok (record {
        controls = map new_control definition.controls;
        arrays = arrays;
        next_item_identity = next;
        baseline_array_identities = map (λ array. identities array.items) arrays;
        definition_fingerprint = definition.fingerprint;
        baseline = form_data;
        form_data = form_data;
        external_finding_batches = [];
        submission_attempted = false;
        data_revision = 0;
        state_revision = 0;
      })
      else err form_data_must_be_object
