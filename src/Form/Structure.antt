-- ===== src/Form/Structure.antt =====
-- crates/schemaform/src/engine.rs: objects and arrays created, replaced and removed as a whole.
use schemaform.Prelude.{
  ℕ, Bool, not, ◌&&◌, ◌||◌, List, [], ◌∷◌, map, any, is_some, is_some_and, if◌then◌else◌,
}
use schemaform.Json.{Text, text_eq, Value, is_object, is_array}
use schemaform.Pointer.{JsonPtr}
use schemaform.Pointer.Bound.{set_bound_value, take_bound_value}
use schemaform.Form.Definition.{is_multiple_choice}
use schemaform.Form.State.{
  Form, ControlState, ArrayState, ArrayItemState, EditError, unknown_control, unresolved_control,
  operation_not_allowed, M, ◌>>=◌, ◌>>◌, current, leave, require, or_fail, bump, clear_edit_state,
}
use schemaform.Form.Create.{fresh_array_items_for_data}
use schemaform.Form.Lookup.{array_item_pointer, append_relative_pointer, map_from}

module _ (j : JsonPtr) where
  open j use {PointerBuf, as_str, parse, resolve, starts_with}

  abbrev same_pointer : PointerBuf → PointerBuf → Bool
  same_pointer p q = text_eq (as_str p) (as_str q)

  -- Every array at the binding or below it has its items anew, under fresh identities.
  unfoldable reconcile_arrays :
      PointerBuf → Value → List (ArrayState PointerBuf) → ℕ → List (ArrayState PointerBuf) × ℕ
  reconcile_arrays binding form_data [] next = ([], next)
  reconcile_arrays binding form_data (array ∷ arrays) next =
      let (items, fresh_next) = fresh_array_items_for_data j array.definition form_data next in
      let at = array.definition.binding in
      let below = same_pointer at binding || starts_with at binding in
      let next' = if below then fresh_next else next in
      let (arrays', next'') = reconcile_arrays binding form_data arrays next' in
      ((if below then record array { items = items } else array) ∷ arrays', next'')

  unfoldable reconcile_authoritative_arrays : PointerBuf → Form PointerBuf → Form PointerBuf
  unfolding reconcile_arrays
  reconcile_authoritative_arrays binding form =
      let (arrays, next) =
        reconcile_arrays binding form.form_data form.arrays form.next_item_identity in
      record form { arrays = arrays; next_item_identity = next }

  -- Controls at a binding or below it forget their edits.
  abbrev cleared_below : PointerBuf → PointerBuf → ControlState PointerBuf → ControlState PointerBuf
  cleared_below binding at control =
      if starts_with at binding then (clear_edit_state control).0 else control

  unfoldable clear_item_below :
      PointerBuf → PointerBuf → ℕ → ArrayItemState PointerBuf → ArrayItemState PointerBuf
  unfolding clear_edit_state
  clear_item_below binding array_binding index item = record item {
    controls =
        map
          (λ (control : ControlState PointerBuf).
            cleared_below binding
              (append_relative_pointer j (array_item_pointer j array_binding index)
                control.definition.binding)
              control)
          item.controls;
  }

  unfoldable clear_edits_below : PointerBuf → Form PointerBuf → Form PointerBuf
  unfolding clear_item_below map_from
  clear_edits_below binding form = record form {
    controls =
        map
          (λ (control : ControlState PointerBuf).
            cleared_below binding control.definition.binding control)
          form.controls;
    arrays =
        map
          (λ (array : ArrayState PointerBuf). record array {
            items = map_from (clear_item_below binding array.definition.binding) 0 array.items;
          })
          form.arrays;
  }

  abbrev both_revisions : Form PointerBuf → Form PointerBuf
  both_revisions form = record form {
    external_finding_batches = [];
    data_revision = bump form.data_revision;
    state_revision = bump form.state_revision;
  }

  unfoldable materialize_structure : Text → Value → M EditError PointerBuf (Unit {0})
  materialize_structure binding seed = do
    form ← current
    pointer ← or_fail (parse binding) (unknown_control binding)
    require
        (not (is_some (resolve pointer form.form_data) || not (is_object seed || is_array seed)))
        (operation_not_allowed (as_str pointer))
    form_data ←
        or_fail (set_bound_value j pointer form.form_data seed)
          (unresolved_control (as_str pointer))
    leave (
        both_revisions
          (reconcile_authoritative_arrays pointer (record form { form_data = form_data })))

  unfoldable replace_structure : Text → Value → M EditError PointerBuf (Unit {0})
  replace_structure binding value = do
    form ← current
    pointer ← or_fail (parse binding) (unknown_control binding)
    let multiple_choice =
        any
          (λ (array : ArrayState PointerBuf).
            same_pointer array.definition.binding pointer && is_multiple_choice array.definition)
          form.arrays
    require
        ((is_object value || is_array value)
          && is_some_and (resolve pointer form.form_data) (λ now.
            is_object value && not (is_object now)
            || is_array value && (not (is_array now) || multiple_choice)))
        (operation_not_allowed (as_str pointer))
    form_data ←
        or_fail (set_bound_value j pointer form.form_data value)
          (unresolved_control (as_str pointer))
    leave (
        both_revisions (
          clear_edits_below pointer
            (reconcile_authoritative_arrays pointer (record form { form_data = form_data }))))

  unfoldable remove_bound_value : PointerBuf → M EditError PointerBuf (Unit {0})
  remove_bound_value binding = do
    form ← current
    (_, form_data) ←
        or_fail (take_bound_value j binding form.form_data) (unresolved_control (as_str binding))
    leave (both_revisions (record form { form_data = form_data }))

  unfoldable remove_value : Text → M EditError PointerBuf (Unit {0})
  unfolding remove_bound_value
  remove_value binding = do
    pointer ← or_fail (parse binding) (unknown_control binding)
    remove_bound_value pointer
    form ← current
    leave (clear_edits_below pointer (reconcile_authoritative_arrays pointer form))
