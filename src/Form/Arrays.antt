-- ===== src/Form/Arrays.antt =====
-- crates/schemaform/src/engine.rs: the operations on the items of an array.
pub mod Aligned
pub mod Steps
pub mod Contracts
pub mod Identities
pub mod Invariant
pub mod Moves
use mathlib.Core.Option
use schemaform.Prelude.{
  ℕ, zero, suc, ◌+◌, ◌-◌, Bool, true, false, not, ◌&&◌, ◌||◌, Option, none, some, List, [], ◌∷◌,
  length, find, position, get_elem?, set, insert_at, remove_at, swap, push, drop, and_then, map_or,
  is_some_and, is_none_or, ltb, ◌==◌, if◌then◌else◌, map,
}
use schemaform.Prelude.Int.{ℤ}
use schemaform.Json.{Text, text_eq, Value, array_of, as_array, is_array}
use schemaform.Json.Equality.{json_values_equal}
use schemaform.Number.{same_number}
use schemaform.Pointer.{JsonPtr}
use schemaform.Pointer.Bound.{binding_parent_is_object, set_bound_value}
use schemaform.Pointer.Words.{to_string, escape}
use schemaform.Form.Definition.{ArrayDefinition, CompiledChoice, is_multiple_choice, choices}
use schemaform.Form.State.{
  Form, ArrayState, ArrayItemState, EditError, unknown_control, unresolved_control,
  operation_not_allowed, M, ◌>>=◌, ◌>>◌, return, current, leave, require, or_fail, or_panic, bump,
  new_item, identities,
}

pub record InsertedArrayItem : Type 0 where
  pub identity : ℕ
  pub shifted : List ℕ

pub record RemovedArrayItem : Type 0 where
  pub identity : ℕ
  pub shifted : List ℕ

pub record MovedArrayItem : Type 0 where
  pub identity : ℕ
  pub displaced : ℕ
  pub origin : ℕ
  pub target : ℕ
  pub data_changed : Bool

pub data ArrayMove : Type 0 where
  up down : ArrayMove

-- the index that an item moves to, if there is one
abbrev pub destination_of : ArrayMove → ℕ → ℕ → Option ℕ
destination_of up zero count = none
destination_of up (suc i) count = some i
destination_of down i count = if ltb (i + 1) count then some (i + 1) else none

module _ (j : JsonPtr) where
  open j use {PointerBuf, as_str, resolve, resolve_mut}

  -- `array.definition.binding == binding`
  abbrev pub bound_at : Text → ArrayState PointerBuf → Bool
  bound_at binding array = text_eq (as_str array.definition.binding) binding

  -- `binding.resolve(form_data).ok().and_then(Value::as_array)`
  abbrev pub array_values : PointerBuf → Value → Option (List Value)
  array_values binding form_data = and_then (resolve binding form_data) as_array

  abbrev referent_array : Value × (Value → Value) → Option (List Value × (List Value → Value))
  referent_array (value, put_back) =
      Option.map (λ values. (values, λ values'. put_back (array_of values'))) (as_array value)

  -- the same through `resolve_mut` and `as_array_mut`
  abbrev pub array_values_mut : PointerBuf → Value → Option (List Value × (List Value → Value))
  array_values_mut binding form_data = and_then (resolve_mut binding form_data) referent_array

  unfoldable pub array_can_append : Form PointerBuf → Text → Bool
  array_can_append form binding = is_some_and (find (bound_at binding) form.arrays) λ array.
      is_some_and (array_values array.definition.binding form.form_data)
        λ values. is_none_or array.definition.max_items λ maximum. ltb (length values) maximum

  unfoldable pub array_can_remove : Form PointerBuf → Text → Bool
  array_can_remove form binding = is_some_and (find (bound_at binding) form.arrays) λ array.
      is_some_and (array_values array.definition.binding form.form_data) λ values.
        ltb 0 (length values)
        && is_none_or array.definition.min_items (λ minimum. ltb minimum (length values))

  unfoldable array_can_move : Form PointerBuf → Text → Bool
  array_can_move form binding =
      is_some_and
        (and_then (find (bound_at binding) form.arrays)
          (λ array. array_values array.definition.binding form.form_data))
        (λ values. ltb 1 (length values))

  -- The form after a change of the items of one array and of its values.
  abbrev pub with_array :
      Form PointerBuf
      → ℕ
      → ArrayState PointerBuf
      → List (ArrayItemState PointerBuf)
      → Value
      → Form PointerBuf
  with_array form index array items form_data = record form {
    arrays = set form.arrays index (record array { items = items });
    form_data = form_data;
    external_finding_batches = [];
    data_revision = bump form.data_revision;
    state_revision = bump form.state_revision;
  }

  abbrev with_fresh_identity : Form PointerBuf → Form PointerBuf
  with_fresh_identity form = record form { next_item_identity = bump form.next_item_identity }

  unfoldable pub append_array_item : Text → M EditError PointerBuf ℕ
  append_array_item binding = do
    form ← current
    require (array_can_append form binding) (operation_not_allowed binding)
    array_index ← or_fail (position (bound_at binding) form.arrays) (unknown_control binding)
    array ← or_panic (get_elem? form.arrays array_index)
    (values, put_back) ←
        or_fail (array_values_mut array.definition.binding form.form_data)
          (unresolved_control binding)
    let identity = form.next_item_identity
    let item = new_item identity array.definition
    leave (
        with_fresh_identity (
          with_array form array_index array (push array.items item)
            (put_back (push values array.definition.item_template.creation_seed))))
    return identity

  abbrev pub has_identity : ℕ → ArrayItemState PointerBuf → Bool
  has_identity identity item = item.identity == identity

  unfoldable pub insert_array_item_before : Text → ℕ → M EditError PointerBuf InsertedArrayItem
  insert_array_item_before binding before = do
    form ← current
    require (array_can_append form binding) (operation_not_allowed binding)
    array_index ← or_fail (position (bound_at binding) form.arrays) (unknown_control binding)
    array ← or_panic (get_elem? form.arrays array_index)
    item_index ← or_fail (position (has_identity before) array.items) (unknown_control binding)
    (values, put_back) ←
        or_fail (array_values_mut array.definition.binding form.form_data)
          (unresolved_control binding)
    values' ← or_panic (insert_at item_index array.definition.item_template.creation_seed values)
    let identity = form.next_item_identity
    items ← or_panic (insert_at item_index (new_item identity array.definition) array.items)
    leave (with_fresh_identity (with_array form array_index array items (put_back values')))
    return (record { identity = identity; shifted = identities (drop (item_index + 1) items) })

  unfoldable pub remove_array_item : Text → ℕ → M EditError PointerBuf RemovedArrayItem
  remove_array_item binding identity = do
    form ← current
    require (array_can_remove form binding) (operation_not_allowed binding)
    array_index ← or_fail (position (bound_at binding) form.arrays) (unknown_control binding)
    array ← or_panic (get_elem? form.arrays array_index)
    item_index ← or_fail (position (has_identity identity) array.items) (unknown_control binding)
    (values, put_back) ←
        or_fail (array_values_mut array.definition.binding form.form_data)
          (unresolved_control binding)
    (_, values') ← or_panic (remove_at item_index values)
    (_, items) ← or_panic (remove_at item_index array.items)
    leave (with_array form array_index array items (put_back values'))
    return
        (record { identity = identity; shifted = identities (drop (item_index + 1) array.items) })

  module _ (parse_big_int : Text → Option ℤ) where
    abbrev pub equal : Value → Value → Bool
    equal = json_values_equal (same_number parse_big_int)

    unfoldable pub move_array_item : Text → ℕ → ArrayMove → M EditError PointerBuf MovedArrayItem
    move_array_item binding identity direction = do
      form ← current
      array_index ← or_fail (position (bound_at binding) form.arrays) (unknown_control binding)
      array ← or_panic (get_elem? form.arrays array_index)
      item_index ← or_fail (position (has_identity identity) array.items) (unknown_control binding)
      destination ←
          or_fail (destination_of direction item_index (length array.items))
            (operation_not_allowed binding)
      (values, put_back) ←
          or_fail (array_values_mut array.definition.binding form.form_data)
            (unresolved_control binding)
      value ← or_panic (get_elem? values item_index)
      other ← or_panic (get_elem? values destination)
      let data_changed = not (equal value other)
      values' ← or_panic (swap item_index destination values)
      displaced ← or_panic (get_elem? array.items destination)
      items ← or_panic (swap item_index destination array.items)
      leave (record form {
        arrays = set form.arrays array_index (record array { items = items });
        form_data = put_back values';
        external_finding_batches = if data_changed then [] else form.external_finding_batches;
        data_revision = if data_changed then bump form.data_revision else form.data_revision;
        state_revision = bump form.state_revision;
      })
      return (record {
        identity = identity;
        displaced = displaced.identity;
        origin = item_index;
        target = destination;
        data_changed = data_changed;
      })
