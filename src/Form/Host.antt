-- ===== src/Form/Host.antt =====
-- crates/schemaform/src/engine.rs: `apply_host_transaction` and `replace_form_data`.
use mathlib.Core.Option
use schemaform.Prelude.{
  ℕ, Bool, true, false, not, ◌&&◌, ◌||◌, Option, none, some, List, [], ◌∷◌, length, map, any,
  position, get_elem?, set, remove_at, and_then, map_or, if◌then◌else◌, ◌==◌,
}
use schemaform.Json.{Value, is_object}
use schemaform.Pointer.{JsonPtr}
use schemaform.Form.State.{
  Form, ControlState, ArrayState, ArrayItemState, CreateFormError, form_data_must_be_object, M,
  ◌>>=◌, ◌>>◌, current, leave, require, or_fail, or_panic, return, bump, clear_edit_state, new_item,
}
use schemaform.Form.Parsing.{Parsers, equal}
use schemaform.Form.Arrays.{array_values}
use schemaform.Form.Create.{fresh_array_items_for_data}
use schemaform.Form.Lifecycle.{update_all}

pub data HostArrayItem : Type 0 where
  existing : ℕ → HostArrayItem
  fresh : HostArrayItem

pub data HostArrayChange : Type 0 where
  preserve : List HostArrayItem → HostArrayChange
  replace : HostArrayChange

pub record HostItemWrite (P : Type 0) : Type 0 where
  pub array : ℕ
  pub identity : ℕ
  pub binding : P

-- `seen` holds the identities that the topology has named before.
unfoldable is_repeated_or_unknown : List ℕ → List ℕ → List HostArrayItem → Bool
is_repeated_or_unknown known seen [] = false
is_repeated_or_unknown known seen (fresh ∷ topology) = is_repeated_or_unknown known seen topology
is_repeated_or_unknown known seen (existing identity ∷ topology) =
    any (λ other. other == identity) seen
    || not (any (λ other. other == identity) known)
    || is_repeated_or_unknown known (identity ∷ seen) topology

-- The items are the ones that the topology names, in its order.
unfoldable is_same_topology : List ℕ → List HostArrayItem → Bool
is_same_topology [] [] = true
is_same_topology (x ∷ xs) (existing y ∷ topology) = x == y && is_same_topology xs topology
is_same_topology _ _ = false

module _ (j : JsonPtr) (parsers : Parsers) where
  open j use {PointerBuf, root, resolve, starts_with}

  abbrev known_identities : ArrayState PointerBuf → List ℕ
  known_identities array = map (λ (item : ArrayItemState PointerBuf). item.identity) array.items

  abbrev topology_fits : ArrayState PointerBuf → Value → HostArrayChange → Bool
  topology_fits array form_data replace = true
  topology_fits array form_data (preserve topology) =
      length topology == map_or (array_values j array.definition.binding form_data) 0 length
      && not (is_repeated_or_unknown (known_identities array) [] topology)

  unfoldable topologies_fit : List (ArrayState PointerBuf) → Value → List HostArrayChange → Bool
  unfolding is_repeated_or_unknown
  topologies_fit (array ∷ arrays) form_data (change ∷ changes) =
      topology_fits array form_data change && topologies_fit arrays form_data changes
  topologies_fit [] form_data changes = true
  topologies_fit (array ∷ arrays) form_data [] = true

  abbrev changes_topology : ArrayState PointerBuf → HostArrayChange → Bool
  changes_topology array replace = true
  changes_topology array (preserve topology) =
      not (is_same_topology (known_identities array) topology)

  unfoldable any_topology_changed : List (ArrayState PointerBuf) → List HostArrayChange → Bool
  unfolding is_same_topology
  any_topology_changed (array ∷ arrays) (change ∷ changes) =
      changes_topology array change || any_topology_changed arrays changes
  any_topology_changed [] changes = false
  any_topology_changed (array ∷ arrays) [] = false

  -- A write above or below a control makes it forget its edit.
  abbrev touched_by : PointerBuf → ControlState PointerBuf → Bool
  touched_by write control =
      starts_with write control.definition.binding || starts_with control.definition.binding write

  abbrev cleared_by : List PointerBuf → ControlState PointerBuf → ControlState PointerBuf × Bool
  cleared_by writes control =
      if any (λ write. touched_by write control) writes
      then clear_edit_state control
      else (control, false)

  -- The writes inside items, in turn; one that names no item ends the transaction with an error,
  -- and the edits that the writes before it cleared stay cleared.
  unfoldable write_items :
      List (HostItemWrite PointerBuf) → Bool → M CreateFormError PointerBuf Bool
  unfolding update_all clear_edit_state
  write_items [] changed = return changed
  write_items (write ∷ writes) changed = do
    form ← current
    array ← or_fail (get_elem? form.arrays write.array) form_data_must_be_object
    index ←
        or_fail
          (position (λ (item : ArrayItemState PointerBuf). item.identity == write.identity)
            array.items)
          form_data_must_be_object
    item ← or_panic (get_elem? array.items index)
    let updated = update_all (cleared_by (write.binding ∷ [])) item.controls
    leave (record form {
      arrays =
          set form.arrays write.array
            (record array { items = set array.items index (record item { controls = updated.0 }) });
    })
    write_items writes (changed || updated.1)

  -- The items that a topology names, taken out of those that are left, or made.
  unfoldable pub arranged :
      ArrayState PointerBuf
      → List HostArrayItem
      → List (ArrayItemState PointerBuf)
      → ℕ
      → Option (List (ArrayItemState PointerBuf) × ℕ)
  unfolding new_item
  arranged array [] previous next = some ([], next)
  arranged array (fresh ∷ topology) previous next =
      Option.map (λ r. (new_item next array.definition ∷ r.0, r.1))
        (arranged array topology previous (bump next))
  arranged array (existing identity ∷ topology) previous next =
      and_then (position (λ (item : ArrayItemState PointerBuf). item.identity == identity) previous)
        λ index.
          and_then (remove_at index previous)
            λ (taken : ArrayItemState PointerBuf × List (ArrayItemState PointerBuf)).
              Option.map (λ r. (taken.0 ∷ r.0, r.1)) (arranged array topology taken.1 next)

  abbrev arrange_array :
      ArrayState PointerBuf
      → HostArrayChange
      → Value
      → ℕ
      → Option (List (ArrayItemState PointerBuf) × ℕ)
  arrange_array array replace form_data next =
      some (fresh_array_items_for_data j array.definition form_data next)
  arrange_array array (preserve topology) form_data next =
      if is_same_topology (known_identities array) topology
      then some (array.items, next)
      else arranged array topology array.items next

  unfoldable arrange_arrays :
      List (ArrayState PointerBuf)
      → List HostArrayChange
      → Value
      → ℕ
      → Option (List (ArrayState PointerBuf) × ℕ)
  unfolding arranged fresh_array_items_for_data is_same_topology
  arrange_arrays (array ∷ arrays) (change ∷ changes) form_data next =
      and_then (arrange_array array change form_data next)
        λ (r : List (ArrayItemState PointerBuf) × ℕ).
          Option.map (λ s. (record array { items = r.0 } ∷ s.0, s.1))
            (arrange_arrays arrays changes form_data r.1)
  arrange_arrays [] changes form_data next = some ([], next)
  arrange_arrays (array ∷ arrays) [] form_data next = some (array ∷ arrays, next)

  unfoldable pub apply_host_transaction :
      Value
      → List PointerBuf
      → List HostArrayChange
      → List (HostItemWrite PointerBuf)
      → M CreateFormError PointerBuf (Unit {0})
  unfolding update_all clear_edit_state topologies_fit any_topology_changed write_items
      arrange_arrays
  apply_host_transaction form_data writes array_changes item_writes = do
    form ← current
    require (is_object form_data && length array_changes == length form.arrays)
        form_data_must_be_object
    let data_changed = not (equal parsers form.form_data form_data)
    require (topologies_fit form.arrays form_data array_changes) form_data_must_be_object
    let topology_changed = any_topology_changed form.arrays array_changes
    let cleared = update_all (cleared_by writes) form.controls
    leave (record form { controls = cleared.0 })
    state_changed ← write_items item_writes (data_changed || topology_changed || cleared.1)
    form' ← current
    let kept = if data_changed then form_data else form'.form_data
    arrangement ← or_panic (arrange_arrays form'.arrays array_changes kept form'.next_item_identity)
    leave (record form' {
      arrays = arrangement.0;
      next_item_identity = arrangement.1;
      form_data = kept;
      external_finding_batches = if data_changed then [] else form'.external_finding_batches;
      data_revision = if data_changed then bump form'.data_revision else form'.data_revision;
      state_revision = if state_changed then bump form'.state_revision else form'.state_revision;
    })

  abbrev bound_differs : Option Value → Option Value → Bool
  bound_differs (some now) (some next) = not (equal parsers now next)
  bound_differs none none = false
  bound_differs _ _ = true

  unfoldable array_changes_for : Form PointerBuf → Value → List HostArrayChange
  array_changes_for form form_data =
      map
        (λ (array : ArrayState PointerBuf).
          if bound_differs (resolve array.definition.binding form.form_data)
            (resolve array.definition.binding form_data)
          then replace
          else preserve (map existing (known_identities array)))
        form.arrays

  unfoldable pub replace_form_data : Value → M CreateFormError PointerBuf (Unit {0})
  unfolding array_changes_for apply_host_transaction
  replace_form_data form_data form =
      apply_host_transaction form_data (root ∷ []) (array_changes_for form form_data) [] form
