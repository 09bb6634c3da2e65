-- ===== src/Form/Lifecycle.antt =====
-- crates/schemaform/src/engine.rs: `reset`, `reinitialize`, `blur` and `bound_value_is_dirty`.
pub mod Restores
use schemaform.Prelude.{
  ℕ, Bool, true, false, not, ◌&&◌, ◌||◌, Option, none, some, List, [], ◌∷◌, map, position,
  get_elem?, set, if◌then◌else◌, ◌==◌,
}
use schemaform.Json.{Text, Value, is_object}
use schemaform.Pointer.{JsonPtr}
use schemaform.Form.Definition.{is_multiple_choice}
use schemaform.Form.State.{
  Form, ControlState, ArrayState, ArrayItemState, EditError, unknown_control, CreateFormError,
  form_data_must_be_object, M, ◌>>=◌, ◌>>◌, return, current, leave, require, or_fail, or_panic,
  bump, finalize_edit_buffer, clear_lifecycle_state, identities,
}
use schemaform.Form.Parsing.{Parsers, equal}
use schemaform.Form.Arrays.{bound_at}
use schemaform.Form.Create.{fresh_array_items_for_data, array_items_with_identities}
use schemaform.Form.Lookup.{ControlLocation, control_location, control_state, set_control_state}

abbrev identities_eq : List ℕ → List ℕ → Bool
identities_eq [] [] = true
identities_eq (x ∷ xs) (y ∷ ys) = x == y && identities_eq xs ys
identities_eq _ _ = false

module _ {P : Type 0} where
  -- `controls.iter_mut()` changed one by one, with `|=` of what each reports
  unfoldable pub update_all :
      (ControlState P → ControlState P × Bool)
      → List (ControlState P)
      → List (ControlState P) × Bool
  update_all f [] = ([], false)
  update_all f (control ∷ controls) =
      let (control', changed) = f control in
      let (controls', changed') = update_all f controls in
      (control' ∷ controls', changed || changed')

  unfoldable pub update_items :
      (ControlState P → ControlState P × Bool)
      → List (ArrayItemState P)
      → List (ArrayItemState P) × Bool
  unfolding update_all
  update_items f [] = ([], false)
  update_items f (item ∷ items) =
      let (controls, changed) = update_all f item.controls in
      let (items', changed') = update_items f items in
      (record item { controls = controls } ∷ items', changed || changed')

  -- Each array's flag `touched` is put to `false` where `untouch` says so.
  unfoldable pub update_arrays :
      (ControlState P → ControlState P × Bool)
      → Bool
      → List (ArrayState P)
      → List (ArrayState P) × Bool
  unfolding update_items
  update_arrays f untouch [] = ([], false)
  update_arrays f untouch (array ∷ arrays) =
      let (items, changed) = update_items f array.items in
      let (arrays', changed') = update_arrays f untouch arrays in
      (
        record array { items = items; touched = not untouch && array.touched } ∷ arrays',
        untouch && array.touched || changed || changed',
      )

  -- `zip` of the arrays with the identities that they had in the baseline
  unfoldable pub topology_changed : List (ArrayState P) → List (List ℕ) → Bool
  topology_changed (array ∷ arrays) (baseline ∷ baselines) =
      not (identities_eq (identities array.items) baseline) || topology_changed arrays baselines
  topology_changed [] baselines = false
  topology_changed (array ∷ arrays) [] = false

  unfoldable pub restore_topology : List (ArrayState P) → List (List ℕ) → List (ArrayState P)
  unfolding array_items_with_identities
  restore_topology (array ∷ arrays) (baseline ∷ baselines) =
      record array { items = array_items_with_identities array.definition baseline }
      ∷ restore_topology arrays baselines
  restore_topology [] baselines = []
  restore_topology (array ∷ arrays) [] = array ∷ arrays

module _ (j : JsonPtr) (parsers : Parsers) where
  open j use {PointerBuf, as_str, parse, resolve}

  abbrev reset_data : Form PointerBuf → Bool → Form PointerBuf
  reset_data form data_changed =
      if data_changed
      then record form {
        form_data = form.baseline;
        data_revision = bump form.data_revision;
        external_finding_batches = [];
      }
      else form

  unfoldable pub reset : Form PointerBuf → Form PointerBuf
  unfolding update_all update_arrays topology_changed restore_topology clear_lifecycle_state
  reset form =
      let data_changed = not (equal parsers form.form_data form.baseline) in
      let topology = topology_changed form.arrays form.baseline_array_identities in
      let (controls, changed) = update_all clear_lifecycle_state form.controls in
      let (arrays, changed') = update_arrays clear_lifecycle_state true form.arrays in
      let state_changed =
        data_changed || topology || form.submission_attempted || changed || changed' in
      record (reset_data form data_changed) {
        controls = controls;
        arrays =
            if topology then restore_topology arrays form.baseline_array_identities else arrays;
        submission_attempted = false;
        state_revision = if state_changed then bump form.state_revision else form.state_revision;
      }

  unfoldable fresh_arrays :
      List (ArrayState PointerBuf) → Value → ℕ → List (ArrayState PointerBuf) × ℕ
  unfolding fresh_array_items_for_data
  fresh_arrays [] form_data next = ([], next)
  fresh_arrays (array ∷ arrays) form_data next =
      let (items, next') = fresh_array_items_for_data j array.definition form_data next in
      let (arrays', next'') = fresh_arrays arrays form_data next' in
      (record array { items = items; touched = false } ∷ arrays', next'')

  unfoldable pub reinitialize : Value → M CreateFormError PointerBuf (Unit {0})
  unfolding update_all fresh_arrays clear_lifecycle_state
  reinitialize form_data = do
    form ← current
    require (is_object form_data) form_data_must_be_object
    let data_changed = not (equal parsers form.form_data form_data)
    let cleared = update_all clear_lifecycle_state form.controls
    let fresh = fresh_arrays form.arrays form_data form.next_item_identity
    leave (record form {
      controls = cleared.0;
      arrays = fresh.0;
      next_item_identity = fresh.1;
      baseline_array_identities =
          map (λ (array : ArrayState PointerBuf). identities array.items) fresh.0;
      form_data = if data_changed then form_data else form.form_data;
      baseline = form_data;
      external_finding_batches = [];
      submission_attempted = false;
      data_revision = bump form.data_revision;
      state_revision = bump form.state_revision;
    })

  unfoldable blur_array : Text → M EditError PointerBuf (Unit {0})
  blur_array binding = do
    form ← current
    index ← or_fail (position (bound_at j binding) form.arrays) (unknown_control binding)
    array ← or_panic (get_elem? form.arrays index)
    require (is_multiple_choice array.definition) (unknown_control binding)
    if array.touched
        then return tt
        else leave (record form {
          arrays = set form.arrays index (record array { touched = true });
          state_revision = bump form.state_revision;
        })

  unfoldable blur_control : ControlLocation → M EditError PointerBuf (Unit {0})
  unfolding finalize_edit_buffer
  blur_control location = do
    form ← current
    control ← or_panic (control_state form location)
    let finalized = finalize_edit_buffer control
    let state_changed = finalized.1 || not control.touched
    leave (record (set_control_state form location (record (finalized.0) { touched = true })) {
      state_revision = if state_changed then bump form.state_revision else form.state_revision;
    })

  unfoldable pub blur : Text → M EditError PointerBuf (Unit {0})
  unfolding blur_array blur_control
  blur binding form = elim (control_location j form binding) [
    | none ↦ blur_array binding form
    | some location ↦ blur_control location form
  ]

  abbrev differs : Option Value → Option Value → Bool
  differs (some now) (some then') = not (equal parsers now then')
  differs none none = false
  differs _ _ = true

  unfoldable bound_value_is_dirty : Form PointerBuf → Text → Bool
  bound_value_is_dirty form binding = elim (parse binding) [
    | none ↦ false
    | some pointer ↦ differs (resolve pointer form.form_data) (resolve pointer form.baseline)
  ]
