-- ===== src/Form/Lookup.antt =====
-- crates/schemaform/src/engine.rs: the pointers of items, and where a binding's control is kept.
pub mod Laws
use mathlib.Core.Option.{get_or}
use mathlib.Core.Option
use schemaform.Prelude.{
  ℕ, zero, suc, Option, none, some, List, [], ◌∷◌, ◌++◌, get_elem?, set, position, and_then,
  if◌then◌else◌,
}
use schemaform.Json.{Text, text_eq}
use schemaform.Pointer.{JsonPtr}
use schemaform.Pointer.Words.{to_string, escape}
use schemaform.Form.State.{Form, ControlState, ArrayState, ArrayItemState}

-- `iter().enumerate().find_map(..)`, from a first index
unfoldable pub find_map_from {ℓ κ} :
    {A : Type ℓ} {B : Type κ} → (ℕ → A → Option B) → ℕ → List A → Option B
find_map_from f i [] = none
find_map_from f i (x ∷ xs) =
    let rest = find_map_from f (suc i) xs in elim (f i x) [ none ↦ rest | some b ↦ some b ]

-- `iter().enumerate().map(..)`
unfoldable pub map_from {ℓ κ} : {A : Type ℓ} {B : Type κ} → (ℕ → A → B) → ℕ → List A → List B
map_from f i [] = []
map_from f i (x ∷ xs) = f i x ∷ map_from f (suc i) xs

pub data ControlLocation : Type 0 where
  static_control : ℕ → ControlLocation
  array_item : (array item control : ℕ) → ControlLocation

module _ (j : JsonPtr) where
  open j use {PointerBuf, root, parse, as_str}

  -- `PointerBuf::parse(text).expect(..)`, at texts that `parse_push` and `parse_join` say are
  -- pointers: the root never stands in.
  abbrev pub parsed : Text → PointerBuf
  parsed text = get_or (parse text) root

  -- `append_pointer` of one token
  unfoldable pub append_pointer : PointerBuf → Text → PointerBuf
  append_pointer parent token = parsed (as_str parent ++ b'/' ∷ escape token)

  unfoldable pub array_item_pointer : PointerBuf → ℕ → PointerBuf
  unfolding append_pointer
  array_item_pointer array index = append_pointer array (to_string index)

  unfoldable pub append_relative_pointer : PointerBuf → PointerBuf → PointerBuf
  append_relative_pointer base relative = parsed (as_str base ++ as_str relative)

  unfoldable pub control_in_item :
      Text → ℕ → ℕ → PointerBuf → ℕ → ControlState PointerBuf → Option ControlLocation
  unfolding append_relative_pointer
  control_in_item binding array item item_binding index control =
      if text_eq (as_str (append_relative_pointer item_binding control.definition.binding)) binding
      then some (array_item array item index)
      else none

  unfoldable pub item_location :
      Text → PointerBuf → ℕ → ℕ → ArrayItemState PointerBuf → Option ControlLocation
  unfolding control_in_item array_item_pointer find_map_from
  item_location binding array_binding array index item =
      find_map_from (control_in_item binding array index (array_item_pointer array_binding index)) 0
        item.controls

  unfoldable pub control_location : Form PointerBuf → Text → Option ControlLocation
  unfolding item_location find_map_from
  control_location form binding =
      elim (position
        (λ (control : ControlState PointerBuf). text_eq (as_str control.definition.binding) binding)
        form.controls) [
          | some index ↦ some (static_control index)
          | none ↦
              find_map_from
                (λ index (array : ArrayState PointerBuf).
                  find_map_from (item_location binding array.definition.binding index) 0
                    array.items)
                0 form.arrays
        ]

module _ {P : Type 0} where
  abbrev control_in :
      List (ControlState P) → List (ArrayState P) → ControlLocation → Option (ControlState P)
  control_in controls arrays (static_control index) = get_elem? controls index
  control_in controls arrays (array_item array item control) =
      and_then (get_elem? arrays array) λ (a : ArrayState P).
        and_then (get_elem? a.items item) λ (i : ArrayItemState P). get_elem? i.controls control

  unfoldable pub control_state : Form P → ControlLocation → Option (ControlState P)
  control_state form location = control_in form.controls form.arrays location

  abbrev set_in_item : ℕ → ControlState P → ArrayItemState P → ArrayItemState P
  set_in_item control state item = record item { controls = set item.controls control state }

  abbrev pub set_in_array : ℕ → ℕ → ControlState P → ArrayState P → ArrayState P
  set_in_array index control state array = elim (get_elem? array.items index) [
    | none ↦ array
    | some item ↦ record array { items = set array.items index (set_in_item control state item) }
  ]

  abbrev controls_with :
      List (ControlState P) → ControlLocation → ControlState P → List (ControlState P)
  controls_with controls (static_control index) state = set controls index state
  controls_with controls (array_item index item control) state = controls

  abbrev pub arrays_with :
      List (ArrayState P) → ControlLocation → ControlState P → List (ArrayState P)
  arrays_with arrays (static_control index) state = arrays
  arrays_with arrays (array_item index item control) state = elim (get_elem? arrays index) [
    | none ↦ arrays
    | some array ↦ set arrays index (set_in_array item control state array)
  ]

  -- the form after a write through `control_state_mut`
  unfoldable pub set_control_state : Form P → ControlLocation → ControlState P → Form P
  set_control_state form location state = record form {
    controls = controls_with form.controls location state;
    arrays = arrays_with form.arrays location state;
  }
