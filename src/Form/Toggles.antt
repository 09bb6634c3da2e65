-- ===== src/Form/Toggles.antt =====
-- crates/schemaform/src/engine.rs: `toggle_array_choice`, a choice put into a multiple choice or taken
-- out of it.
pub mod Arranged
pub mod Removals
pub mod Members
pub mod Contracts
use mathlib.Core.Option
use mathlib.Core.List.{reverse}
use schemaform.Prelude.{
  ℕ, suc, ◌+◌, Bool, ◌&&◌, Option, some, List, [], ◌∷◌, length, find, position, get_elem?,
  insert_at, remove_at, drop, and_then, map_or, is_some, is_some_and, ltb, if◌then◌else◌,
}
use schemaform.Json.{Text, Value, as_array, array_of, is_array}
use schemaform.Pointer.{JsonPtr}
use schemaform.Pointer.Bound.{binding_parent_is_object, set_bound_value}
use schemaform.Form.Definition.{CompiledChoice, is_multiple_choice, choices}
use schemaform.Form.State.{
  Form, ArrayState, ArrayItemState, EditError, unknown_control, unresolved_control,
  operation_not_allowed, M, ◌>>=◌, ◌>>◌, return, current, leave, require, or_fail, or_panic, bump,
  new_item, identities,
}
use schemaform.Form.Parsing.{Parsers, equal}
use schemaform.Form.Arrays.{InsertedArrayItem, bound_at, array_values_mut, with_array}

pub data ToggledArrayChoice : Type 0 where
  included : InsertedArrayItem → ToggledArrayChoice
  excluded : (removed shifted : List ℕ) → ToggledArrayChoice

-- the indices from `i` on of the entries that pass
abbrev pub positions {ℓ} : {A : Type ℓ} → (A → Bool) → ℕ → List A → List ℕ
positions p i [] = []
positions p i (x ∷ xs) = let rest = positions p (suc i) xs in if p x then i ∷ rest else rest

-- Each index removed from the values and from the items, in the order given, and the identities of
-- the items removed.
abbrev pub remove_each :
    {P : Type 0}
    → List ℕ
    → List Value
    → List (ArrayItemState P)
    → Option (List Value × List (ArrayItemState P) × List ℕ)
remove_each [] values items = some (values, items, [])
remove_each (i ∷ indices) values items = and_then (remove_at i values) λ v.
    and_then (remove_at i items) λ r.
      Option.map (λ rest. (rest.0, rest.1, r.0.identity ∷ rest.2)) (remove_each indices v.1 r.1)

module _ (j : JsonPtr) (parsers : Parsers) where
  open j use {PointerBuf, resolve}

  unfoldable pub array_can_toggle_choice : Form PointerBuf → Text → Bool
  array_can_toggle_choice form binding =
      is_some_and (find (bound_at j binding) form.arrays) λ array.
        is_multiple_choice array.definition
        && map_or (resolve array.definition.binding form.form_data)
            (binding_parent_is_object j array.definition.binding form.form_data) is_array

  abbrev pub option_position : List CompiledChoice → Value → Option ℕ
  option_position options member = position (λ choice. equal parsers choice.value member) options

  -- the place of the first member whose option is later, or the end
  abbrev pub place_of : List CompiledChoice → ℕ → List Value → ℕ
  place_of options option_index members =
      map_or
        (position
          (λ member. is_some_and (option_position options member) (λ later. ltb option_index later))
          members)
        (length members) (λ i. i)

  abbrev include : ℕ → ArrayState PointerBuf → ℕ → Value → M EditError PointerBuf ToggledArrayChoice
  include array_index array index value = do
    form ← current
    (values, put_back) ← or_panic (array_values_mut j array.definition.binding form.form_data)
    values' ← or_panic (insert_at index value values)
    let identity = form.next_item_identity
    items ← or_panic (insert_at index (new_item identity array.definition) array.items)
    leave (record (with_array j form array_index array items (put_back values')) {
      next_item_identity = bump form.next_item_identity;
    })
    return
        (included (record { identity = identity; shifted = identities (drop (index + 1) items) }))

  abbrev exclude :
      ℕ → ArrayState PointerBuf → ℕ → List ℕ → M EditError PointerBuf ToggledArrayChoice
  exclude array_index array first carrying = do
    form ← current
    (values, put_back) ← or_panic (array_values_mut j array.definition.binding form.form_data)
    (values', items, removed) ← or_panic (remove_each (reverse carrying) values array.items)
    leave (with_array j form array_index array items (put_back values'))
    return (excluded (reverse removed) (identities (drop first items)))

  abbrev pub toggled :
      ℕ → ArrayState PointerBuf → ℕ → Value → List ℕ → M EditError PointerBuf ToggledArrayChoice
  toggled array_index array place value [] = include array_index array place value
  toggled array_index array place value (first ∷ rest) =
      exclude array_index array first (first ∷ rest)

  unfoldable pub toggle_array_choice : Text → Value → M EditError PointerBuf ToggledArrayChoice
  unfolding array_can_toggle_choice
  toggle_array_choice binding value = do
    form ← current
    require (array_can_toggle_choice form binding) (operation_not_allowed binding)
    array_index ← or_fail (position (bound_at j binding) form.arrays) (unknown_control binding)
    array ← or_panic (get_elem? form.arrays array_index)
    let options = choices array.definition
    option_index ← or_fail (option_position options value) (operation_not_allowed binding)
    choice ← or_panic (get_elem? options option_index)
    let now = resolve array.definition.binding form.form_data
    let members = map_or (and_then now as_array) [] (λ values. values)
    let carrying = positions (λ member. equal parsers member choice.value) 0 members
    form_data ←
        or_fail
          (if is_some now
            then some form.form_data
            else set_bound_value j array.definition.binding form.form_data (array_of []))
          (unresolved_control binding)
    leave (record form { form_data = form_data })
    _ ← or_fail (array_values_mut j array.definition.binding form_data) (unresolved_control binding)
    toggled array_index array (place_of options option_index members) choice.value carrying
