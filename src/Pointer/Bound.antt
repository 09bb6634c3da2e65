-- ===== src/Pointer/Bound.antt =====
-- crates/schemaform/src/engine.rs: the operations on a bound value.
use schemaform.Prelude.{Option, none, some, Bool, and_then, is_some_and}
use schemaform.Json.{Text, Value, Members, object, as_object, is_object, get, insert, remove}
use schemaform.Pointer.{JsonPtr}

infixl 5 ◌>>=◌
abbrev ◌>>=◌ {ℓ κ} : {A : Type ℓ} {B : Type κ} → Option A → (A → Option B) → Option B
◌>>=◌ = and_then

module _ (j : JsonPtr) where
  open j use {PointerBuf, resolve, resolve_mut, split_back}

  unfoldable pub binding_parent_is_object : PointerBuf → Value → Bool
  binding_parent_is_object binding form_data =
      is_some_and
        (and_then (split_back binding) (λ (parent : PointerBuf × Text). resolve parent.0 form_data))
        is_object

  -- `parent.resolve_mut(form_data).as_object_mut()` changed by `change`
  unfoldable pub change_object :
      {A : Type 0} → PointerBuf → Value → (Members → Option (A × Members)) → Option (A × Value)
  change_object parent form_data change = do
    (current, put_back) ← resolve_mut parent form_data
    members ← as_object current
    (a, members') ← change members
    some (a, put_back (object members'))

  -- `Err(())` is `none`; the document is untouched then.
  unfoldable pub set_bound_value : PointerBuf → Value → Value → Option Value
  unfolding change_object
  set_bound_value binding form_data value = elim (resolve_mut binding form_data) [
    | some (_, put_back) ↦ some (put_back value)
    | none ↦ do
      (parent, property) ← split_back binding
      (_, form_data') ←
          change_object parent form_data λ members. some (tt, insert property value members)
      some form_data'
  ]

  -- The value taken, and the document without it.
  unfoldable pub take_bound_value : PointerBuf → Value → Option (Value × Value)
  unfolding change_object
  take_bound_value binding form_data = and_then (split_back binding) λ (p : PointerBuf × Text).
      change_object p.0 form_data
        λ members. and_then (get p.1 members) λ value. some (value, remove p.1 members)
