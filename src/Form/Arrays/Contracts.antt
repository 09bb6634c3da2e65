-- ===== src/Form/Arrays/Contracts.antt =====
-- What `append_array_item`, `insert_array_item_before` and `remove_array_item` do on every branch.
use schemaform.Prelude.{
  ℕ, zero, suc, ◌+◌, ◌≡◌, refl, Bool, true, some, List, [], ◌∷◌, set, find, position, insert_at,
  remove_at, push, drop, arith, Bool-cases, inl, inr,
}
use schemaform.Prelude.Results.{Result, ok, err, panic}
use schemaform.Json.{Text, Value}
use schemaform.Json.Laws.{as_array-array_of}
use schemaform.Pointer.{JsonPtr}
use schemaform.Form.State.{
  Form, ArrayState, ArrayItemState, EditError, unknown_control, operation_not_allowed, bump,
  new_item, identities,
}
use schemaform.Form.Arrays.{
  InsertedArrayItem, RemovedArrayItem, bound_at, array_values, append_array_item,
  insert_array_item_before, remove_array_item, has_identity,
}
use schemaform.Form.Arrays.Aligned.{IsAligned, AgreesAway, Referent, array_values_mut-Referent}
use schemaform.Form.Arrays.Steps.{Found, find_placed, append_cases, insert_cases, remove_cases}
use schemaform.Prelude.{◌⊎◌, none, inl, false, true}
use schemaform.Form.Arrays.{array_can_append, array_can_remove}

module _ {ℓ} {A : Type ℓ} where
  pub find-set_placed :
      (p : A → Bool) (xs : List A) (i : ℕ) (x : A)
      → position p xs ≡ some i
      → p x ≡ true
      → find p (set xs i x) ≡ some x
  find-set_placed p [] i x h e = ground arith
  find-set_placed p (y ∷ xs) zero x h e = ground arith
  find-set_placed p (y ∷ xs) (suc i) x h e = elim (Bool-cases (p y)) [
    | inl yes' ↦ absurd (ground (arith, yes'))
    | inr no' ↦ ground (arith, no', find-set_placed p xs i x)
  ]

module _ (j : JsonPtr) where
  open j use {PointerBuf}

  -- The array at `binding` had the state `array` and the values `values`; it has the items `items`
  -- and the values `values'` after the call. Every binding beside it is as it was.
  pub record Placed (form form' : Form PointerBuf) (binding : Text) (array : ArrayState PointerBuf)
      (values : List Value) (items : List (ArrayItemState PointerBuf)) (values' : List Value)
      : Type 0 where
    pub had : find (bound_at j binding) form.arrays ≡ some array
    pub held : array_values j array.definition.binding form.form_data ≡ some values
    pub has : find (bound_at j binding) form'.arrays ≡ some (record array { items = items })
    pub holds : array_values j array.definition.binding form'.form_data ≡ some values'
    pub beside : AgreesAway j array.definition.binding form'.form_data form.form_data

  -- The external findings are gone, and both revisions have moved on.
  pub record Outdates (form form' : Form PointerBuf) : Type 0 where
    pub cleared : form'.external_finding_batches ≡ []
    pub data_moved : form'.data_revision ≡ bump form.data_revision
    pub state_moved : form'.state_revision ≡ bump form.state_revision

  -- An error has the reason `F` and leaves the form as it was, and no call panics.
  abbrev pub Contract :
      {A : Type 0}
      → Form PointerBuf
      → (EditError → Type 0)
      → (A → Form PointerBuf → Type 0)
      → Result EditError A × Form PointerBuf
      → Type 0
  Contract form F P (ok a, form') = P a form'
  Contract form F P (err e, form') = F e × (form' ≡ form)
  Contract form F P (panic, form') = ⊥

  -- why an item cannot be appended
  abbrev pub Full : Form PointerBuf → Text → EditError → Type 0
  Full form binding e =
      (e ≡ operation_not_allowed binding) × (array_can_append j form binding ≡ false)

  -- The array at `binding` has no item of that identity.
  abbrev Lacks : Form PointerBuf → Text → ℕ → EditError → Type 0
  Lacks form binding identity e =
      (e ≡ unknown_control binding)
      × ((array : ArrayState PointerBuf) × (find (bound_at j binding) form.arrays ≡ some array)
          × (position (has_identity j identity) array.items ≡ none))

  abbrev pub Appends : Form PointerBuf → Text → ℕ → Form PointerBuf → Type 0
  Appends form binding identity form' =
      (array_can_append j form binding ≡ true)
      × (array : ArrayState PointerBuf) × (values : List Value) × Placed form form' binding array
          values (push array.items (new_item identity array.definition))
          (push values array.definition.item_template.creation_seed)
      × Outdates form form'
      × (identity ≡ form.next_item_identity)
      × (form'.next_item_identity ≡ bump form.next_item_identity)

  written_values :
      (p : PointerBuf) (d : Value) (values vs : List Value) (put_back : List Value → Value)
      → Referent j p d values put_back
      → array_values j p (put_back vs) ≡ some vs
  written_values p d values vs put_back r = rw (r.written vs) (as_array-array_of vs)

  module _ (form : Form PointerBuf) (binding : Text) (i : ℕ) (array : ArrayState PointerBuf)
      (values : List Value) (put_back : List Value → Value)
      (f : Found j form binding i array values put_back) where
    referent : Referent j array.definition.binding form.form_data values put_back
    referent =
        array_values_mut-Referent j array.definition.binding form.form_data values put_back
          f.referenced

    pub Found-Placed :
        (form' : Form PointerBuf) (items : List (ArrayItemState PointerBuf)) (values' : List Value)
        → form'.arrays ≡ set form.arrays i (record array { items = items })
        → form'.form_data ≡ put_back values'
        → Placed form form' binding array values items values'
    Found-Placed form' items values' arrays stored = record {
      had = find_placed (bound_at j binding) form.arrays i array f.placed f.taken;
      held = referent.present;
      has = rw arrays (
          find-set_placed (bound_at j binding) form.arrays i (record array { items = items })
            f.placed f.matches);
      holds =
          rw stored (
            written_values array.definition.binding form.form_data values values' put_back
              referent);
      beside = rw stored (referent.away values');
    }

  -- A call of `append_array_item` never panics. An error says that the array cannot be appended to
  -- and leaves the form as it was. A success is at an array that can be appended to: it
  -- appends the creation seed to the values of the array and one item to its items, under the next
  -- identity, changes no binding beside the array, drops the external findings and moves both
  -- revisions on.
  pub append_array_item-Contract :
      (form : Form PointerBuf) (binding : Text)
      → Contract form (Full form binding) (Appends form binding) (append_array_item j binding form)
  append_array_item-Contract form binding =
      append_cases j (Contract form (Full form binding) (Appends form binding)) form binding
        (λ full. ((refl, full), refl))
        λ i array values put_back room f. (
          room,
          array,
          values,
          Found-Placed form binding i array values put_back f _ _ _ refl refl,
          (record { cleared = refl; data_moved = refl; state_moved = refl }),
          refl,
          refl,
        )

  abbrev pub CannotInsert : Form PointerBuf → Text → ℕ → EditError → Type 0
  CannotInsert form binding before e = Full form binding e ⊎ Lacks form binding before e

  abbrev pub Inserts : Form PointerBuf → Text → ℕ → InsertedArrayItem → Form PointerBuf → Type 0
  Inserts form binding before inserted form' =
      (array_can_append j form binding ≡ true)
      × (array : ArrayState PointerBuf) × (values values' : List Value) × (items : List
          (ArrayItemState PointerBuf))
      × (k : ℕ) × Placed form form' binding array values items values'
      × Outdates form form'
      × (position (has_identity j before) array.items ≡ some k)
      × (insert_at k (new_item inserted.identity array.definition) array.items ≡ some items)
      × (insert_at k array.definition.item_template.creation_seed values ≡ some values')
      × (inserted.identity ≡ form.next_item_identity)
      × (inserted.shifted ≡ identities (drop (k + 1) items))
      × (form'.next_item_identity ≡ bump form.next_item_identity)

  -- On a form whose items are as many as its values, `insert_array_item_before` never panics. An
  -- error says that the array cannot be appended to, or lacks the item named, and leaves the form as
  -- it was. A success is at an array that can be appended to: it puts the creation seed among the values, and one
  -- item under the next identity among the items, both at the place of the item named, reports the
  -- items behind the new one, changes no binding beside the array, drops the external findings and
  -- moves both revisions on.
  pub insert_array_item_before-Contract :
      (form : Form PointerBuf) (binding : Text) (before : ℕ)
      → IsAligned j form.arrays form.form_data
      → Contract form
          (CannotInsert form binding before)
          (Inserts form binding before)
          (insert_array_item_before j binding before form)
  insert_array_item_before-Contract form binding before aligned =
      insert_cases j
        (Contract form (CannotInsert form binding before) (Inserts form binding before)) form
        binding before aligned (λ full. (inl (refl, full), refl))
        (λ array there lost. (inr (refl, (array, there, lost)), refl))
        λ i array values put_back k values' items room f at made made' same. (
          room,
          array,
          values,
          values',
          items,
          k,
          Found-Placed form binding i array values put_back f _ items values' refl refl,
          (record { cleared = refl; data_moved = refl; state_moved = refl }),
          at,
          made',
          made,
          refl,
          refl,
          refl,
        )

  abbrev pub CannotRemove : Form PointerBuf → Text → ℕ → EditError → Type 0
  CannotRemove form binding identity e =
      ((e ≡ operation_not_allowed binding) × (array_can_remove j form binding ≡ false))
      ⊎ Lacks form binding identity e

  abbrev pub Removes : Form PointerBuf → Text → ℕ → RemovedArrayItem → Form PointerBuf → Type 0
  Removes form binding identity removed form' =
      (array_can_remove j form binding ≡ true)
      × (array : ArrayState PointerBuf) × (values values' : List Value) × (items : List
          (ArrayItemState PointerBuf))
      × (k : ℕ) × (value : Value) × (item : ArrayItemState PointerBuf) × Placed form form' binding
          array values items values'
      × Outdates form form'
      × (position (has_identity j identity) array.items ≡ some k)
      × (remove_at k array.items ≡ some (item, items))
      × (remove_at k values ≡ some (value, values'))
      × (removed.identity ≡ identity)
      × (removed.shifted ≡ identities (drop (k + 1) array.items))
      × (form'.next_item_identity ≡ form.next_item_identity)

  -- On a form whose items are as many as its values, `remove_array_item` never panics. An error
  -- says that no item can be removed, or the one named is not there, and leaves the form as it was. A
  -- success is at an array whose items can be removed: it takes the item named out of the items and the value at its
  -- place out of the values, reports the items that stood behind it, changes no binding beside the
  -- array, drops the external findings and moves both revisions on; it gives out no identity.
  pub remove_array_item-Contract :
      (form : Form PointerBuf) (binding : Text) (identity : ℕ)
      → IsAligned j form.arrays form.form_data
      → Contract form
          (CannotRemove form binding identity)
          (Removes form binding identity)
          (remove_array_item j binding identity form)
  remove_array_item-Contract form binding identity aligned =
      remove_cases j
        (Contract form (CannotRemove form binding identity) (Removes form binding identity)) form
        binding identity aligned (λ full. (inl (refl, full), refl))
        (λ array there lost. (inr (refl, (array, there, lost)), refl))
        λ i array values put_back k value values' item items spare f at made made' same. (
          spare,
          array,
          values,
          values',
          items,
          k,
          value,
          item,
          Found-Placed form binding i array values put_back f _ items values' refl refl,
          (record { cleared = refl; data_moved = refl; state_moved = refl }),
          at,
          made',
          made,
          refl,
          refl,
          refl,
        )
