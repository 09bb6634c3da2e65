-- ===== src/Form/Toggles/Contracts.antt =====
-- What `toggle_array_choice` does on every branch.
use mathlib.Core.List.{reverse, reverse-reverse}
use schemaform.Prelude.{
  ℕ, ◌+◌, ◌≤◌, ◌≡◌, refl, ap, sym, ◌∙◌, ◌⊎◌, inl, inr, Bool, false, not, none, some, List, [], ◌∷◌,
  length, find, position, get_elem?, insert_at, drop, keep_if, is_some_and, ltb, arith, Bool-cases,
  Option-cases, position_lem, get_elem?-lt, insert_at_total,
}
use schemaform.Prelude.Results.{Result, ok}
use schemaform.Json.{Text, Value, array_of}
use schemaform.Pointer.{JsonPtr}
use schemaform.Pointer.Bound.{set_bound_value}
use schemaform.Form.Definition.{CompiledChoice, choices}
use schemaform.Form.State.{
  Form, ArrayState, ArrayItemState, EditError, unresolved_control, operation_not_allowed, bump,
  new_item, identities,
}
use schemaform.Form.Parsing.{Parsers, equal}
use schemaform.Form.Arrays.{bound_at}
use schemaform.Form.Arrays.Steps.{Found, Found-lengths, find_placed, find-none}
use schemaform.Form.Arrays.Contracts.{Contract, Placed, Outdates, Found-Placed}
use schemaform.Form.Arrays.Invariant.{IsArranged}
use schemaform.Form.Toggles.{
  ToggledArrayChoice, included, excluded, positions, remove_each, option_position, place_of,
  toggled, array_can_toggle_choice, toggle_array_choice,
}
use schemaform.Form.Toggles.Removals.{picked, unpicked, remove_each-positions}
use schemaform.Form.Toggles.Arranged.{present, present-IsArranged}
use schemaform.Form.Toggles.Members.{Prepares, prepared, positions-none, positions-some}

module _ (j : JsonPtr) (parsers : Parsers) where
  open j use {PointerBuf, resolve}

  abbrev is_later : List CompiledChoice → ℕ → Value → Bool
  is_later options k member =
      is_some_and (option_position j parsers options member) (λ later. ltb k later)

  -- before the first member of a later option, or at the end
  abbrev Places : List CompiledChoice → ℕ → List Value → ℕ → Type 0
  Places options k values place =
      (position (is_later options k) values ≡ some place)
      ⊎ ((position (is_later options k) values ≡ none) × (place ≡ length values))

  place_of-Places :
      (options : List CompiledChoice) (k : ℕ) (values : List Value)
      → Places options k values (place_of j parsers options k values)
        × (place_of j parsers options k values ≤ length values)
  place_of-Places options k values = elim (Option-cases (position (is_later options k) values)) [
    | inl e ↦ (inr (e, rw e refl), rw e (omega arith))
    | inr (place, e) ↦
        let (v, there, _) = position_lem (is_later options k) values place e in
        let within = get_elem?-lt values place there in (inl (rw e refl), rw e (omega arith))
  ]

  -- By whether a member is equal to the choice: the choice is put in, with an item under the next
  -- identity, or all members that are equal go, and their items with them.
  abbrev pub Does :
      Form PointerBuf
      → Form PointerBuf
      → Text
      → ArrayState PointerBuf
      → ℕ
      → Value
      → List Value
      → ToggledArrayChoice
      → Type 0
  Does form form' binding a k choice values (included result) =
      (position (λ m. equal parsers m choice) values ≡ none)
      × (place : ℕ) × (values' : List Value) × (items : List (ArrayItemState PointerBuf)) × Places
          (choices a.definition) k values place
      × (insert_at place choice values ≡ some values')
      × (insert_at place (new_item form.next_item_identity a.definition) a.items ≡ some items)
      × Placed j form form' binding a values items values'
      × (result.identity ≡ form.next_item_identity)
      × (result.shifted ≡ identities (drop (place + 1) items))
      × (form'.next_item_identity ≡ bump form.next_item_identity)
  Does form form' binding a k choice values (excluded removed shifted) =
      (first : ℕ) × (position (λ m. equal parsers m choice) values ≡ some first)
      × Placed j form form' binding a values (unpicked (λ m. equal parsers m choice) values a.items)
          (keep_if (λ m. not (equal parsers m choice)) values)
      × (removed ≡ identities (picked (λ m. equal parsers m choice) values a.items))
      × (shifted ≡ identities (drop first (unpicked (λ m. equal parsers m choice) values a.items)))
      × (form'.next_item_identity ≡ form.next_item_identity)

  abbrev pub Toggles :
      Form PointerBuf → Text → Value → ToggledArrayChoice → Form PointerBuf → Type 0
  Toggles form binding value result form' =
      (a : ArrayState PointerBuf) × (k : ℕ) × (choice : CompiledChoice) × (d : Value)
      × (values : List Value) × (option_position j parsers (choices a.definition) value ≡ some k)
      × (get_elem? (choices a.definition) k ≡ some choice)
      × Prepares j parsers form a d values
      × Does (record form { form_data = d }) form' binding a k choice.value values result
      × Outdates j form form'

  -- why a choice cannot be toggled
  abbrev pub CannotToggle : Form PointerBuf → Text → Value → EditError → Type 0
  CannotToggle form binding value e =
      ((e ≡ operation_not_allowed binding)
        × (array_can_toggle_choice j parsers form binding ≡ false))
      ⊎ ((a : ArrayState PointerBuf) × (find (bound_at j binding) form.arrays ≡ some a)
          × (((e ≡ operation_not_allowed binding)
                × (option_position j parsers (choices a.definition) value ≡ none))
              ⊎ ((e ≡ unresolved_control binding)
                  × (resolve a.definition.binding form.form_data ≡ none)
                  × (set_bound_value j a.definition.binding form.form_data (array_of []) ≡ none))))

  -- The members are at hand: the toggle does its part.
  module _ (form : Form PointerBuf) (binding : Text) (i : ℕ) (a : ArrayState PointerBuf)
      (values : List Value) (put_back : List Value → Value)
      (f : Found j form binding i a values put_back) (v : IsArranged j form) (k : ℕ)
      (choice : Value) where
    Did : Result EditError ToggledArrayChoice × Form PointerBuf → Type 0
    Did r =
        (result : ToggledArrayChoice) × (form' : Form PointerBuf) × (r ≡ (ok result, form'))
        × Does form form' binding a k choice values result
        × Outdates j form form'

    toggled-Does :
        (carrying : List ℕ)
        → positions (λ m. equal parsers m choice) 0 values ≡ carrying
        → Did (
            toggled j parsers i a
              (place_of j parsers (choices a.definition) k values)
              choice
              carrying
              form)
    unfolding Did
    toggled-Does [] none_such =
        let place = place_of j parsers (choices a.definition) k values in
        let same = Found-lengths j form binding i a values put_back f v.aligned in
        let (places, within) = place_of-Places (choices a.definition) k values in
        let (values', made, n) = insert_at_total place choice values within in
        let (items, made', n') =
          insert_at_total place (new_item form.next_item_identity a.definition) a.items
            (omega (arith, same, within)) in
        rw (f.referenced, made, made')
          (
            _,
            _,
            refl,
            (
              positions-none (λ m. equal parsers m choice) 0 values none_such,
              place,
              values',
              items,
              places,
              made,
              made',
              Found-Placed j form binding i a values put_back f _ _ _ refl refl,
              refl,
              refl,
              refl,
            ),
            record { cleared = refl; data_moved = refl; state_moved = refl },
          )
    toggled-Does (first ∷ rest) carrying =
        let same = Found-lengths j form binding i a values put_back f v.aligned in
        let (n, at, first_is) =
          positions-some (λ m. equal parsers m choice) 0 first values rest carrying in
        let e : first ≡ n = omega (arith, first_is) in
        let removal =
          ap (λ l. remove_each (reverse l) values a.items) (sym carrying)
          ∙ remove_each-positions (λ m. equal parsers m choice) values a.items same in
        rw (f.referenced, removal)
          (
            _,
            _,
            refl,
            (
              first,
              at ∙ ap some (sym e),
              Found-Placed j form binding i a values put_back f _ _ _ refl refl,
              reverse-reverse (identities (picked (λ m. equal parsers m choice) values a.items)),
              refl,
              refl,
            ),
            record { cleared = refl; data_moved = refl; state_moved = refl },
          )

  -- On an arranged form a toggle never panics. An error leaves the form as it was: the array cannot
  -- be toggled, the value is none of its options, or the absent array cannot be bound. A success is
  -- at the first option that is equal to the value. Where no member equals the option, which is
  -- bound with an empty array first where the array is absent, it goes before the first member of a
  -- later option, or to the end, with an item under the next identity, and the items behind it are
  -- reported. Otherwise every member that equals the option goes and the item at its place with it,
  -- the identities of these and of the items from the first of these places on are reported, and no
  -- identity is given out. The external findings are dropped and both revisions move on.
  pub toggle_array_choice-Contract :
      (form : Form PointerBuf) (binding : Text) (value : Value)
      → IsArranged j form
      → Contract j form
          (CannotToggle form binding value)
          (Toggles form binding value)
          (toggle_array_choice j parsers binding value form)
  unfolding toggle_array_choice Did
  toggle_array_choice-Contract form binding value v =
      elim (Bool-cases (array_can_toggle_choice j parsers form binding)) [
        | inr denied ↦ rw denied (inl (refl, denied), refl)
        | inl can ↦ elim (Option-cases (position (bound_at j binding) form.arrays)) [
          | inl e ↦ absurd (
              let nowhere = find-none (bound_at j binding) form.arrays e in
              unfold array_can_toggle_choice in ground (arith, nowhere, can))
          | inr (i, e) ↦
              let (a, taken, matches) = position_lem (bound_at j binding) form.arrays i e in
              let found = find_placed (bound_at j binding) form.arrays i a e taken in
              elim (Option-cases (option_position j parsers (choices a.definition) value)) [
                | inl none_such ↦
                    rw (can, e, taken, none_such) (inr (a, found, inl (refl, none_such)), refl)
                | inr (k, e') ↦
                    let (choice, is, _) = position_lem _ (choices a.definition) k e' in
                    elim (Option-cases (present j parsers form a)) [
                      | inl lost ↦
                          elim (Option-cases (resolve a.definition.binding form.form_data)) [
                            | inr (now, there) ↦ absurd (ground (arith, there, lost))
                            | inl absent ↦
                                rw (can, e, taken, e', is, lost)
                                  (
                                    inr (
                                      a,
                                      found,
                                      inr (refl, absent, ground (arith, absent, lost)),
                                    ),
                                    refl,
                                  )
                          ]
                      | inr (d, made) ↦
                          let v' = present-IsArranged j parsers form i a d taken made v in
                          let (values, put_back, e'', prepares, same) =
                            prepared j parsers form binding i a d found can made in
                          let (result, form', done, does, outdates) =
                            toggled-Does (record form { form_data = d }) binding i a values put_back
                              (record {
                                placed = e;
                                taken = taken;
                                matches = matches;
                                referenced = e'';
                              })
                              v' k choice.value _ refl in
                          rw (can, e, taken, e', is, made, e'', same, done)
                            (
                              a,
                              k,
                              choice,
                              d,
                              values,
                              e',
                              is,
                              prepares,
                              does,
                              record {
                                cleared = outdates.cleared;
                                data_moved = outdates.data_moved;
                                state_moved = outdates.state_moved;
                              },
                            )
                    ]
              ]
        ]
      ]
