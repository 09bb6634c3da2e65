-- ===== src/Form/Arrays/Moves.antt =====
-- `move_array_item_up` and `move_array_item_down`: two neighbours change places.
use schemaform.Prelude.{◌⊎◌, none, find}
use schemaform.Form.Arrays.{array_values, bound_at}
use schemaform.Form.Arrays.Steps.{find_placed, find-none, array_values-none}
use schemaform.Prelude.{
  ℕ, zero, suc, ◌<◌, ◌≤◌, ◌≡◌, refl, sym, inl, inr, Bool, not, Option, some, List, [], length, set,
  position, get_elem?, arith, Option-cases, position_lem, get_elem?-lt, swap_total, if◌then◌else◌,
  ◌∙◌,
}
use schemaform.Prelude.Int.{ℤ}
use schemaform.Prelude.Results.{Result, ok, err}
use schemaform.Json.{Text, Value}
use schemaform.Pointer.{JsonPtr}
use schemaform.Form.State.{
  Form, ArrayState, ArrayItemState, EditError, unknown_control, unresolved_control,
  operation_not_allowed, bump,
}
use schemaform.Form.Arrays.{
  MovedArrayItem, ArrayMove, up, down, has_identity, destination_of, equal, move_array_item,
}
use schemaform.Form.Arrays.Aligned.{IsAligned}
use schemaform.Form.Arrays.Steps.{Found, locate, Found-lengths}
use schemaform.Form.Arrays.Contracts.{Contract, Placed, Found-Placed}

-- The two places that an item moves between: up to the one before, down to the one behind.
abbrev pub AreNeighbours : ArrayMove → ℕ → ℕ → ℕ → Type 0
AreNeighbours up k l n = k ≡ suc l
AreNeighbours down k l n = (l ≡ suc k) × (l < n)

-- The item has no neighbour on that side.
abbrev pub IsOutermost : ArrayMove → ℕ → ℕ → Type 0
IsOutermost up k n = k ≡ 0
IsOutermost down k n = n ≤ suc k

destination-AreNeighbours :
    (direction : ArrayMove) (k n : ℕ) {l : ℕ}
    → destination_of direction k n ≡ some l
    → AreNeighbours direction k l n
destination-AreNeighbours up zero n e = ground arith
destination-AreNeighbours up (suc k) n e = ground arith
destination-AreNeighbours down k n e = (ground arith, ground arith)

destination-IsOutermost :
    (direction : ArrayMove) (k n : ℕ)
    → destination_of direction k n ≡ none
    → IsOutermost direction k n
destination-IsOutermost up zero n e = refl
destination-IsOutermost up (suc k) n e = absurd (ground arith)
destination-IsOutermost down k n e = ground arith

destination-lt :
    (direction : ArrayMove) (i n : ℕ) {k : ℕ}
    → i < n
    → destination_of direction i n ≡ some k
    → k < n
destination-lt up zero n h e = ground arith
destination-lt up (suc i) n h e = ground arith
destination-lt down i n h e = ground arith

module _ (j : JsonPtr) (parse_big_int : Text → Option ℤ) where
  open j use {PointerBuf}

  abbrev pub moved :
      Form PointerBuf
      → ℕ
      → ArrayState PointerBuf
      → List (ArrayItemState PointerBuf)
      → Value
      → Bool
      → Form PointerBuf
  moved form i array items form_data data_changed = record form {
    arrays = set form.arrays i (record array { items = items });
    form_data = form_data;
    external_finding_batches = if data_changed then [] else form.external_finding_batches;
    data_revision = if data_changed then bump form.data_revision else form.data_revision;
    state_revision = bump form.state_revision;
  }

  -- why an item cannot be moved
  abbrev pub CannotMove : Form PointerBuf → Text → ℕ → ArrayMove → EditError → Type 0
  CannotMove form binding identity direction e =
      ((e ≡ unknown_control binding) × (find (bound_at j binding) form.arrays ≡ none))
      ⊎ ((array : ArrayState PointerBuf) × (find (bound_at j binding) form.arrays ≡ some array)
          × (((e ≡ unknown_control binding)
                × (position (has_identity j identity) array.items ≡ none))
              ⊎ ((k : ℕ) × (position (has_identity j identity) array.items ≡ some k)
                  × (((e ≡ operation_not_allowed binding)
                        × IsOutermost direction k (length array.items))
                      ⊎ ((e ≡ unresolved_control binding)
                          × (array_values j array.definition.binding form.form_data ≡ none))))))

  pub move_cases {ℓ} :
      (Q : Result EditError MovedArrayItem × Form PointerBuf → Type ℓ) (form : Form PointerBuf)
      (binding : Text) (identity : ℕ) (direction : ArrayMove)
      → IsAligned j form.arrays form.form_data
      → ((e : EditError) → CannotMove form binding identity direction e → Q (err e, form))
      → ((i : ℕ) (array : ArrayState PointerBuf) (values : List Value)
            (put_back : List Value → Value) (k l : ℕ) (a b : Value)
            (x y : ArrayItemState PointerBuf)
          → Found j form binding i array values put_back
          → position (has_identity j identity) array.items ≡ some k
          → destination_of direction k (length array.items) ≡ some l
          → get_elem? values k ≡ some a
          → get_elem? values l ≡ some b
          → get_elem? array.items k ≡ some x
          → get_elem? array.items l ≡ some y
          → length (set (set array.items k y) l x) ≡ length (set (set values k b) l a)
          → Q (
            ok (record {
              identity = identity;
              displaced = y.identity;
              origin = k;
              target = l;
              data_changed = not (equal j parse_big_int a b);
            }),
            moved form i array
                (set (set array.items k y) l x)
                (put_back (set (set values k b) l a))
                (not (equal j parse_big_int a b)),
          ))
      → Q (move_array_item j parse_big_int binding identity direction form)
  unfolding move_array_item
  move_cases Q form binding identity direction aligned fails done = elim (locate j form binding) [
    | inl e ↦
        rw e (
          fails (unknown_control binding)
            (inl (refl, find-none (bound_at j binding) form.arrays e)))
    | inr (inl (i, array, e, taken, e')) ↦
        elim (Option-cases (position (has_identity j identity) array.items)) [
          | inl lost ↦
              rw (e, taken, lost)
                (fails (unknown_control binding) (
                  inr (
                    array,
                    find_placed (bound_at j binding) form.arrays i array e taken,
                    inl (refl, lost),
                  )))
          | inr (k, at) ↦ elim (Option-cases (destination_of direction k (length array.items))) [
            | inl stays ↦
                rw (e, taken, at, stays)
                  (fails (operation_not_allowed binding) (
                    inr (
                      array,
                      find_placed (bound_at j binding) form.arrays i array e taken,
                      inr (
                        k,
                        at,
                        inl (refl, destination-IsOutermost direction k (length array.items) stays),
                      ),
                    )))
            | inr (l, goes) ↦
                rw (e, taken, at, goes, e')
                  (fails (unresolved_control binding) (
                    inr (
                      array,
                      find_placed (bound_at j binding) form.arrays i array e taken,
                      inr (
                        k,
                        at,
                        inr (refl, array_values-none j array.definition.binding form.form_data e'),
                      ),
                    )))
          ]
        ]
    | inr (inr (i, array, values, put_back, f)) ↦
        elim (Option-cases (position (has_identity j identity) array.items)) [
          | inl lost ↦
              rw (f.placed, f.taken, lost)
                (fails (unknown_control binding) (
                  inr (
                    array,
                    find_placed (bound_at j binding) form.arrays i array f.placed f.taken,
                    inl (refl, lost),
                  )))
          | inr (k, at) ↦ elim (Option-cases (destination_of direction k (length array.items))) [
            | inl stays ↦
                rw (f.placed, f.taken, at, stays)
                  (fails (operation_not_allowed binding) (
                    inr (
                      array,
                      find_placed (bound_at j binding) form.arrays i array f.placed f.taken,
                      inr (
                        k,
                        at,
                        inl (refl, destination-IsOutermost direction k (length array.items) stays),
                      ),
                    )))
            | inr (l, goes) ↦
                let same = Found-lengths j form binding i array values put_back f aligned in
                let (item, there, _) = position_lem (has_identity j identity) array.items k at in
                let within = get_elem?-lt array.items k there in
                let within' = destination-lt direction k (length array.items) within goes in
                let (x, y, tx, ty, made, n) = swap_total k l array.items within within' in
                let (a, b, ta, tb, made', n') = swap_total k l values (omega arith) (omega arith) in
                rw (f.placed, f.taken, at, goes, f.referenced, ta, tb, ty, tx)
                  (done i array values put_back k l a b x y f at goes ta tb tx ty
                    (n ∙ same ∙ sym n'))
          ]
        ]
  ]

  abbrev pub Moves :
      Form PointerBuf → Text → ℕ → ArrayMove → MovedArrayItem → Form PointerBuf → Type 0
  Moves form binding identity direction result form' =
      (array : ArrayState PointerBuf) × (values : List Value) × (a b : Value) × (x
        y : ArrayItemState PointerBuf)
      × (k l : ℕ) × Placed j form form' binding array values (set (set array.items k y) l x)
          (set (set values k b) l a)
      × (position (has_identity j identity) array.items ≡ some k)
      × AreNeighbours direction k l (length array.items)
      × (get_elem? array.items k ≡ some x)
      × (get_elem? array.items l ≡ some y)
      × (get_elem? values k ≡ some a)
      × (get_elem? values l ≡ some b)
      × (result ≡ record {
        identity = identity;
        displaced = y.identity;
        origin = k;
        target = l;
        data_changed = not (equal j parse_big_int a b);
      })
      × (form'.data_revision
          ≡ (if result.data_changed then bump form.data_revision else form.data_revision))
      × (form'.external_finding_batches
          ≡ (if result.data_changed then [] else form.external_finding_batches))
      × (form'.state_revision ≡ bump form.state_revision)
      × (form'.next_item_identity ≡ form.next_item_identity)

  -- On a form whose items are as many as its values, a move up or down never panics. An error
  -- says that there is no such array, no such item, no neighbour on that side or no such data, and
  -- leaves the form as it was. A success exchanges the item named with its neighbour on that side,
  -- up with the one just before it and down with the one just behind it, and the two values with
  -- them, and changes no binding beside the array. The data revision moves on and
  -- the external findings go exactly if the two values differ; the state revision always moves on.
  pub move_array_item-Contract :
      (form : Form PointerBuf) (binding : Text) (identity : ℕ) (direction : ArrayMove)
      → IsAligned j form.arrays form.form_data
      → Contract j form
          (CannotMove form binding identity direction)
          (Moves form binding identity direction)
          (move_array_item j parse_big_int binding identity direction form)
  move_array_item-Contract form binding identity direction aligned =
      move_cases
        (Contract j form (CannotMove form binding identity direction)
          (Moves form binding identity direction))
        form binding identity direction aligned (λ e why. (why, refl))
        λ i array values put_back k l a b x y f at goes ta tb tx ty same. (
          array,
          values,
          a,
          b,
          x,
          y,
          k,
          l,
          Found-Placed j form binding i array values put_back f _ _ _ refl refl,
          at,
          destination-AreNeighbours direction k (length array.items) goes,
          tx,
          ty,
          ta,
          tb,
          refl,
          refl,
          refl,
          refl,
          refl,
        )
