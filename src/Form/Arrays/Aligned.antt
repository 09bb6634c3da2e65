-- ===== src/Form/Arrays/Aligned.antt =====
-- The items of each array of a form are as many as the values at the array's binding.
use schemaform.Prelude.{
  ℕ, zero, suc, ◌≡◌, sym, ap, ◌∙◌, false, some, List, [], ◌∷◌, length, set, get_elem?, arith,
  Option-cases, inl, inr, map_or,
}
use schemaform.Json.{Value, as_array, array_of}
use schemaform.Json.Laws.{as_array-array_of}
use schemaform.Pointer.{JsonPtr}
use schemaform.Pointer.Walk.{walk, store}
use schemaform.Pointer.Frame.{count}
use schemaform.Pointer.Laws.{walk-store_self, walk-store_apart, item_count}
use schemaform.Form.State.{ArrayState}
use schemaform.Form.Arrays.{array_values, array_values_mut}

module _ (j : JsonPtr) where
  open j use {PointerBuf, starts_with, resolve, resolve_mut, tokens, to_index}

  abbrev pub IsAligned : List (ArrayState PointerBuf) → Value → Type 0
  IsAligned [] d = Unit {0}
  IsAligned (a ∷ arrays) d = (length a.items ≡ count j a.definition.binding d) × IsAligned arrays d

  abbrev pub Parts : PointerBuf → PointerBuf → Type 0
  Parts p q = (starts_with p q ≡ false) × (starts_with q p ≡ false)

  abbrev pub PartsAll : PointerBuf → List (ArrayState PointerBuf) → Type 0
  PartsAll p [] = Unit {0}
  PartsAll p (a ∷ arrays) = Parts p a.definition.binding × PartsAll p arrays

  -- No array of the form is at or below another.
  abbrev pub IsFlat : List (ArrayState PointerBuf) → Type 0
  IsFlat [] = Unit {0}
  IsFlat (a ∷ arrays) = PartsAll a.definition.binding arrays × IsFlat arrays

  -- Documents that agree away from a pointer.
  abbrev pub AgreesAway : PointerBuf → Value → Value → Type 0
  AgreesAway p d' d =
      (q : PointerBuf)
      → starts_with p q ≡ false
      → starts_with q p ≡ false
      → resolve q d' ≡ resolve q d

  PartsAll-get_elem? :
      (p : PointerBuf) (arrays : List (ArrayState PointerBuf)) (i : ℕ) (a : ArrayState PointerBuf)
      → PartsAll p arrays
      → get_elem? arrays i ≡ some a
      → Parts p a.definition.binding
  PartsAll-get_elem? p [] i a h e = ground arith
  PartsAll-get_elem? p (b ∷ arrays) zero a h e = ground arith
  PartsAll-get_elem? p (b ∷ arrays) (suc i) a h e = PartsAll-get_elem? p arrays i a h.1 e

  IsAligned-away :
      (p : PointerBuf) (arrays : List (ArrayState PointerBuf)) (d d' : Value)
      → PartsAll p arrays
      → AgreesAway p d' d
      → IsAligned arrays d
      → IsAligned arrays d'
  IsAligned-away p [] d d' apart agrees h = tt
  IsAligned-away p (a ∷ arrays) d d' apart agrees h = (
    h.0 ∙ ap (λ v. map_or v 0 item_count) (sym (agrees a.definition.binding apart.0.0 apart.0.1)),
    IsAligned-away p arrays d d' apart.1 agrees h.1,
  )

  -- One array is given items as many as its new values; the others are as they were.
  pub IsAligned-set :
      (arrays : List (ArrayState PointerBuf)) (i : ℕ) (a a' : ArrayState PointerBuf) (d d' : Value)
      → get_elem? arrays i ≡ some a
      → a'.definition ≡ a.definition
      → IsFlat arrays
      → AgreesAway a.definition.binding d' d
      → length a'.items ≡ count j a.definition.binding d'
      → IsAligned arrays d
      → IsAligned (set arrays i a') d'
  IsAligned-set [] i a a' d d' e same flat agrees new h = tt
  IsAligned-set (b ∷ arrays) zero a a' d d' e same flat agrees new h =
      let here : b ≡ a = ground arith in
      (rw same new, IsAligned-away a.definition.binding arrays d d' (rw (← here) flat.0) agrees h.1)
  IsAligned-set (b ∷ arrays) (suc i) a a' d d' e same flat agrees new h =
      let apart = PartsAll-get_elem? b.definition.binding arrays i a flat.0 e in
      (
        h.0 ∙ ap (λ v. map_or v 0 item_count) (sym (agrees b.definition.binding apart.1 apart.0)),
        IsAligned-set arrays i a a' d d' e same flat.1 agrees new h.1,
      )

  pub IsAligned-get_elem? :
      (arrays : List (ArrayState PointerBuf)) (i : ℕ) (a : ArrayState PointerBuf) (d : Value)
      → IsAligned arrays d
      → get_elem? arrays i ≡ some a
      → length a.items ≡ count j a.definition.binding d
  IsAligned-get_elem? [] i a d h e = ground arith
  IsAligned-get_elem? (b ∷ arrays) zero a d h e = ground arith
  IsAligned-get_elem? (b ∷ arrays) (suc i) a d h e = IsAligned-get_elem? arrays i a d h.1 e

  -- A reference to an array: what it reads, and what a write through it changes.
  pub record Referent (p : PointerBuf) (d : Value) (values : List Value)
      (put_back : List Value → Value) : Type 0 where
    pub present : array_values j p d ≡ some values
    pub written : (vs : List Value) → resolve p (put_back vs) ≡ some (array_of vs)
    pub away : (vs : List Value) → AgreesAway p (put_back vs) d

  array_values_mut_lem :
      (p : PointerBuf) (d : Value) (values : List Value) (put_back : List Value → Value)
      → array_values_mut j p d ≡ some (values, put_back)
      → (v : Value) × (walk to_index (tokens p) d ≡ some v)
        × (as_array v ≡ some values)
        × (put_back ≡ (λ vs. store to_index (tokens p) (array_of vs) d))
  array_values_mut_lem p d values put_back h = elim (Option-cases (walk to_index (tokens p) d)) [
    | inl e ↦ absurd (ground (arith, e, j.resolve_mut_lem p d))
    | inr (v, e) ↦ elim (Option-cases (as_array v)) [
      | inl e' ↦ absurd (ground (arith, e, e', j.resolve_mut_lem p d))
      | inr (vs, e') ↦ (
        v,
        e,
        ground (arith, e, e', j.resolve_mut_lem p d),
        ground (arith, e, e', j.resolve_mut_lem p d),
      )
    ]
  ]

  pub array_values_mut-Referent :
      (p : PointerBuf) (d : Value) (values : List Value) (put_back : List Value → Value)
      → array_values_mut j p d ≡ some (values, put_back)
      → Referent p d values put_back
  array_values_mut-Referent p d values put_back h =
      let (v, there, is, stores) = array_values_mut_lem p d values put_back h in
      record {
        present = ground (arith, j.resolve_lem p d);
        written = λ vs.
            rw (stores, j.resolve_lem p (store to_index (tokens p) (array_of vs) d))
              (walk-store_self to_index (tokens p) d v (array_of vs) there);
        away = λ vs q above below.
            rw
              (
                stores,
                j.resolve_lem q (store to_index (tokens p) (array_of vs) d),
                j.resolve_lem q d,
              )
              (walk-store_apart to_index j.to_index_injective (tokens p) (tokens q) d (array_of vs)
                (sym (j.starts_with_lem q p) ∙ below) (sym (j.starts_with_lem p q) ∙ above));
      }

  -- The array read back has as many items as were written.
  pub count-written :
      (p : PointerBuf) (d : Value) (values vs : List Value) (put_back : List Value → Value)
      → Referent p d values put_back
      → count j p (put_back vs) ≡ length vs
  count-written p d values vs put_back r = ground (arith, r.written vs, as_array-array_of vs)

  pub count-present :
      (p : PointerBuf) (d : Value) (values : List Value) (put_back : List Value → Value)
      → Referent p d values put_back
      → count j p d ≡ length values
  count-present p d values put_back r = elim (Option-cases (resolve p d)) [
    | inl e ↦ absurd (ground (arith, e, r.present))
    | inr (v, e) ↦ ground (arith, e, r.present)
  ]
