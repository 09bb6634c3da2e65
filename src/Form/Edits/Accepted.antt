-- ===== src/Form/Edits/Accepted.antt =====
-- Which values a control takes, and which value it is given for one: `control_value_is_compatible`
-- and `chosen_value`, each beside a description of its own.
use schemaform.Prelude.{
  ℕ, ◌≡◌, ◌≢◌, refl, ◌⊎◌, ◌↔◌, inl, inr, Bool, true, false, none, some, List, [], ◌∷◌, get_elem?,
  find, any, arith, Option-cases, Bool-cases, zero, suc,
}
use schemaform.Json.{Text, Value, is_null, null, bool, number, string}
use schemaform.Number.{number_is_integer}
use schemaform.Form.Definition.{ControlDefinition, ControlKind, CompiledChoice}
use schemaform.Form.Parsing.{Parsers, equal, kind_takes, control_value_is_compatible}
use schemaform.Form.Edits.{chosen_value}
use schemaform.Pointer.{JsonPtr}

module _ {ℓ} {A : Type ℓ} (p : A → Bool) where
  abbrev Passes : List A → Type ℓ
  Passes xs = (k : ℕ) × (x : A) × (get_elem? xs k ≡ some x) × (p x ≡ true)

  any-Passes : (xs : List A) → any p xs ≡ true → Passes xs
  any-Passes [] h = absurd (ground arith)
  any-Passes (x ∷ xs) h = elim (Bool-cases (p x)) [
    | inl e ↦ (0, x, refl, e)
    | inr e ↦ let (k, y, at, e') = any-Passes xs (ground (arith, e)) in (suc k, y, at, e')
  ]

  Passes-any : (xs : List A) → Passes xs → any p xs ≡ true
  Passes-any [] h = absurd (ground (arith, h.2))
  Passes-any (x ∷ xs) (zero, y, at, e) = let same : x ≡ y = ground arith in rw (same, e) refl
  Passes-any (x ∷ xs) (suc k, y, at, e) = ground (arith, Passes-any xs (k, y, at, e))

module _ (parsers : Parsers) where
  -- a value that is one of the options
  abbrev IsOption : List CompiledChoice → Value → Type 0
  IsOption choices value =
      (k : ℕ) × (choice : CompiledChoice) × (get_elem? choices k ≡ some choice)
      × (equal parsers choice.value value ≡ true)

  abbrev IsOfKind : ControlKind → List CompiledChoice → Value → Type 0
  IsOfKind ControlKind.string choices value = (s : Text) × (value ≡ string s)
  IsOfKind ControlKind.number choices value = (n : Text) × (value ≡ number n)
  IsOfKind ControlKind.integer choices value =
      (n : Text) × (value ≡ number n) × (number_is_integer parsers.parse_big_int n ≡ true)
  IsOfKind ControlKind.boolean choices value = (b : Bool) × (value ≡ bool b)
  IsOfKind ControlKind.choice choices value = IsOption choices value
  IsOfKind ControlKind.constant choices value = IsOption choices value
  IsOfKind ControlKind.null choices value = IsOption choices value

  -- A control takes null where it says so, and else the values of its kind.
  abbrev pub Takes : {P : Type 0} → ControlDefinition P → Value → Type 0
  Takes definition value =
      ((value ≡ null) × (definition.accepts_null ≡ true))
      ⊎ ((value ≢ null) × IsOfKind definition.kind definition.choices value)

  -- The value is that of the first option that is equal, where there is one.
  abbrev pub Chooses : {P : Type 0} → ControlDefinition P → Value → Value → Type 0
  Chooses definition value chosen =
      ((choice : CompiledChoice) × (find (λ c. equal parsers c.value value) definition.choices
          ≡ some choice)
        × (chosen ≡ choice.value))
      ⊎ ((find (λ c. equal parsers c.value value) definition.choices ≡ none) × (chosen ≡ value))

  kind_takes-IsOfKind :
      (kind : ControlKind) (choices : List CompiledChoice) (value : Value)
      → kind_takes parsers kind choices value ≡ true
      → IsOfKind kind choices value
  unfolding kind_takes
  kind_takes-IsOfKind ControlKind.string choices (string s) h = (s, refl)
  kind_takes-IsOfKind ControlKind.number choices (number n) h = (n, refl)
  kind_takes-IsOfKind ControlKind.integer choices (number n) h = (n, refl, h)
  kind_takes-IsOfKind ControlKind.boolean choices (bool b) h = (b, refl)
  kind_takes-IsOfKind ControlKind.choice choices value h = any-Passes _ choices h
  kind_takes-IsOfKind ControlKind.constant choices value h = any-Passes _ choices h
  kind_takes-IsOfKind ControlKind.null choices value h = any-Passes _ choices h
  kind_takes-IsOfKind _ choices _ h = absurd (ground arith)

  IsOfKind-kind_takes :
      (kind : ControlKind) (choices : List CompiledChoice) (value : Value)
      → IsOfKind kind choices value
      → kind_takes parsers kind choices value ≡ true
  unfolding kind_takes
  IsOfKind-kind_takes ControlKind.string choices value (s, e) = rw e refl
  IsOfKind-kind_takes ControlKind.number choices value (n, e) = rw e refl
  IsOfKind-kind_takes ControlKind.integer choices value (n, e, whole) = rw e whole
  IsOfKind-kind_takes ControlKind.boolean choices value (b, e) = rw e refl
  IsOfKind-kind_takes ControlKind.choice choices value h = Passes-any _ choices h
  IsOfKind-kind_takes ControlKind.constant choices value h = Passes-any _ choices h
  IsOfKind-kind_takes ControlKind.null choices value h = Passes-any _ choices h

  is_null_iff : (value : Value) → (is_null value ≡ true) ↔ (value ≡ null)
  is_null_iff null = (λ h. refl, λ h. refl)
  is_null_iff _ = (λ h. absurd (ground arith), λ h. absurd (ground arith))

  pub control_value_is_compatible-Takes :
      {P : Type 0} (definition : ControlDefinition P) (value : Value)
      → (control_value_is_compatible parsers definition value ≡ true) ↔ Takes definition value
  unfolding control_value_is_compatible
  control_value_is_compatible-Takes definition value = elim (Bool-cases (is_null value)) [
    | inl nothing ↦ (
      (λ h. inl ((is_null_iff value).0 nothing, ground (arith, nothing))),
      (λ h. elim h [
        | inl (e, accepts) ↦ rw nothing accepts
        | inr (other, fits) ↦ absurd (other ((is_null_iff value).0 nothing))
      ]),
    )
    | inr something ↦ (
      (λ h. inr (
        (λ e. let nothing = (is_null_iff value).1 e in cc),
        kind_takes-IsOfKind definition.kind definition.choices value (ground (arith, something)),
      )),
      (λ h. elim h [
        | inl (e, accepts) ↦ absurd (let nothing = (is_null_iff value).1 e in cc)
        | inr (other, fits) ↦
            rw something (IsOfKind-kind_takes definition.kind definition.choices value fits)
      ]),
    )
  ]

  pub refused-Takes :
      {P : Type 0} (definition : ControlDefinition P) (value : Value)
      → control_value_is_compatible parsers definition value ≡ false
      → ¬ Takes definition value
  refused-Takes definition value h takes =
      let accepted = (control_value_is_compatible-Takes definition value).1 takes in cc

module _ (j : JsonPtr) (parsers : Parsers) where
  open j use {PointerBuf}

  pub chosen_value-Chooses :
      (definition : ControlDefinition PointerBuf) (value : Value)
      → Chooses parsers definition value (chosen_value j parsers definition value)
  unfolding chosen_value
  chosen_value-Chooses definition value =
      elim (Option-cases (find (λ c. equal parsers c.value value) definition.choices)) [
        | inl e ↦ inr (e, rw e refl)
        | inr (choice, e) ↦ inl (choice, e, rw e refl)
      ]
