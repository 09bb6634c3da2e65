-- ===== src/Form/Edits/Readings.antt =====
-- What the text of a control stands for: `parsed_text` and `is_unchanged`, beside descriptions of
-- their own, and which values a text may replace.
use schemaform.Prelude.{
  ℕ, ◌≡◌, refl, ◌⊎◌, inl, inr, Bool, true, false, not, ◌&&◌, Option, none, some, is_some_and, arith,
  Option-cases, Bool-cases,
}
use schemaform.Prelude.Results.{Result, ok, err, panic, Result-cases}
use schemaform.Json.{Text, Value, is_null, null, bool, number, string, array, object}
use schemaform.Json.Same.{value_eq_iff}
use schemaform.Number.{
  ParseBlocker, invalid_number, invalid_integer, numbers_equal, canonical_integer_with_limit,
}
use schemaform.Number.Totality.{canonical_integer_with_limit-NoPanic}
use schemaform.Pointer.{JsonPtr}
use schemaform.Form.Definition.{ControlDefinition, ControlKind}
use schemaform.Form.Parsing.{
  Parsers, trim, parse_number, parse_integer_with_limit, number_only, control_value_is_compatible,
}
use schemaform.Form.Edits.{parsed_text, is_unchanged}
use schemaform.Form.Edits.Accepted.{Takes, control_value_is_compatible-Takes, refused-Takes}

module _ (parsers : Parsers) where
  open parsers use {from_str, parse_big_int}

  abbrev IsNumber : Text → Text → Type 0
  IsNumber input n = from_str input ≡ some (number n)

  -- The text of a canonical integer is read once more.
  abbrev ReadsInteger : Result ParseBlocker Text → Result ParseBlocker Value → Type 0
  ReadsInteger (ok s) r =
      ((from_str s ≡ none) × (r ≡ err invalid_integer))
      ⊎ ((v : Value) × (from_str s ≡ some v) × (r ≡ ok v))
  ReadsInteger (err b) r = r ≡ err b
  ReadsInteger panic r = ⊥

  -- A text as a value of a kind, or why it is none.
  abbrev pub ReadsAs : ControlKind → Text → ℕ → Result ParseBlocker Value → Type 0
  ReadsAs ControlKind.string input limit r = r ≡ ok (string input)
  ReadsAs ControlKind.number input limit r =
      ((n : Text) × IsNumber input n × (r ≡ ok (number n)))
      ⊎ (¬ ((n : Text) × IsNumber input n) × (r ≡ err invalid_number))
  ReadsAs ControlKind.integer input limit r =
      ((n : Text) × IsNumber input n
        × ReadsInteger (canonical_integer_with_limit (trim input) limit) r)
      ⊎ (¬ ((n : Text) × IsNumber input n) × (r ≡ err invalid_integer))
  ReadsAs ControlKind.boolean input limit r = ⊥
  ReadsAs ControlKind.choice input limit r = ⊥
  ReadsAs ControlKind.constant input limit r = ⊥
  ReadsAs ControlKind.null input limit r = ⊥

  -- The value stands there already: the same text, or an equal number.
  abbrev pub StandsThere : ControlKind → Option Value → Value → Type 0
  StandsThere ControlKind.string now value = now ≡ some value
  StandsThere _ now value =
      (there : Value) × (now ≡ some there) × (numbers_equal parse_big_int there value ≡ true)

  number_only_lem :
      (o : Option Value) (b : ParseBlocker)
      → ((n : Text) × (o ≡ some (number n)) × (number_only parsers o b ≡ ok (number n)))
        ⊎ (¬ ((n : Text) × (o ≡ some (number n))) × (number_only parsers o b ≡ err b))
  number_only_lem none b = inr ((λ h. ground (arith, h.1)), refl)
  number_only_lem (some (number n)) b = inl (n, refl, refl)
  number_only_lem (some null) b = inr ((λ h. ground (arith, h.1)), refl)
  number_only_lem (some (bool x)) b = inr ((λ h. ground (arith, h.1)), refl)
  number_only_lem (some (string x)) b = inr ((λ h. ground (arith, h.1)), refl)
  number_only_lem (some (array x)) b = inr ((λ h. ground (arith, h.1)), refl)
  number_only_lem (some (object x)) b = inr ((λ h. ground (arith, h.1)), refl)

  parse_number-ReadsAs :
      (input : Text) (limit : ℕ)
      → ReadsAs ControlKind.number input limit (parse_number parsers input)
  unfolding parse_number
  parse_number-ReadsAs input limit = number_only_lem (from_str input) invalid_number

  parse_integer-ReadsAs :
      (input : Text) (limit : ℕ)
      → ReadsAs ControlKind.integer input limit (parse_integer_with_limit parsers input limit)
  unfolding parse_integer_with_limit
  parse_integer-ReadsAs input limit = elim (number_only_lem (from_str input) invalid_integer) [
    | inr (other, e) ↦ inr (other, rw e refl)
    | inl (n, is, e) ↦
        elim (Result-cases (canonical_integer_with_limit (trim input) limit)
          (canonical_integer_with_limit-NoPanic (trim input) limit)) [
            | inr (b, e') ↦ inl (n, is, rw (e, e') refl)
            | inl (s, e') ↦ elim (Option-cases (from_str s)) [
              | inl e'' ↦ inl (n, is, rw (e, e', e'') (inl (refl, refl)))
              | inr (v, e'') ↦ inl (n, is, rw (e, e', e'') (inr (v, refl, refl)))
            ]
          ]
  ]

  ReadsInteger-ne-panic : (c : Result ParseBlocker Text) → ¬ ReadsInteger c panic
  ReadsInteger-ne-panic (ok s) (inl h) = absurd (ground (arith, h.1))
  ReadsInteger-ne-panic (ok s) (inr h) = absurd (ground (arith, h.2))
  ReadsInteger-ne-panic (err b) h = absurd (ground arith)
  ReadsInteger-ne-panic panic h = h

  ReadsAs-ne-panic :
      (kind : ControlKind) (input : Text) (limit : ℕ) → ¬ ReadsAs kind input limit panic
  ReadsAs-ne-panic ControlKind.string input limit h = absurd (ground arith)
  ReadsAs-ne-panic ControlKind.number input limit (inl h) = absurd (ground (arith, h.2))
  ReadsAs-ne-panic ControlKind.number input limit (inr h) = absurd (ground (arith, h.1))
  ReadsAs-ne-panic ControlKind.integer input limit (inl h) = ReadsInteger-ne-panic _ h.2
  ReadsAs-ne-panic ControlKind.integer input limit (inr h) = absurd (ground (arith, h.1))
  ReadsAs-ne-panic ControlKind.boolean input limit h = h
  ReadsAs-ne-panic ControlKind.choice input limit h = h
  ReadsAs-ne-panic ControlKind.constant input limit h = h
  ReadsAs-ne-panic ControlKind.null input limit h = h

  -- A reading is a value or a blocker.
  pub ReadsAs-cases :
      (kind : ControlKind) (input : Text) (limit : ℕ) (r : Result ParseBlocker Value)
      → ReadsAs kind input limit r
      → ((v : Value) × (r ≡ ok v)) ⊎ ((b : ParseBlocker) × (r ≡ err b))
  ReadsAs-cases kind input limit (ok v) h = inl (v, refl)
  ReadsAs-cases kind input limit (err b) h = inr (b, refl)
  ReadsAs-cases kind input limit panic h = absurd (ReadsAs-ne-panic kind input limit h)

  module _ (j : JsonPtr) where
    pub parsed_text-ReadsAs :
        (kind : ControlKind) (input : Text) (limit : ℕ) (r : Result ParseBlocker Value)
        → parsed_text j parsers kind input limit ≡ some r
        → ReadsAs kind input limit r
    unfolding parsed_text
    parsed_text-ReadsAs ControlKind.string input limit r h = ground arith
    parsed_text-ReadsAs ControlKind.number input limit r h =
        let e : r ≡ parse_number parsers input = ground arith in
        rw e (parse_number-ReadsAs input limit)
    parsed_text-ReadsAs ControlKind.integer input limit r h =
        let e : r ≡ parse_integer_with_limit parsers input limit = ground arith in
        rw e (parse_integer-ReadsAs input limit)
    parsed_text-ReadsAs _ input limit r h = absurd (ground arith)

    -- No text is a value of the kind.
    pub parsed_text-none :
        (kind : ControlKind) (input : Text) (limit : ℕ)
        → parsed_text j parsers kind input limit ≡ none
        → ¬ ((r : Result ParseBlocker Value) × ReadsAs kind input limit r)
    unfolding parsed_text
    parsed_text-none ControlKind.string input limit h = absurd (ground arith)
    parsed_text-none ControlKind.number input limit h = absurd (ground arith)
    parsed_text-none ControlKind.integer input limit h = absurd (ground arith)
    parsed_text-none ControlKind.boolean input limit h = λ k. k.1
    parsed_text-none ControlKind.choice input limit h = λ k. k.1
    parsed_text-none ControlKind.constant input limit h = λ k. k.1
    parsed_text-none ControlKind.null input limit h = λ k. k.1

    is_unchanged-StandsThere :
        (kind : ControlKind) (now : Option Value) (value : Value)
        → is_unchanged j parsers kind now value ≡ true
        → StandsThere kind now value
    unfolding is_unchanged
    is_unchanged-StandsThere ControlKind.string none value h = absurd (ground arith)
    is_unchanged-StandsThere ControlKind.string (some u) value h =
        let same = (value_eq_iff u value).0 h in rw same refl
    is_unchanged-StandsThere _ none value h = absurd (ground arith)
    is_unchanged-StandsThere _ (some u) value h = (u, refl, h)

    StandsThere-is_unchanged :
        (kind : ControlKind) (now : Option Value) (value : Value)
        → StandsThere kind now value
        → is_unchanged j parsers kind now value ≡ true
    unfolding is_unchanged
    StandsThere-is_unchanged ControlKind.string now value h =
        rw h ((value_eq_iff value value).1 refl)
    StandsThere-is_unchanged _ now value (u, e, same) = rw e same

    pub is_unchanged_cases :
        (kind : ControlKind) (now : Option Value) (value : Value)
        → ((is_unchanged j parsers kind now value ≡ true) × StandsThere kind now value)
          ⊎ ((is_unchanged j parsers kind now value ≡ false) × ¬ StandsThere kind now value)
    is_unchanged_cases kind now value = elim (Bool-cases (is_unchanged j parsers kind now value)) [
      | inl e ↦ inl (e, is_unchanged-StandsThere kind now value e)
      | inr e ↦ inr (e, λ h. let e' = StandsThere-is_unchanged kind now value h in cc)
    ]

  module _ {P : Type 0} (definition : ControlDefinition P) where
    -- The two tests that a text edit makes of the value that is there.
    abbrev pub is_unfit : Option Value → Bool
    is_unfit now =
        is_some_and now (λ value.
          not (is_null value) && not (control_value_is_compatible parsers definition value))

    abbrev pub is_unfit_null : Option Value → Bool
    is_unfit_null now = is_some_and now is_null && not definition.accepts_null

    pub unfit-Takes :
        (now : Option Value)
        → is_unfit now ≡ true
        → (value : Value) × (now ≡ some value) × ¬ Takes parsers definition value
    unfit-Takes none h = absurd (ground arith)
    unfit-Takes (some value) h =
        (value, refl, refused-Takes parsers definition value (ground arith))

    pub unfit_null-Takes :
        (now : Option Value)
        → is_unfit_null now ≡ true
        → (value : Value) × (now ≡ some value) × ¬ Takes parsers definition value
    unfolding control_value_is_compatible
    unfit_null-Takes none h = absurd (ground arith)
    unfit_null-Takes (some value) h =
        (value, refl, refused-Takes parsers definition value (ground arith))

    pub fit-Takes :
        (value : Value)
        → is_unfit (some value) ≡ false
        → is_unfit_null (some value) ≡ false
        → Takes parsers definition value
    unfolding control_value_is_compatible
    fit-Takes value h h' =
        (control_value_is_compatible-Takes parsers definition value).0 (ground arith)
