-- ===== src/Prelude/Results.antt =====
-- Results of the program's functions: a value, an error, or a panic.
use mathlib.Core.Bool.{Bool, true, false}
use mathlib.Core.Option.{Option, none, some}
use mathlib.Core.Logic.{◌⊎◌, inl, inr}
use mathlib.Core.Path.{◌≡◌, refl}
use native.Mathlib.Omega.{arith}
use schemaform.Prelude.Tests.{if◌then◌else◌}

pub data Result (E A : Type 0) : Type 0 where
  ok : A → Result E A
  err : E → Result E A
  panic : Result E A

module _ {E : Type 0} where
  infixl 5 ◌>>=◌ ◌>>◌
  abbrev pub ◌>>=◌ : {A B : Type 0} → Result E A → (A → Result E B) → Result E B
  ok a >>= f = f a
  err e >>= f = err e
  panic >>= f = panic

  abbrev pub ◌>>◌ : {B : Type 0} → Result E (Unit {0}) → Result E B → Result E B
  m >> k = m >>= λ _. k

  -- `if !condition { return Err(e) }`
  abbrev pub guard : Bool → E → Result E (Unit {0})
  guard true e = ok tt
  guard false e = err e

  -- `option.ok_or(e)?`
  abbrev pub ok_or : {A : Type 0} → Option A → E → Result E A
  ok_or none e = err e
  ok_or (some a) e = ok a

  -- an index, an `unwrap` or an `expect`
  abbrev pub expect : {A : Type 0} → Option A → Result E A
  expect none = panic
  expect (some a) = ok a

module _ {E : Type 0} where
  pub record NoPanic {A : Type 0} (r : Result E A) : Type 0 where
    pub never : ¬ (r ≡ panic)

  pub ok-NoPanic : {A : Type 0} (a : A) → NoPanic {A = A} (ok a)
  ok-NoPanic a = record { never = λ h. ground arith }

  pub err-NoPanic : {A : Type 0} (e : E) → NoPanic {A = A} (err e)
  err-NoPanic e = record { never = λ h. ground arith }

  pub bind-NoPanic :
      {A B : Type 0} (m : Result E A) (f : A → Result E B)
      → NoPanic m
      → ((a : A) → NoPanic (f a))
      → NoPanic (m >>= f)
  bind-NoPanic (ok a) f h h' = h' a
  bind-NoPanic (err e) f h h' = err-NoPanic e
  bind-NoPanic panic f h h' = absurd (h.never refl)

  pub if-NoPanic :
      {A : Type 0} (b : Bool) (x y : Result E A)
      → NoPanic x
      → NoPanic y
      → NoPanic (if b then x else y)
  if-NoPanic true x y h h' = h
  if-NoPanic false x y h h' = h'

  pub guard-NoPanic : (b : Bool) (e : E) → NoPanic (guard b e)
  guard-NoPanic true e = ok-NoPanic tt
  guard-NoPanic false e = err-NoPanic e

  pub ok_or-NoPanic : {A : Type 0} (o : Option A) (e : E) → NoPanic (ok_or o e)
  ok_or-NoPanic none e = err-NoPanic e
  ok_or-NoPanic (some a) e = ok-NoPanic a

  pub Result-cases :
      {A : Type 0} (r : Result E A) → NoPanic r → ((a : A) × (r ≡ ok a)) ⊎ ((e : E) × (r ≡ err e))
  Result-cases (ok a) h = inl (a, refl)
  Result-cases (err e) h = inr (e, refl)
  Result-cases panic h = absurd (h.never refl)
