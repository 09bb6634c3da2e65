-- ===== src/Number/Totality.antt =====
-- No text makes the integers' canonical form panic.
use schemaform.Prelude.{ℕ, arith}
use schemaform.Prelude.Int.{ℤ, pos, negsuc}
use schemaform.Prelude.Results.{
  NoPanic, ok-NoPanic, err-NoPanic, bind-NoPanic, if-NoPanic, guard-NoPanic, ok_or-NoPanic,
}
use schemaform.Json.{Text}
use schemaform.Number.{shifted, canonical_integer_with_limit}

shifted-NoPanic : (digits : Text) (e : ℤ) (m : ℕ) → NoPanic (shifted digits e m)
unfolding shifted
shifted-NoPanic digits (pos n) m = search (bind-NoPanic, guard-NoPanic, ok-NoPanic)
shifted-NoPanic digits (negsuc n) m = record { never = λ h. ground arith }

pub canonical_integer_with_limit-NoPanic :
    (input : Text) (m : ℕ) → NoPanic (canonical_integer_with_limit input m)
unfolding canonical_integer_with_limit
canonical_integer_with_limit-NoPanic input m =
    search
      (
        if-NoPanic, bind-NoPanic, guard-NoPanic, ok-NoPanic, err-NoPanic, ok_or-NoPanic,
        shifted-NoPanic,
      )
      depth 16
