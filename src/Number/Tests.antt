-- ===== src/Number/Tests.antt =====
-- Runs of the number functions.
use schemaform.Prelude.{◌≡◌, refl, [], ◌∷◌}
use schemaform.Prelude.Results.{ok, err}
use schemaform.Number.{canonical_integer_with_limit, invalid_integer}

canonical_exponent :
    canonical_integer_with_limit (b'-' ∷ b'1' ∷ b'.' ∷ b'2' ∷ b'e' ∷ b'3' ∷ []) 9
    ≡ ok (b'-' ∷ b'1' ∷ b'2' ∷ b'0' ∷ b'0' ∷ [])
unfolding canonical_integer_with_limit
canonical_exponent = refl

canonical_fraction : canonical_integer_with_limit (b'1' ∷ b'.' ∷ b'2' ∷ []) 9 ≡ err invalid_integer
unfolding canonical_integer_with_limit
canonical_fraction = refl

canonical_shrunk :
    canonical_integer_with_limit (b'1' ∷ b'2' ∷ b'0' ∷ b'E' ∷ b'-' ∷ b'1' ∷ []) 9
    ≡ ok (b'1' ∷ b'2' ∷ [])
unfolding canonical_integer_with_limit
canonical_shrunk = refl
