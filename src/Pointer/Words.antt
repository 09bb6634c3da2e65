-- ===== src/Pointer/Words.antt =====
-- The text of a pointer as crates/schemaform/src/engine.rs writes it: the escapes of
-- `append_pointer`, and `usize::to_string`.
use schemaform.Prelude.{ℕ, zero, suc, ◌+◌, ◌/◌, ◌%◌, [], ◌∷◌, ◌++◌, ◌==◌, if◌then◌else◌, ltb}
use schemaform.Json.{Text}

-- `str::replace` of one byte by a text
unfoldable pub replace : ℕ → Text → Text → Text
replace c by [] = []
replace c by (d ∷ s) = (if d == c then by else d ∷ []) ++ replace c by s

unfoldable pub escape : Text → Text
unfolding replace
escape token = replace b'/' (b'~' ∷ b'1' ∷ []) (replace b'~' (b'~' ∷ b'0' ∷ []) token)

-- The digits of a number, before `rest`; `suc n` rounds are enough for `n`.
unfoldable pub digits_from : ℕ → ℕ → Text → Text
digits_from zero n rest = rest
digits_from (suc fuel) n rest =
    let more = digits_from fuel (n / 10) ((b'0' + n % 10) ∷ rest) in
    if ltb n 10 then (b'0' + n) ∷ rest else more

unfoldable pub to_string : ℕ → Text
unfolding digits_from
to_string n = digits_from (suc n) n []
