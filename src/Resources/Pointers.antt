-- ===== src/Resources/Pointers.antt =====
-- crates/schemaform/src/resources.rs: `pointer_contains` and `relative_pointer`, on the texts of the
-- pointers.
pub mod Tokenwise
use schemaform.Prelude.{
  ℕ, Bool, true, false, not, ◌&&◌, ◌||◌, Option, none, some, [], ◌∷◌, ◌==◌, if◌then◌else◌,
  is_some_and,
}
use schemaform.Prelude.Results.{Result, ok, err, panic, ◌>>=◌, ◌>>◌, guard, ok_or}
use schemaform.Json.{Text, text_eq}

-- the error of the functions here: `PrepareError::InvalidGraph`
pub data PrepareError : Type 0 where
  invalid_graph : PrepareError

unfoldable pub strip_prefix : Text → Text → Option Text
strip_prefix [] s = some s
strip_prefix (c ∷ p) [] = none
strip_prefix (c ∷ p) (d ∷ s) = let rest = strip_prefix p s in if c == d then rest else none

abbrev pub starts_with_slash : Text → Bool
starts_with_slash [] = false
starts_with_slash (c ∷ s) = c == b'/'

abbrev pub is_empty : Text → Bool
is_empty [] = true
is_empty (c ∷ s) = false

-- The root pointer is the empty text.
unfoldable pub pointer_contains : Text → Text → Bool
unfolding text_eq strip_prefix
pointer_contains root target =
    text_eq target root
    || is_some_and (strip_prefix root target) (λ suffix. is_empty root || starts_with_slash suffix)

-- `parse` is `PointerBuf::parse`.
unfoldable pub relative_pointer :
    {P : Type 0} → (Text → Option P) → Text → Text → Result PrepareError P
unfolding strip_prefix
relative_pointer parse root target = do
  suffix ← ok_or (strip_prefix root target) invalid_graph
  guard (not (not (is_empty root) && not (is_empty suffix) && not (starts_with_slash suffix)))
      invalid_graph
  ok_or (parse suffix) invalid_graph
