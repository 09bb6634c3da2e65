-- ===== src/Limits/Source/Compact.antt =====
-- The compact text of a value, and what ends the parts of it for the scan.
use schemaform.Prelude.{
  ◌⊎◌, inl, inr, ◌==◌, ℕ, ◌≡◌, refl, Bool, true, false, not, [], ◌∷◌, ◌++◌, all, arith,
}
use schemaform.Json.{
  Text, Value, Values, Members, null, bool, number, string, array, object, nil, cons, end, member,
}
use schemaform.Limits.Source.{
  skip_string, is_number_start, is_delimiter, is_ascii_alphabetic, skip_while,
}

-- The compact text of a value; `quoted` writes what stands between the quotation marks of a string.
module _ (quoted : Text → Text) where
  abbrev pub literal : Text → Text → Text
  literal s rest = b'"' ∷ (quoted s ++ b'"' ∷ rest)

  -- in front of `rest`
  unfoldable mutual
    pub write : Value → Text → Text
    write null rest = b'n' ∷ b'u' ∷ b'l' ∷ b'l' ∷ rest
    write (bool true) rest = b't' ∷ b'r' ∷ b'u' ∷ b'e' ∷ rest
    write (bool false) rest = b'f' ∷ b'a' ∷ b'l' ∷ b's' ∷ b'e' ∷ rest
    write (number n) rest = n ++ rest
    write (string s) rest = literal s rest
    write (array nil) rest = b'[' ∷ b']' ∷ rest
    write (array (cons v vs)) rest = b'[' ∷ write v (write_values vs rest)
    write (object end) rest = b'{' ∷ b'}' ∷ rest
    write (object (member k v ms)) rest = b'{' ∷ literal k (b':' ∷ write v (write_members ms rest))

    -- what is behind the first item or member
    pub write_values : Values → Text → Text
    write_values nil rest = b']' ∷ rest
    write_values (cons v vs) rest = b',' ∷ write v (write_values vs rest)

    pub write_members : Members → Text → Text
    write_members end rest = b'}' ∷ rest
    write_members (member k v ms) rest = b',' ∷ literal k (b':' ∷ write v (write_members ms rest))

-- The texts of numbers start as numbers do, and have no delimiter.
abbrev pub IsNumberText : Text → Type 0
IsNumberText [] = ⊥
IsNumberText (c ∷ s) = (is_number_start c ≡ true) × (all (λ d. not (is_delimiter d)) s ≡ true)

unfoldable mutual
  pub HasNumberTexts : Value → Type 0
  HasNumberTexts (number n) = IsNumberText n
  HasNumberTexts (array vs) = AllNumberTexts vs
  HasNumberTexts (object ms) = MembersNumberTexts ms
  HasNumberTexts _ = Unit {0}

  pub AllNumberTexts : Values → Type 0
  AllNumberTexts nil = Unit {0}
  AllNumberTexts (cons v vs) = HasNumberTexts v × AllNumberTexts vs

  pub MembersNumberTexts : Members → Type 0
  MembersNumberTexts end = Unit {0}
  MembersNumberTexts (member k v ms) = HasNumberTexts v × MembersNumberTexts ms

-- a text that ends a number and a word
abbrev pub Ends : Text → Type 0
Ends [] = Unit {0}
Ends (c ∷ s) = is_delimiter c ≡ true

pub skip_while-all :
    (inside : ℕ → Bool) (s rest : Text)
    → all inside s ≡ true
    → skip_while inside (s ++ rest) ≡ skip_while inside rest
unfolding skip_while
skip_while-all inside [] rest h = refl
skip_while-all inside (c ∷ s) rest h = ground (arith, skip_while-all inside s rest)

pub skip-Ends : (rest : Text) → Ends rest → skip_while (λ d. not (is_delimiter d)) rest ≡ rest
unfolding skip_while
skip-Ends [] h = refl
skip-Ends (c ∷ s) h = rw h refl

pub word-Ends : (rest : Text) → Ends rest → skip_while is_ascii_alphabetic rest ≡ rest
unfolding skip_while
word-Ends [] h = refl
word-Ends (c ∷ s) h = ground arith

-- What stands between the quotation marks of a JSON string: a quotation mark or a backslash of the
-- string stands behind a backslash.
abbrev pub IsEscaped : Text → Type 0
IsEscaped [] = Unit {0}
IsEscaped (c ∷ []) = ((c == b'\\') ≡ false) × ((c == b'"') ≡ false)
IsEscaped (c ∷ d ∷ s) =
    ((c ≡ b'\\') × IsEscaped s)
    ⊎ (((c == b'\\') ≡ false) × ((c == b'"') ≡ false) × IsEscaped (d ∷ s))

skip-mark : (rest : Text) → skip_string (b'"' ∷ rest) ≡ rest
unfolding skip_string
skip-mark [] = refl
skip-mark (c ∷ rest) = refl

pub skip-IsEscaped : (s rest : Text) → IsEscaped s → skip_string (s ++ b'"' ∷ rest) ≡ rest
unfolding skip_string
skip-IsEscaped [] rest h = skip-mark rest
skip-IsEscaped (c ∷ []) rest h = ground (arith, h.0, h.1, skip-mark rest)
skip-IsEscaped (c ∷ d ∷ s) rest (inl (e, h)) = rw e (skip-IsEscaped s rest h)
skip-IsEscaped (c ∷ d ∷ s) rest (inr (h, h', k)) =
    ground (arith, h, h', skip-IsEscaped (d ∷ s) rest k)
