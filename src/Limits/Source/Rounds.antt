-- ===== src/Limits/Source/Rounds.antt =====
-- The scan of a text takes no more rounds than the text has bytes.
use schemaform.Prelude.{◌+◌, ◌≤◌, true, false, [], ◌∷◌, length, length-append, arith}
use schemaform.Json.{
  Text, Value, Values, Members, null, bool, number, string, array, object, nil, cons, end, member,
}
use schemaform.Limits.Source.Compact.{
  write, write_values, write_members, HasNumberTexts, AllNumberTexts, MembersNumberTexts,
}
use schemaform.Limits.Source.Depths.{scans, scans_values, scans_members}

module _ (quoted : Text → Text) where
  mutual
    unfolding write scans HasNumberTexts

    pub write-longer :
        (v : Value) (rest : Text)
        → HasNumberTexts v
        → scans v + length rest ≤ length (write quoted v rest)
    write-longer null rest texts = omega arith
    write-longer (bool true) rest texts = omega arith
    write-longer (bool false) rest texts = omega arith
    write-longer (number []) rest texts = absurd texts
    write-longer (number (c ∷ s)) rest texts = omega (arith, length-append s rest)
    write-longer (string s) rest texts = omega (arith, length-append (quoted s) (b'"' ∷ rest))
    write-longer (array nil) rest texts = omega arith
    write-longer (array (cons v vs)) rest texts = omega (
      arith,
      write-longer v (write_values quoted vs rest) texts.0,
      write_values-longer vs rest texts.1,
    )
    write-longer (object end) rest texts = omega arith
    write-longer (object (member k v ms)) rest texts = omega (
      arith,
      length-append (quoted k) (b'"' ∷ b':' ∷ write quoted v (write_members quoted ms rest)),
      write-longer v (write_members quoted ms rest) texts.0,
      write_members-longer ms rest texts.1,
    )

    write_values-longer :
        (vs : Values) (rest : Text)
        → AllNumberTexts vs
        → scans_values vs + length rest ≤ length (write_values quoted vs rest)
    write_values-longer nil rest texts = omega arith
    write_values-longer (cons v vs) rest texts = omega (
      arith,
      write-longer v (write_values quoted vs rest) texts.0,
      write_values-longer vs rest texts.1,
    )

    write_members-longer :
        (ms : Members) (rest : Text)
        → MembersNumberTexts ms
        → scans_members ms + length rest ≤ length (write_members quoted ms rest)
    write_members-longer end rest texts = omega arith
    write_members-longer (member k v ms) rest texts = omega (
      arith,
      length-append (quoted k) (b'"' ∷ b':' ∷ write quoted v (write_members quoted ms rest)),
      write-longer v (write_members quoted ms rest) texts.0,
      write_members-longer ms rest texts.1,
    )
