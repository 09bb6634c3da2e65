-- ===== src/Limits/Source/Written.antt =====
-- The text of a value has as many tokens as the value, and its nesting is the height of the value.
use schemaform.Prelude.{
  ℕ, zero, suc, ◌+◌, ◌-◌, ◌^◌, ◌≤◌, ◌<◌, ◌≡◌, refl, ap, ◌∙◌, true, false, not, some, [], ◌∷◌, ◌++◌,
  length, ◌==◌, arith,
}
use schemaform.Prelude.Words.{saturating_add, saturating_add_exact, max}
use schemaform.Json.{
  Text, Value, Values, Members, null, bool, number, string, array, object, nil, cons, end, member,
  member_count,
}
use schemaform.Limits.Sizes.{
  node_count, values_nodes, members_nodes, member_total, values_total, members_total, height,
  values_height, members_height,
}
use schemaform.Limits.Source.{
  Scan, is_opening, is_closing, is_delimiter, skip_string, token, scan_byte, scan_bytes,
  source_metrics,
}
use schemaform.Limits.Source.Compact.{
  IsEscaped, skip-IsEscaped, write, write_values, write_members, literal, IsNumberText,
  HasNumberTexts, AllNumberTexts, MembersNumberTexts, Ends, skip_while-all, skip-Ends, word-Ends,
}
use schemaform.Limits.Source.Depths.{
  le-max_left, le-max_right, counted, left, Scan_eq, items_depth, array_depth, members_depth,
  object_depth, depth-counted, one_token, scans, scans_values, scans_members,
}
use schemaform.Limits.Source.Rounds.{write-longer}

module _ (quoted : Text → Text) (quoted_escaped : (s : Text) → IsEscaped (quoted s)) where
  quoted_ends : (s rest : Text) → skip_string (quoted s ++ b'"' ∷ rest) ≡ rest
  quoted_ends s rest = skip-IsEscaped (quoted s) rest (quoted_escaped s)

  write_values-Ends : (vs : Values) (rest : Text) → Ends (write_values quoted vs rest)
  unfolding write_values
  write_values-Ends nil rest = refl
  write_values-Ends (cons v vs) rest = refl

  write_members-Ends : (ms : Members) (rest : Text) → Ends (write_members quoted ms rest)
  unfolding write_members
  write_members-Ends end rest = refl
  write_members-Ends (member k v ms) rest = refl

  scan-number :
      (n rest : Text) (scan : Scan) (fuel : ℕ)
      → IsNumberText n
      → Ends rest
      → scan_bytes (suc fuel) (n ++ rest) scan ≡ scan_bytes fuel rest (token scan)
  unfolding scan_bytes scan_byte
  scan-number [] rest scan fuel h ends = absurd h
  scan-number (c ∷ s) rest scan fuel h ends =
      let skipped = skip_while-all (λ d. not (is_delimiter d)) s rest h.1 ∙ skip-Ends rest ends in
      let open_no : is_opening c ≡ false = ground (arith, h.0) in
      let close_no : is_closing c ≡ false = ground (arith, h.0) in
      let quote_no : (c == b'"') ≡ false = ground (arith, h.0) in
      rw (open_no, close_no, quote_no, h.0, skipped) refl

  scan-literal :
      (s rest : Text) (scan : Scan) (fuel : ℕ)
      → scan_bytes (suc fuel) (b'"' ∷ (quoted s ++ b'"' ∷ rest)) scan
        ≡ scan_bytes fuel rest (token scan)
  unfolding scan_bytes scan_byte
  scan-literal s rest scan fuel = rw (quoted_ends s rest) refl

  abbrev Small : Scan → ℕ → ℕ → Type 0
  Small scan n deep = (scan.tokens + n < 2 ^ 64) × (scan.nesting + deep + 1 < 2 ^ 64)

  scans_positive : (v : Value) → 0 < scans v
  unfolding scans
  scans_positive (array nil) = omega arith
  scans_positive (array (cons v vs)) = omega arith
  scans_positive (object end) = omega arith
  scans_positive (object (member k v ms)) = omega arith
  scans_positive null = omega arith
  scans_positive (bool b) = omega arith
  scans_positive (number n) = omega arith
  scans_positive (string s) = omega arith

  scans_members_positive : (ms : Members) → 0 < scans_members ms
  unfolding scans_members
  scans_members_positive end = omega arith
  scans_members_positive (member k v ms) = omega arith

  -- inside a collection, behind its opening
  abbrev opened : Scan → Scan
  opened scan = record {
    tokens = scan.tokens + 1;
    depth = max scan.depth scan.nesting;
    nesting = scan.nesting + 1;
  }

  opens :
      (scan : Scan)
      → Small scan 1 0
      → record (token scan) { nesting = saturating_add scan.nesting 1 } ≡ opened scan
  opens scan h =
      rw
        (
          saturating_add_exact scan.tokens 1 (omega arith),
          saturating_add_exact scan.nesting 1 (omega arith),
        )
        refl

  last_token :
      (rest : Text) (scan : Scan) (g n : ℕ)
      → suc n ≡ 1 + g
      → scan.tokens + 1 < 2 ^ 64
      → scan_bytes n rest (token scan) ≡ scan_bytes g rest (counted scan 1 0)
  last_token rest scan g n h small =
      let e : n ≡ g = omega arith in rw e (ap (scan_bytes g rest) (one_token scan small))

  mutual
    unfolding write scan_bytes scan_byte member_count node_count member_total height HasNumberTexts
        scans

    scan-value :
        (v : Value) (rest : Text) (scan : Scan) (g n : ℕ)
        → n ≡ scans v + g
        → Ends rest
        → HasNumberTexts v
        → Small scan (node_count v + member_total v) (height v)
        → scan_bytes n (write quoted v rest) scan
          ≡ scan_bytes g rest (counted scan (node_count v + member_total v) (height v))
    scan-value v rest scan g zero h ends texts small = absurd (omega (arith, scans_positive v))
    scan-value null rest scan g (suc n) h ends texts small =
        ap (λ (r : Text). scan_bytes n r (token scan)) (word-Ends rest ends)
        ∙ last_token rest scan g n h (omega arith)
    scan-value (bool true) rest scan g (suc n) h ends texts small =
        ap (λ (r : Text). scan_bytes n r (token scan)) (word-Ends rest ends)
        ∙ last_token rest scan g n h (omega arith)
    scan-value (bool false) rest scan g (suc n) h ends texts small =
        ap (λ (r : Text). scan_bytes n r (token scan)) (word-Ends rest ends)
        ∙ last_token rest scan g n h (omega arith)
    scan-value (number s) rest scan g (suc n) h ends texts small =
        scan-number s rest scan n texts ends ∙ last_token rest scan g n h (omega arith)
    scan-value (string s) rest scan g (suc n) h ends texts small =
        scan-literal s rest scan n ∙ last_token rest scan g n h (omega arith)
    scan-value (array nil) rest scan g (suc n) h ends texts small =
        let e : n ≡ suc g = omega arith in
        ap (scan_bytes n (b']' ∷ rest)) (opens scan (omega arith, omega arith))
        ∙ rw e (ap (scan_bytes g rest) (ground arith))
    scan-value (array (cons v vs)) rest scan g (suc n) h ends texts small =
        ap (scan_bytes n (write quoted v (write_values quoted vs rest)))
          (opens scan (omega arith, omega arith))
        ∙ scan-value v (write_values quoted vs rest) (opened scan) (scans_values vs + g) n
            (omega arith) (write_values-Ends vs rest) texts.0
            (omega arith, omega (arith, le-max_left (height v + 1) (values_height vs)))
        ∙ scan-values vs rest (counted (opened scan) (node_count v + member_total v) (height v))
            scan.nesting g (scans_values vs + g) refl (omega arith)
            (omega (
              arith,
              le-max_right scan.depth scan.nesting,
              depth-counted (opened scan) 0 (height v),
            ))
            texts.1 (omega arith) (omega (arith, le-max_right (height v + 1) (values_height vs)))
        ∙ ap (scan_bytes g rest) (
            Scan_eq _ _ _ _ _ (omega arith)
              (array_depth scan.depth scan.nesting (height v) (values_height vs)))
    scan-value (object end) rest scan g (suc n) h ends texts small =
        let e : n ≡ suc g = omega arith in
        ap (scan_bytes n (b'}' ∷ rest)) (opens scan (omega arith, omega arith))
        ∙ rw e (ap (scan_bytes g rest) (ground arith))
    scan-value (object (member key v ms)) rest scan g (suc zero) h ends texts small =
        absurd (omega arith)
    scan-value (object (member key v ms)) rest scan g (suc (suc zero)) h ends texts small =
        absurd (omega arith)
    scan-value (object (member key v ms)) rest scan g (suc (suc (suc n))) h ends texts small =
        ap
          (scan_bytes (suc (suc n))
            (literal quoted key (b':' ∷ write quoted v (write_members quoted ms rest))))
          (opens scan (omega arith, omega arith))
        ∙ scan-literal key (b':' ∷ write quoted v (write_members quoted ms rest)) (opened scan)
            (suc n)
        ∙ ap (scan_bytes n (write quoted v (write_members quoted ms rest)))
            (one_token (opened scan) (omega arith))
        ∙ scan-value v (write_members quoted ms rest) (counted (opened scan) 1 0)
            (scans_members ms + g) n (omega arith) (write_members-Ends ms rest) texts.0
            (omega arith, omega (arith, le-max_left (height v + 1) (members_height ms)))
        ∙ scan-members ms rest
            (counted (counted (opened scan) 1 0) (node_count v + member_total v) (height v))
            scan.nesting g (scans_members ms + g) refl (omega arith)
            (omega (
              arith,
              le-max_right scan.depth scan.nesting,
              depth-counted (opened scan) 0 0,
              depth-counted (counted (opened scan) 1 0) 0 (height v),
            ))
            texts.1 (omega arith) (omega (arith, le-max_right (height v + 1) (members_height ms)))
        ∙ ap (scan_bytes g rest) (
            Scan_eq _ _ _ _ _ (omega arith)
              (object_depth scan.depth scan.nesting (height v) (members_height ms)))

    scan-values :
        (vs : Values) (rest : Text) (scan : Scan) (k g n : ℕ)
        → n ≡ scans_values vs + g
        → scan.nesting ≡ suc k
        → k ≤ scan.depth
        → AllNumberTexts vs
        → scan.tokens + (values_nodes vs + values_total vs) < 2 ^ 64
        → k + values_height vs + 1 < 2 ^ 64
        → scan_bytes n (write_values quoted vs rest) scan
          ≡ scan_bytes g rest (left scan k (values_nodes vs + values_total vs) (values_height vs))
    scan-values nil rest scan k g zero h deep under texts small small' = absurd (omega arith)
    scan-values nil rest scan k g (suc n) h deep under texts small small' =
        let e : n ≡ g = omega arith in rw e (ap (scan_bytes g rest) (ground arith))
    scan-values (cons v vs) rest scan k g zero h deep under texts small small' =
        absurd (omega arith)
    scan-values (cons v vs) rest scan k g (suc n) h deep under texts small small' =
        scan-value v (write_values quoted vs rest) scan (scans_values vs + g) n (omega arith)
          (write_values-Ends vs rest) texts.0
          (omega arith, omega (arith, le-max_left (height v + 1) (values_height vs)))
        ∙ scan-values vs rest (counted scan (node_count v + member_total v) (height v)) k g
            (scans_values vs + g) refl (omega arith)
            (omega (arith, under, depth-counted scan 0 (height v))) texts.1 (omega arith)
            (omega (arith, le-max_right (height v + 1) (values_height vs)))
        ∙ ap (scan_bytes g rest) (
            Scan_eq _ _ _ _ _ (omega arith)
              (items_depth scan.depth scan.nesting k (height v) (values_height vs) deep))

    scan-members :
        (ms : Members) (rest : Text) (scan : Scan) (k g n : ℕ)
        → n ≡ scans_members ms + g
        → scan.nesting ≡ suc k
        → k ≤ scan.depth
        → MembersNumberTexts ms
        → scan.tokens + (member_count ms + (members_nodes ms + members_total ms)) < 2 ^ 64
        → k + members_height ms + 1 < 2 ^ 64
        → scan_bytes n (write_members quoted ms rest) scan
          ≡ scan_bytes g rest (
              left scan k
                (member_count ms + (members_nodes ms + members_total ms))
                (members_height ms))
    scan-members ms rest scan k g zero h deep under texts small small' =
        absurd (omega (arith, scans_members_positive ms))
    scan-members end rest scan k g (suc n) h deep under texts small small' =
        let e : n ≡ g = omega arith in rw e (ap (scan_bytes g rest) (ground arith))
    scan-members (member key v ms) rest scan k g (suc zero) h deep under texts small small' =
        absurd (omega arith)
    scan-members (member key v ms) rest scan k g (suc (suc zero)) h deep under texts small small' =
        absurd (omega arith)
    scan-members (member key v ms) rest scan k g (suc (suc (suc n))) h deep under texts small
          small' =
        scan-literal key (b':' ∷ write quoted v (write_members quoted ms rest)) scan (suc n)
        ∙ ap (scan_bytes n (write quoted v (write_members quoted ms rest)))
            (one_token scan (omega arith))
        ∙ scan-value v (write_members quoted ms rest) (counted scan 1 0) (scans_members ms + g) n
            (omega arith) (write_members-Ends ms rest) texts.0
            (omega arith, omega (arith, le-max_left (height v + 1) (members_height ms)))
        ∙ scan-members ms rest
            (counted (counted scan 1 0) (node_count v + member_total v) (height v)) k g
            (scans_members ms + g) refl (omega arith)
            (omega
              (arith, under, depth-counted scan 0 0, depth-counted (counted scan 1 0) 0 (height v)))
            texts.1 (omega arith) (omega (arith, le-max_right (height v + 1) (members_height ms)))
        ∙ ap (scan_bytes g rest) (
            Scan_eq _ _ _ _ _ (omega arith)
              (members_depth scan.depth scan.nesting k (height v) (members_height ms) deep))

  stopped : (fuel : ℕ) (scan : Scan) → scan_bytes (suc fuel) [] scan ≡ some scan
  unfolding scan_bytes
  stopped fuel scan = refl

  -- Where strings are escaped and numbers are written as JSON writes them: the scan of the compact
  -- text of a value, of fewer than 2 ^ 64 tokens and levels, ends, with the tokens that the value
  -- has, its nodes and the keys of its objects, with the height of the value as the depth, and
  -- outside of every collection.
  pub source_metrics-write :
      (v : Value)
      → HasNumberTexts v
      → node_count v + member_total v < 2 ^ 64
      → height v + 1 < 2 ^ 64
      → source_metrics (write quoted v [])
        ≡ some (record { tokens = node_count v + member_total v; depth = height v; nesting = 0 })
  unfolding source_metrics
  source_metrics-write v texts few low =
      let bytes = write quoted v [] in
      let spare = length bytes - scans v in
      let start : Scan = record { tokens = 0; depth = 0; nesting = 0 } in
      scan-value v [] start (suc spare) (suc (length bytes))
        (omega (arith, write-longer quoted v [] texts)) tt texts (omega arith, omega arith)
      ∙ stopped spare _
      ∙ ap some (ground arith)
