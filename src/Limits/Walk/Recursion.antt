-- ===== src/Limits/Walk/Recursion.antt =====
-- The walk as a recursion over the value, and that the walk with a stack agrees with it.
use schemaform.Prelude.{
  ℕ, zero, suc, ◌+◌, ◌≡◌, refl, ◌∙◌, ◌⊎◌, inl, inr, Option, some, List, [], ◌∷◌, arith,
}
use schemaform.Prelude.Results.{Result, ok, err, panic, ◌>>=◌}
use schemaform.Json.{
  Text, Value, Values, Members, null, bool, number, string, array, object, nil, cons, end, member,
}
use schemaform.Limits.Walk.{
  Frame, value_frame, object_frame, array_frame, append_token, item_token, opened, walk_frames,
  rounds, rounds_values, rounds_members, walk,
}

module _ {S E : Type 0} (on_value : Value → ℕ → Text → S → Result E S)
    (on_key : Text → Text → S → Result E S) where
  -- Each value comes before its children, and these in their order; the state goes from one to the
  -- next.
  unfoldable mutual
    pub visited : Value → ℕ → Text → S → Result E S
    visited (array vs) level pointer s = do
      s' ← on_value (array vs) level pointer s
      visited_values vs 0 level pointer s'
    visited (object ms) level pointer s = do
      s' ← on_value (object ms) level pointer s
      visited_members ms level pointer s'
    visited value level pointer s = on_value value level pointer s

    pub visited_values : Values → ℕ → ℕ → Text → S → Result E S
    visited_values nil index level pointer s = ok s
    visited_values (cons v vs) index level pointer s = do
      s' ← visited v (level + 1) (item_token pointer index) s
      visited_values vs (index + 1) level pointer s'

    pub visited_members : Members → ℕ → Text → S → Result E S
    visited_members end level pointer s = ok s
    visited_members (member key v ms) level pointer s = do
      s' ← on_key key (append_token pointer key) s
      s'' ← visited v (level + 1) (append_token pointer key) s'
      visited_members ms level pointer s''

  -- What the loop does after a part is visited: it goes on, or is left.
  abbrev followed : Result E S → (S → Option (Result E S)) → Option (Result E S)
  followed (ok s) k = k s
  followed (err e) k = some (err e)
  followed panic k = some panic

  Result-split : (r : Result E S) → ((s : S) × (r ≡ ok s)) ⊎ ((e : E) × (r ≡ err e)) ⊎ (r ≡ panic)
  Result-split (ok s) = inl (s, refl)
  Result-split (err e) = inr (inl (e, refl))
  Result-split panic = inr (inr refl)

  followed-bind :
      (r : Result E S) (f : S → Result E S) (k k' : S → Option (Result E S))
      → ((s : S) → k s ≡ followed (f s) k')
      → followed r k ≡ followed (r >>= f) k'
  followed-bind (ok s) f k k' h = h s
  followed-bind (err e) f k k' h = refl
  followed-bind panic f k k' h = refl

  rounds-pos : (v : Value) → (n : ℕ) × (rounds v ≡ suc n)
  unfolding rounds
  rounds-pos null = (0, refl)
  rounds-pos (bool b) = (0, refl)
  rounds-pos (number s) = (0, refl)
  rounds-pos (string s) = (0, refl)
  rounds-pos (array vs) = (rounds_values vs, refl)
  rounds-pos (object ms) = (rounds_members ms, refl)

  abbrev Runs : Value → ℕ → Text → S → List Frame → ℕ → ℕ → Type 0
  Runs v level pointer s pending g n =
      walk_frames on_value on_key n s (value_frame v level pointer ∷ pending)
      ≡ followed (visited v level pointer s) (λ s'. walk_frames on_value on_key g s' pending)

  -- a value that leaves no children on the stack
  run_scalar :
      (v : Value) (level : ℕ) (pointer : Text) (s : S) (pending : List Frame) (g : ℕ)
      → opened v level pointer pending ≡ pending
      → visited v level pointer s ≡ on_value v level pointer s
      → Runs v level pointer s pending g (suc g)
  unfolding walk_frames
  run_scalar v level pointer s pending g h h' = elim (Result-split (on_value v level pointer s)) [
    | inl (s', e) ↦ rw (h', e, walk_frames, h) refl
    | inr (inl (x, e)) ↦ rw (h', e, walk_frames) refl
    | inr (inr e) ↦ rw (h', e, walk_frames) refl
  ]

  -- a value whose children are walked next
  run_collection :
      (v : Value) (level : ℕ) (pointer : Text) (s : S) (pending : List Frame) (g n : ℕ)
      (rest : S → Result E S)
      → visited v level pointer s ≡ (on_value v level pointer s >>= rest)
      → ((s' : S)
          → walk_frames on_value on_key n s' (opened v level pointer pending)
            ≡ followed (rest s') (λ s''. walk_frames on_value on_key g s'' pending))
      → Runs v level pointer s pending g (suc n)
  unfolding walk_frames
  run_collection v level pointer s pending g n rest h h' =
      elim (Result-split (on_value v level pointer s)) [
        | inl (s', e) ↦ rw (h, e, walk_frames) (h' s')
        | inr (inl (x, e)) ↦ rw (h, e, walk_frames) refl
        | inr (inr e) ↦ rw (h, e, walk_frames) refl
      ]

  mutual
    unfolding walk_frames visited rounds

    run-value :
        (v : Value) (level : ℕ) (pointer : Text) (s : S) (pending : List Frame) (g n : ℕ)
        → n ≡ rounds v + g
        → Runs v level pointer s pending g n
    run-value v level pointer s pending g zero h = let (m, e) = rounds-pos v in absurd (omega arith)
    run-value null level pointer s pending g (suc n) h =
        let e : n ≡ g = omega arith in rw e (run_scalar null level pointer s pending g refl refl)
    run-value (bool b) level pointer s pending g (suc n) h =
        let e : n ≡ g = omega arith in
        rw e (run_scalar (bool b) level pointer s pending g refl refl)
    run-value (number t) level pointer s pending g (suc n) h =
        let e : n ≡ g = omega arith in
        rw e (run_scalar (number t) level pointer s pending g refl refl)
    run-value (string t) level pointer s pending g (suc n) h =
        let e : n ≡ g = omega arith in
        rw e (run_scalar (string t) level pointer s pending g refl refl)
    run-value (array vs) level pointer s pending g (suc n) h =
        run_collection (array vs) level pointer s pending g n _ refl
          λ s'. run-values vs 0 level pointer s' pending g n (omega arith)
    run-value (object ms) level pointer s pending g (suc n) h =
        run_collection (object ms) level pointer s pending g n _ refl
          λ s'. run-members ms level pointer s' pending g n (omega arith)

    run-values :
        (vs : Values) (index level : ℕ) (pointer : Text) (s : S) (pending : List Frame) (g n : ℕ)
        → n ≡ rounds_values vs + g
        → walk_frames on_value on_key n s (array_frame vs index level pointer ∷ pending)
          ≡ followed
              (visited_values vs index level pointer s)
              (λ s'. walk_frames on_value on_key g s' pending)
    run-values nil index level pointer s pending g zero h = absurd (omega arith)
    run-values (cons v vs) index level pointer s pending g zero h = absurd (omega arith)
    run-values nil index level pointer s pending g (suc n) h =
        let e : n ≡ g = omega arith in rw e refl
    run-values (cons v vs) index level pointer s pending g (suc n) h =
        run-value v (level + 1) (item_token pointer index) s
          (array_frame vs (index + 1) level pointer ∷ pending) (rounds_values vs + g) n
          (omega arith)
        ∙ followed-bind (visited v (level + 1) (item_token pointer index) s) _ _ _
            (λ s'. run-values vs (index + 1) level pointer s' pending g (rounds_values vs + g) refl)

    run-members :
        (ms : Members) (level : ℕ) (pointer : Text) (s : S) (pending : List Frame) (g n : ℕ)
        → n ≡ rounds_members ms + g
        → walk_frames on_value on_key n s (object_frame ms level pointer ∷ pending)
          ≡ followed
              (visited_members ms level pointer s)
              (λ s'. walk_frames on_value on_key g s' pending)
    run-members end level pointer s pending g zero h = absurd (omega arith)
    run-members (member key v ms) level pointer s pending g zero h = absurd (omega arith)
    run-members end level pointer s pending g (suc n) h = let e : n ≡ g = omega arith in rw e refl
    run-members (member k v ms) level pointer s pending g (suc n) h =
        elim (Result-split (on_key k (append_token pointer k) s)) [
          | inr (inl (x, e)) ↦ rw (e, walk_frames) refl
          | inr (inr e) ↦ rw (e, walk_frames) refl
          | inl (s', e) ↦
              rw (e, walk_frames)
                (run-value v (level + 1) (append_token pointer k) s'
                    (object_frame ms level pointer ∷ pending) (rounds_members ms + g) n
                    (omega arith)
                  ∙ followed-bind (visited v (level + 1) (append_token pointer k) s') _ _ _ (λ s''.
                    run-members ms level pointer s'' pending g (rounds_members ms + g) refl))
        ]

  -- The walk with a stack does not run out of the rounds it is given. It ends in the state, or leaves
  -- the loop with what, the recursion over the value does.
  pub walk-eq-visited : (v : Value) (s : S) → walk on_value on_key v s ≡ some (visited v 0 [] s)
  unfolding walk
  walk-eq-visited v s =
      run-value v 0 [] s [] 1 (suc (rounds v)) (omega arith) ∙ ended (visited v 0 [] s)
    where
      ended : (r : Result E S) → followed r (λ s'. walk_frames on_value on_key 1 s' []) ≡ some r
      ended (ok s') = refl
      ended (err e) = refl
      ended panic = refl
