-- ===== src/Validation/Findings/Kept.antt =====
-- Which findings the loop of `validate_with_limits` keeps.
use Prim.Native.Nat.{Ordering}
use mathlib.Core.Path.{subst}
use schemaform.Prelude.{
  ℕ, ◌<◌, ◌≤◌, ◌≡◌, ◌≢◌, refl, sym, ap, ◌∙◌, ◌⊎◌, inl, inr, ◌↔◌, Bool, true, false, some, List, [],
  ◌∷◌, length, length-set, length-append, any, get_elem?, set, push, ltb, arith, Bool-cases,
}
use schemaform.Prelude.Orders.{IsOrder}
use schemaform.Validation.Findings.{Retained, retain}
use schemaform.Validation.Findings.Members.{
  Has, AllDistinct, Has-push, push-AllDistinct, get_elem?-Has, Has-set, set-Has_new, set-Has_old,
  set-AllDistinct,
}
use schemaform.Validation.Findings.Largest.{Before, any-Has, any-new, replace_largest_lem}

module _ {F : Type 0} (cmp : F → F → Ordering) (same : F → F → Bool) (order : IsOrder cmp)
    (same_iff : (f g : F) → (same f g ≡ true) ↔ (f ≡ g)) where
  -- Of the findings seen, those that are kept: all of them, or as many as are allowed and the others
  -- come after them. Findings are left out exactly if the list is truncated.
  pub record Keeps (limit : ℕ) (Seen : F → Type 0) (kept : Retained F) : Type 0 where
    pub distinct : AllDistinct kept.findings
    pub few : length kept.findings ≤ limit
    pub seen : (g : F) → Has g kept.findings → Seen g
    pub others :
        (g : F)
        → Seen g
        → Has g kept.findings
          ⊎ ((kept.truncated ≡ true)
              × (length kept.findings ≡ limit)
              × ((h : F) → Has h kept.findings → cmp h g ≡ Ordering.lt))
    pub left_out : kept.truncated ≡ true → (g : F) × Seen g × ¬ Has g kept.findings

  abbrev Or : F → (F → Type 0) → F → Type 0
  Or f Seen g = (g ≡ f) ⊎ Seen g

  module _ (limit : ℕ) (Seen : F → Type 0) (f : F) (kept : Retained F)
      (inv : Keeps limit Seen kept) where
    open inv use {distinct, few, seen, others, left_out}

    Keeps-again : Has f kept.findings → Keeps limit (Or f Seen) kept
    Keeps-again here = record {
      distinct = distinct;
      few = few;
      seen = λ g k. inr (seen g k);
      others = λ g s. elim s [
        | inl e ↦ inl (subst (λ y. Has y kept.findings) (sym e) here)
        | inr s' ↦ others g s'
      ];
      left_out = λ t. let (g, s, no_g) = left_out t in (g, inr s, no_g);
    }

    Keeps-push :
        ¬ Has f kept.findings
        → length kept.findings < limit
        → Keeps limit (Or f Seen) (record kept { findings = push kept.findings f })
    Keeps-push new room = record {
      distinct = push-AllDistinct f kept.findings new distinct;
      few = omega (arith, length-append kept.findings (f ∷ []));
      seen = λ g k. elim ((Has-push g f kept.findings).0 k) [
        | inl e ↦ inl e
        | inr k' ↦ inr (seen g k')
      ];
      others = λ g s. inl (
          (Has-push g f kept.findings).1 (elim s [
            | inl e ↦ inl e
            | inr s' ↦ elim (others g s') [
              | inl k ↦ inr k
              | inr (t, full, above) ↦ absurd (omega arith)
            ]
          ]));
      left_out = λ t.
          let (g, s, no_g) = left_out t in
          elim (others g s) [
            | inl k ↦ absurd (no_g k)
            | inr (t', full, above) ↦ absurd (omega arith)
          ];
    }

    -- No room at all.
    Keeps-none :
        kept.findings ≡ [] → limit ≡ 0 → Keeps limit (Or f Seen) (record kept { truncated = true })
    Keeps-none empty no_room = record {
      distinct = distinct;
      few = few;
      seen = λ g k. inr (seen g k);
      others =
          λ g s. inr (refl, ap length empty ∙ sym no_room, λ h k. absurd (subst (Has h) empty k));
      left_out = λ t. (f, inl refl, λ k. subst (Has f) empty k);
    }

    Keeps-after :
        ((y : F) → Has y kept.findings → cmp y f ≡ Ordering.lt)
        → ¬ Has f kept.findings
        → length kept.findings ≡ limit
        → Keeps limit (Or f Seen) (record kept { truncated = true })
    Keeps-after above new full = record {
      distinct = distinct;
      few = few;
      seen = λ g k. inr (seen g k);
      others = λ g s. elim s [
        | inl e ↦ inr (refl, full, λ h k. subst (λ y. cmp h y ≡ Ordering.lt) (sym e) (above h k))
        | inr s' ↦ elim (others g s') [
          | inl k ↦ inl k
          | inr (t, full', above') ↦ inr (refl, full', above')
        ]
      ];
      left_out = λ t. (f, inl refl, new);
    }

    -- The largest entry makes place.
    Keeps-set :
        (i : ℕ) (m : F)
        → get_elem? kept.findings i ≡ some m
        → ((y : F) → Has y kept.findings → Before cmp same order same_iff y m)
        → cmp f m ≡ Ordering.lt
        → ¬ Has f kept.findings
        → length kept.findings ≡ limit
        → Keeps limit (Or f Seen) (record { findings = set kept.findings i f; truncated = true })
    unfolding Before
    Keeps-set i m at above less new full =
        let size = length-set kept.findings i f in
        let old : (h : F)
            → Has h (set kept.findings i f)
            → (h ≡ f) ⊎ (Has h kept.findings × (h ≢ m)) =
          λ h k. Has-set kept.findings i f m h distinct at k in
        let there = get_elem?-Has kept.findings i at in
        let under : (h : F) → Has h (set kept.findings i f) → cmp h m ≡ Ordering.lt = λ h k.
          elim (old h k) [
            | inl e ↦ subst (λ y. cmp y m ≡ Ordering.lt) (sym e) less
            | inr (k', ne) ↦ elim (above h k') [ inl e ↦ e | inr e ↦ absurd (ne e) ]
          ] in
        record {
          distinct = set-AllDistinct kept.findings i f m at new distinct;
          few = omega arith;
          seen = λ g k. elim (old g k) [ inl e ↦ inl e | inr (k', ne) ↦ inr (seen g k') ];
          others = λ g s. elim s [
            | inl e ↦ inl (
                subst (λ y. Has y (set kept.findings i f)) (sym e)
                  (set-Has_new kept.findings i f m at))
            | inr s' ↦ elim (others g s') [
              | inl k ↦ elim (set-Has_old kept.findings i f m g at k) [
                | inl e ↦ inr (
                  refl,
                  size ∙ full,
                  λ h k'. subst (λ y. cmp h y ≡ Ordering.lt) (sym e) (under h k'),
                )
                | inr k' ↦ inl k'
              ]
              | inr (t, full', above') ↦
                  inr (refl, size ∙ full, λ h k. order.trans h m g (under h k) (above' m there))
            ]
          ];
          left_out = λ t. (
            m,
            inr (seen m there),
            λ k. elim (old m k) [
              | inl e ↦ new (subst (λ y. Has y kept.findings) e there)
              | inr (k', ne) ↦ ne refl
            ],
          );
        }

  retain_full :
      (limit : ℕ) (Seen : F → Type 0) (f : F) (fs : List F) (t : Bool)
      → Keeps limit Seen (record { findings = fs; truncated = t })
      → ¬ Has f fs
      → any (same f) fs ≡ false
      → ltb (length fs) limit ≡ false
      → (kept' : Retained F) × (retain cmp same limit f (record { findings = fs; truncated = t })
          ≡ some kept')
        × Keeps limit (Or f Seen) kept'
  unfolding retain
  retain_full limit Seen f [] t inv new e no_room = (
    record { findings = []; truncated = true },
    rw no_room refl,
    Keeps-none limit Seen f (record { findings = []; truncated = t }) inv refl (ground arith),
  )
  retain_full limit Seen f (x ∷ xs) t inv new e no_room =
      let kept : Retained F = record { findings = x ∷ xs; truncated = t } in
      let (fs, done, how) = replace_largest_lem cmp same order same_iff f x xs new in
      let at_most = inv.few in
      let full : length (x ∷ xs) ≡ limit = ground (arith, at_most) in
      elim how [
        | inl (i, m, at, above, less, shape) ↦ (
          record { findings = set (x ∷ xs) i f; truncated = true },
          rw (e, no_room, done, shape) refl,
          Keeps-set limit Seen f kept inv i m at above less new full,
        )
        | inr (above, shape) ↦ (
          record { findings = x ∷ xs; truncated = true },
          rw (e, no_room, done, shape) refl,
          Keeps-after limit Seen f kept inv above new full,
        )
      ]

  -- One error.
  pub retain-Keeps :
      (limit : ℕ) (Seen : F → Type 0) (f : F) (kept : Retained F)
      → Keeps limit Seen kept
      → (kept' : Retained F) × (retain cmp same limit f kept ≡ some kept')
        × Keeps limit (λ g. (g ≡ f) ⊎ Seen g) kept'
  unfolding retain
  retain-Keeps limit Seen f kept inv = elim (Bool-cases (any (same f) kept.findings)) [
    | inl e ↦ (
      kept,
      rw e refl,
      Keeps-again limit Seen f kept inv (any-Has cmp same order same_iff f kept.findings e),
    )
    | inr e ↦
        let new = any-new cmp same order same_iff f kept.findings e in
        elim (Bool-cases (ltb (length kept.findings) limit)) [
          | inl room ↦ (
            record kept { findings = push kept.findings f },
            rw (e, room) refl,
            Keeps-push limit Seen f kept inv new (ground arith),
          )
          | inr no_room ↦ retain_full limit Seen f kept.findings kept.truncated inv new e no_room
        ]
  ]
