-- ===== src/Validation/Findings/Outcomes.antt =====
-- What `validate_with_limits` reports.
use Prim.Native.Nat.{Ordering}
use mathlib.Core.Path.{subst}
use mathlib.Core.List.{cons≢nil}
use schemaform.Prelude.{
  ℕ, ◌≤◌, ◌≡◌, refl, sym, ap, ◌∙◌, ◌⊎◌, inl, inr, ◌↔◌, Bool, true, false, Option, none, some, List,
  [], ◌∷◌, length, arith, Bool-cases, map,
}
use schemaform.Prelude.Orders.{IsOrder, lexicographic, lexicographic-IsOrder}
use schemaform.Prelude.Sorting.{sort_by}
use schemaform.Json.{Text, text_eq, text_cmp, Value}
use schemaform.Json.Laws.{text_eq_iff, text_eq_refl}
use schemaform.Json.Order.{text_cmp-IsOrder}
use schemaform.Json.Same.{value_eq_iff}
use schemaform.Json.Equality.{value_eq}
use schemaform.Validation.Findings.{
  ValidationFinding, finding_eq, compare_findings, Outcome, valid, invalid, indeterminate, is_lt,
  outcome, Retained, retain_all, validate_by, validate_with_limits,
}
use schemaform.Validation.Findings.Members.{
  Has, Sorted, Has-sort_by, sort_by-Sorted, length-sort_by,
}
use schemaform.Validation.Findings.Kept.{Keeps, retain-Keeps}

module _ {F : Type 0} (cmp : F → F → Ordering) {E : Type 0} (failed : E → Bool)
    (translate : E → F) where
  -- The findings reported, in order: all findings of the errors, or the least ones.
  pub record Reports (limit : ℕ) (es : List E) (findings : List F) (truncated : Bool) : Type 0 where
    pub some_error : ¬ (es ≡ [])
    pub none_failed : (e : E) → Has e es → failed e ≡ false
    pub sorted : Sorted cmp findings
    pub few : length findings ≤ limit
    pub seen : (g : F) → Has g findings → Has g (map translate es)
    pub others :
        (g : F)
        → Has g (map translate es)
        → Has g findings
          ⊎ ((truncated ≡ true)
              × (length findings ≡ limit)
              × ((h : F) → Has h findings → cmp h g ≡ Ordering.lt))
    pub left_out : truncated ≡ true → (g : F) × Has g (map translate es) × ¬ Has g findings

  abbrev pub IsOutcome : ℕ → List E → Outcome F → Type 0
  IsOutcome limit es valid = es ≡ []
  IsOutcome limit es (invalid findings truncated) = Reports limit es findings truncated
  IsOutcome limit es indeterminate = (e : E) × Has e es × (failed e ≡ true)

module _ {F : Type 0} (cmp : F → F → Ordering) (same : F → F → Bool) (order : IsOrder cmp)
    (same_iff : (f g : F) → (same f g ≡ true) ↔ (f ≡ g)) {E : Type 0} (failed : E → Bool)
    (translate : E → F) where
  Keeps-iff :
      (limit : ℕ) (P Q : F → Type 0) (kept : Retained F)
      → ((g : F) → P g ↔ Q g)
      → Keeps cmp same order same_iff limit P kept
      → Keeps cmp same order same_iff limit Q kept
  Keeps-iff limit P Q kept iff inv = record {
    distinct = inv.distinct;
    few = inv.few;
    seen = λ g k. (iff g).0 (inv.seen g k);
    others = λ g q. inv.others g ((iff g).1 q);
    left_out = λ t. let (g, p, no_g) = inv.left_out t in (g, (iff g).0 p, no_g);
  }

  abbrev Collects : ℕ → (F → Type 0) → List E → Option (Retained F) → Type 0
  Collects limit Seen es none = (e : E) × Has e es × (failed e ≡ true)
  Collects limit Seen es (some kept) =
      ((e : E) → Has e es → failed e ≡ false)
      × Keeps cmp same order same_iff limit (λ g. Seen g ⊎ Has g (map translate es)) kept

  extend :
      (limit : ℕ) (Seen : F → Type 0) (e : E) (es : List E) (r : Option (Retained F))
      → failed e ≡ false
      → Collects limit (λ g. (g ≡ translate e) ⊎ Seen g) es r
      → Collects limit Seen (e ∷ es) r
  extend limit Seen e es none good (e', h, bad) = (e', inr h, bad)
  extend limit Seen e es (some kept) good (all_good, inv) = (
    λ e' h. elim h [
      | inl same_e ↦ subst (λ y. failed y ≡ false) (sym same_e) good
      | inr h' ↦ all_good e' h'
    ],
    Keeps-iff limit (λ g. ((g ≡ translate e) ⊎ Seen g) ⊎ Has g (map translate es))
        (λ g. Seen g ⊎ Has g (map translate (e ∷ es))) kept
        (λ g. (
          λ p. elim p [
            | inl q ↦ elim q [ inl here ↦ inr (inl here) | inr s ↦ inl s ]
            | inr k ↦ inr (inr k)
          ],
          λ p. elim p [
            | inl s ↦ inl (inr s)
            | inr k ↦ elim k [ inl here ↦ inl (inl here) | inr k' ↦ inr k' ]
          ],
        ))
        inv,
  )

  retain_all-Collects :
      (limit : ℕ) (Seen : F → Type 0) (es : List E) (kept : Retained F)
      → Keeps cmp same order same_iff limit Seen kept
      → (r : Option (Retained F)) × (retain_all cmp same failed translate limit es kept ≡ some r)
        × Collects limit Seen es r
  unfolding retain_all
  retain_all-Collects limit Seen [] kept inv = (
    some kept,
    refl,
    (
      λ e h. absurd h,
      Keeps-iff limit Seen (λ g. Seen g ⊎ Has g []) kept
          (λ g. (λ p. inl p, λ q. elim q [ inl p ↦ p | inr k ↦ absurd k ])) inv,
    ),
  )
  retain_all-Collects limit Seen (e ∷ es) kept inv = elim (Bool-cases (failed e)) [
    | inl bad ↦ (none, rw bad refl, (e, inl refl, bad))
    | inr good ↦
        let f = translate e in
        let (kept', one, inv') = retain-Keeps cmp same order same_iff limit Seen f kept inv in
        let (r, rest, collects) = retain_all-Collects limit (λ g. (g ≡ f) ⊎ Seen g) es kept' inv' in
        (r, rw (good, one) rest, extend limit Seen e es r good collects)
  ]

  nothing_kept :
      (limit : ℕ)
      → Keeps cmp same order same_iff limit (λ g. ⊥) (record { findings = []; truncated = false })
  nothing_kept limit = record {
    distinct = tt;
    few = omega arith;
    seen = λ g k. k;
    others = λ g p. absurd p;
    left_out = λ t. absurd (ground arith);
  }

  Keeps-Reports :
      (limit : ℕ) (e : E) (es : List E) (kept : Retained F)
      → ((e' : E) → Has e' (e ∷ es) → failed e' ≡ false)
      → Keeps cmp same order same_iff limit (λ g. ⊥ ⊎ Has g (map translate (e ∷ es))) kept
      → Reports cmp failed translate limit
          (e ∷ es)
          (sort_by (λ f g. is_lt (cmp f g)) kept.findings)
          kept.truncated
  Keeps-Reports limit e es kept good inv =
      let fs = kept.findings in
      let size = length-sort_by cmp order fs in
      record {
        some_error = λ h. cons≢nil h;
        none_failed = good;
        sorted = sort_by-Sorted cmp order fs inv.distinct;
        few = omega (arith, inv.few);
        seen = λ g k. elim (inv.seen g ((Has-sort_by cmp order g fs).0 k)) [
          | inl no_g ↦ absurd no_g
          | inr k' ↦ k'
        ];
        others = λ g k. elim (inv.others g (inr k)) [
          | inl k' ↦ inl ((Has-sort_by cmp order g fs).1 k')
          | inr (t, full, above) ↦
              inr (t, size ∙ full, λ h k'. above h ((Has-sort_by cmp order h fs).0 k'))
        ];
        left_out = λ t.
            let (g, p, no_g) = inv.left_out t in
            (
              g,
              elim p [ inl q ↦ absurd q | inr k ↦ k ],
              λ k. no_g ((Has-sort_by cmp order g fs).0 k),
            );
      }

  outcome-IsOutcome :
      (limit : ℕ) (es : List E) (r : Option (Retained F))
      → Collects limit (λ g. ⊥) es r
      → IsOutcome cmp failed translate limit es (outcome cmp same failed translate es r)
  outcome-IsOutcome limit es none c = c
  outcome-IsOutcome limit [] (some kept) c = refl
  outcome-IsOutcome limit (e ∷ es) (some kept) (good, inv) = Keeps-Reports limit e es kept good inv

  validate_by-IsOutcome :
      (limit : ℕ) (es : List E)
      → (o : Outcome F) × (validate_by cmp same failed translate limit es ≡ some o)
        × IsOutcome cmp failed translate limit es o
  unfolding validate_by
  validate_by-IsOutcome limit es =
      let (r, done, collects) =
        retain_all-Collects limit (λ g. ⊥) es (record { findings = []; truncated = false })
          (nothing_kept limit) in
      (outcome cmp same failed translate es r, rw done refl, outcome-IsOutcome limit es r collects)

-- What the findings are compared by, in the order of the comparison.
abbrev Key : Type 0
Key = Text × (Text × (Text × (Text × Text)))

module _ (to_string : Value → Text) where
  abbrev key : ValidationFinding → Key
  key f = (
    f.instance_location,
    (f.keyword_location.resource, (f.keyword_location.pointer, (f.code, to_string f.parameters))),
  )

  abbrev key_cmp : Key → Key → Ordering
  key_cmp =
      lexicographic text_cmp
        (lexicographic text_cmp (lexicographic text_cmp (lexicographic text_cmp text_cmp)))

  key_cmp-IsOrder : IsOrder key_cmp
  key_cmp-IsOrder = search (lexicographic-IsOrder, text_cmp-IsOrder)

  compare_findings-key :
      (f g : ValidationFinding) → compare_findings to_string f g ≡ key_cmp (key f) (key g)
  unfolding compare_findings
  compare_findings-key f g = refl

  module _ (to_string_injective : (v w : Value) → to_string v ≡ to_string w → v ≡ w) where
    key_injective : (f g : ValidationFinding) → key f ≡ key g → f ≡ g
    key_injective f g e = λ i. record {
      code = (e i).1.1.1.0;
      instance_location = (e i).0;
      keyword_location = record { resource = (e i).1.0; pointer = (e i).1.1.0 };
      parameters = to_string_injective f.parameters g.parameters (ap (λ (k : Key). k.1.1.1.1) e) i;
    }

    compare_findings-IsOrder : IsOrder (compare_findings to_string)
    unfolding compare_findings
    compare_findings-IsOrder = record {
      same = λ f g h. key_injective f g (key_cmp-IsOrder.same (key f) (key g) h);
      self = λ f. key_cmp-IsOrder.self (key f);
      flip_lt = λ f g h. key_cmp-IsOrder.flip_lt (key f) (key g) h;
      flip_gt = λ f g h. key_cmp-IsOrder.flip_gt (key f) (key g) h;
      trans = λ f g k h h'. key_cmp-IsOrder.trans (key f) (key g) (key k) h h';
    }

finding_eq_iff : (f g : ValidationFinding) → (finding_eq f g ≡ true) ↔ (f ≡ g)
unfolding finding_eq
finding_eq_iff f g = (
  λ h.
      let code : text_eq f.code g.code ≡ true = ground arith in
      let location : text_eq f.instance_location g.instance_location ≡ true = ground arith in
      let resource : text_eq f.keyword_location.resource g.keyword_location.resource ≡ true =
        ground arith in
      let pointer : text_eq f.keyword_location.pointer g.keyword_location.pointer ≡ true =
        ground arith in
      let parameters : value_eq f.parameters g.parameters ≡ true = ground arith in
      λ i. record {
        code = (text_eq_iff f.code g.code).0 code i;
        instance_location = (text_eq_iff f.instance_location g.instance_location).0 location i;
        keyword_location = record {
          resource =
              (text_eq_iff f.keyword_location.resource g.keyword_location.resource).0 resource i;
          pointer = (text_eq_iff f.keyword_location.pointer g.keyword_location.pointer).0 pointer i;
        };
        parameters = (value_eq_iff f.parameters g.parameters).0 parameters i;
      },
  λ e.
      subst (λ k. finding_eq f k ≡ true) e
        (ground (
          arith,
          text_eq_refl f.code,
          text_eq_refl f.instance_location,
          text_eq_refl f.keyword_location.resource,
          text_eq_refl f.keyword_location.pointer,
          (value_eq_iff f.parameters f.parameters).1 refl,
        )),
)

-- Where `to_string` writes no two values alike, `validate_with_limits` returns: valid only for no
-- errors, indeterminate only if the evaluation of an error failed, and otherwise findings in the
-- strict order of `compare_findings`, each of them once and at most as many as the limit. A finding
-- that is left out comes after all that are reported, which are then as many as the limit; the
-- findings are marked as truncated exactly if one is left out.
pub validate_with_limits-IsOutcome :
    (to_string : Value → Text)
    (to_string_injective : (v w : Value) → to_string v ≡ to_string w → v ≡ w) {E : Type 0}
    (failed : E → Bool) (translate : E → ValidationFinding) (limit : ℕ) (es : List E)
    → (o : Outcome ValidationFinding) × (validate_with_limits to_string failed translate limit es
        ≡ some o)
      × IsOutcome (compare_findings to_string) failed translate limit es o
unfolding validate_with_limits
validate_with_limits-IsOutcome to_string injective failed translate limit es =
    validate_by-IsOutcome (compare_findings to_string) finding_eq
      (compare_findings-IsOrder to_string injective) finding_eq_iff failed translate limit es
