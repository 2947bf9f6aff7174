-- ===== src/LegalGate/Denial.antt =====
-- lead_engine/pipeline/legal_gate.py denies by default.
use lead_engine.Prelude.{
  ℕ, ◌≤◌, ◌≡◌, ◌≢◌, ◌↔◌, refl, ap, inl, inr, Bool, true, false, not, ◌&&◌, ◌||◌, Option, none, some,
  List, [], ◌∷◌, arith, All, Option-cases, Text, contains,
}
use lead_engine.Sql.{All-of}
use lead_engine.LegalGate.{
  Rule, Policy, Record, accepted, rule_of, types_of, check_types, is_approved_source, all_approved,
  sources_approved, purpose_of, least, retention_of, decided, evaluate,
}

-- A rule that lets a data type through.
abbrev pub is_cleared : Option Rule → Bool
is_cleared none = false
is_cleared (some rule) = not rule.storage_forbidden && not rule.needs_review

abbrev pub AreCleared : Policy → List Text → Type 0
AreCleared p types = All (λ t. is_cleared (rule_of t p.data_types) ≡ true) types

abbrev pub AreApproved : Policy → List Text → Type 0
AreApproved p sources = All (λ s. rule_of s p.source_types ≡ some true) sources

check_types_iff :
    (p : Policy) (types : List Text)
    → (((check_types p types).allowed && not (check_types p types).to_review) ≡ true)
      ↔ AreCleared p types
unfolding check_types
check_types_iff p [] = (λ h. tt, λ h. refl)
check_types_iff p (t ∷ ts) = elim (Option-cases (rule_of t p.data_types)) [
  | inl e ↦ rw e (λ h. absurd (ground (arith, h)), λ h. absurd (ground (arith, h.0)))
  | inr (rule, e) ↦
      let (to, from) = check_types_iff p ts in
      rw e (λ h. (ground (arith, h), to (ground (arith, h))), λ h. ground (arith, h.0, from h.1))
]

all_approved_iff :
    (p : Policy) (sources : List Text) → (all_approved p sources ≡ true) ↔ AreApproved p sources
unfolding all_approved
all_approved_iff p [] = (λ h. tt, λ h. refl)
all_approved_iff p (s ∷ ss) =
    let (to, from) = all_approved_iff p ss in
    (
      λ h. (is_true (rule_of s p.source_types) (ground (arith, h)), to (ground (arith, h))),
      λ h. rw h.0 (from h.1),
    )
  where
    is_true : (v : Option Bool) → is_approved_source v ≡ true → v ≡ some true
    is_true none h = absurd (cc)
    is_true (some b) h = ap some h

sources_approved_iff :
    (p : Policy) (sources : List Text)
    → (sources_approved p sources ≡ true) ↔ ((sources ≢ []) × AreApproved p sources)
sources_approved_iff p [] = (λ h. absurd (cc), λ h. absurd (h.0 refl))
sources_approved_iff p (s ∷ ss) =
    let (to, from) = all_approved_iff p (s ∷ ss) in (λ h. ((λ e. cc), to h), λ h. from h.1)

decided-accepted_iff :
    (allowed to_review : Bool)
    → (decided allowed to_review ≡ accepted) ↔ ((allowed && not to_review) ≡ true)
decided-accepted_iff false b = (λ h. absurd (cc), λ h. absurd (cc))
decided-accepted_iff true true = (λ h. absurd (cc), λ h. absurd (cc))
decided-accepted_iff true false = (λ h. refl, λ h. refl)

-- A record is ACCEPTED exactly if each of its data types has a rule that neither forbids storage nor asks
-- for a review, it names at least one source and each of them is approved, and its purpose has a rule.
pub evaluate-accepted_iff :
    (p : Policy) (now : ℕ) (r : Record)
    → ((evaluate p now r).decision ≡ accepted) ↔ (
        AreCleared p (types_of r)
        × ((r.sources ≢ []) × AreApproved p r.sources)
        × (contains p.purposes (purpose_of r.purpose) ≡ true))
unfolding evaluate
evaluate-accepted_iff p now r =
    let types = check_types_iff p (types_of r) in
    let sources = sources_approved_iff p r.sources in
    let found = check_types p (types_of r) in
    let decision = decided-accepted_iff found.allowed (
      found.to_review
      || (not (sources_approved p r.sources)
          || not (contains p.purposes (purpose_of r.purpose)))) in
    (
      λ h.
          let all = decision.0 h in
          (types.0 (ground (arith, all)), sources.0 (ground (arith, all)), ground (arith, all)),
      λ h. let a = types.1 h.0 in let b = sources.1 h.1 in decision.1 (ground (arith, a, b, h.2)),
    )

least-le : (n : ℕ) (ms : List ℕ) → (least n ms ≤ n) × All (λ m. least n ms ≤ m) ms
least-le n [] = (omega arith, tt)
least-le n (m ∷ ms) =
    let (first, rest) = least-le m ms in
    (omega arith, (omega (arith, first), All-of ms (λ x h. omega (arith, h)) rest))

retention_of-le : (default : ℕ) (ns : List ℕ) → All (λ m. retention_of default ns ≤ m) ns
retention_of-le default [] = tt
retention_of-le default (n ∷ ns) = least-le n ns

-- No longer than the rule of a data type says, if it says how long.
abbrev pub IsWithin : ℕ → Option Rule → Type 0
IsWithin days found =
    (rule : Rule) (n : ℕ) → found ≡ some rule → rule.retention_days ≡ some n → days ≤ n

check_types-IsWithin :
    (p : Policy) (days : ℕ) (types : List Text)
    → All (λ m. days ≤ m) (check_types p types).retentions
    → All (λ t. IsWithin days (rule_of t p.data_types)) types
unfolding check_types
check_types-IsWithin p days [] h = tt
check_types-IsWithin p days (t ∷ ts) h = elim (Option-cases (rule_of t p.data_types)) [
  | inl e ↦ ((λ rule n q k. absurd (clash rule e q)), check_types-IsWithin p days ts (rw e at h))
  | inr (r, e) ↦ elim (Option-cases r.retention_days) [
    | inl none_said ↦ (
      (λ rule n q k. absurd (unsaid rule n (same rule r e q) none_said k)),
      check_types-IsWithin p days ts (rw (e, none_said) at h),
    )
    | inr (m, said) ↦
        let both : (days ≤ m) × All (λ x. days ≤ x) (check_types p ts).retentions =
          rw (e, said) at h in
        (
          (λ rule n q k. agree rule n m (same rule r e q) said k both.0),
          check_types-IsWithin p days ts both.1,
        )
  ]
]
  where
    clash : (rule : Rule) → rule_of t p.data_types ≡ none → rule_of t p.data_types ≡ some rule → ⊥
    clash rule e q = cc

    same :
        (rule r : Rule)
        → rule_of t p.data_types ≡ some r
        → rule_of t p.data_types ≡ some rule
        → r ≡ rule
    same rule r e q = cc

    unsaid :
        {r : Rule} (rule : Rule) (n : ℕ)
        → r ≡ rule
        → r.retention_days ≡ none
        → rule.retention_days ≡ some n
        → ⊥
    unsaid rule n e a b = cc

    agree :
        {r : Rule} (rule : Rule) (n m : ℕ)
        → r ≡ rule
        → r.retention_days ≡ some m
        → rule.retention_days ≡ some n
        → days ≤ m
        → days ≤ n
    agree rule n m e a b h = let k : m ≡ n = cc in rw (← k) h

-- A record is kept no longer than the rule of any of its data types says.
pub evaluate-IsWithin :
    (p : Policy) (now : ℕ) (r : Record)
    → All (λ t. IsWithin (evaluate p now r).retention_days (rule_of t p.data_types)) (types_of r)
unfolding evaluate
evaluate-IsWithin p now r =
    check_types-IsWithin p _ (types_of r)
      (retention_of-le p.default_retention_days (check_types p (types_of r)).retentions)
