-- ===== src/LegalGate.antt =====
-- lead_engine/pipeline/legal_gate.py: LegalGate.evaluate. A policy is read as the tables of its YAML file:
-- what a rule leaves out is false, or none for a retention.
pub mod Denial
use lead_engine.Prelude.{
  ℕ, ◌+◌, ◌*◌, ◌≡◌, min, Bool, true, false, not, ◌&&◌, ◌||◌, Option, none, some, List, [], ◌∷◌,
  ◌++◌, if◌then◌else◌, Text, text, text_eq, contains,
}

pub record Rule : Type 0 where
  pub storage_forbidden : Bool
  pub needs_review : Bool
  pub retention_days : Option ℕ

-- `source_types` says of a source whether it is approved; `purposes` are the ones with a rule.
pub record Policy : Type 0 where
  pub data_types : List (Text × Rule)
  pub source_types : List (Text × Bool)
  pub purposes : List Text
  pub default_retention_days : ℕ

pub record Record : Type 0 where
  pub data_types : List Text
  pub sources : List Text
  pub purpose : Option Text
  pub email : Option Text
  pub phone : Option Text

pub data Decision : Type 0 where
  rejected review accepted : Decision

pub record Outcome : Type 0 where
  pub storage_allowed : Bool
  pub requires_review : Bool
  pub retention_days : ℕ
  pub expires_at : ℕ
  pub is_approved : Bool
  pub decision : Decision

unfoldable pub rule_of {ℓ} : {A : Type ℓ} → Text → List (Text × A) → Option A
rule_of key [] = none
rule_of key ((k, rule) ∷ rules) =
    let rest = rule_of key rules in if text_eq k key then some rule else rest

abbrev is_given : Option Text → Bool
is_given none = false
is_given (some []) = false
is_given (some (c ∷ s)) = true

-- `_infer_types`
abbrev pub inferred_types : Record → List Text
inferred_types r =
    text "company_public_data"
    ∷ (if is_given r.email || is_given r.phone then text "professional_contact" ∷ [] else [])

abbrev or_inferred : Record → List Text → List Text
or_inferred r [] = inferred_types r
or_inferred r (t ∷ ts) = t ∷ ts

abbrev pub types_of : Record → List Text
types_of r = or_inferred r r.data_types

-- What the loop over data types has found: nothing forbids storage, a review is needed, the retentions.
pub record Found : Type 0 where
  pub allowed : Bool
  pub to_review : Bool
  pub retentions : List ℕ

abbrev with_retention : Option ℕ → List ℕ → List ℕ
with_retention none days = days
with_retention (some n) days = n ∷ days

abbrev pub ruled : Option Rule → Found → Found
ruled none f = record f { to_review = true }
ruled (some rule) f = record {
  allowed = f.allowed && not rule.storage_forbidden;
  to_review = f.to_review || rule.needs_review;
  retentions = with_retention rule.retention_days f.retentions;
}

unfoldable pub check_types : Policy → List Text → Found
check_types p [] = record { allowed = true; to_review = false; retentions = [] }
check_types p (t ∷ ts) = ruled (rule_of t p.data_types) (check_types p ts)

abbrev pub is_approved_source : Option Bool → Bool
is_approved_source none = false
is_approved_source (some approved) = approved

unfoldable pub all_approved : Policy → List Text → Bool
all_approved p [] = true
all_approved p (s ∷ ss) = is_approved_source (rule_of s p.source_types) && all_approved p ss

-- No recorded provenance is no approved source.
abbrev pub sources_approved : Policy → List Text → Bool
sources_approved p [] = false
sources_approved p (s ∷ ss) = all_approved p (s ∷ ss)

abbrev pub purpose_of : Option Text → Text
purpose_of none = text "lead_generation"
purpose_of (some purpose) = purpose

abbrev pub least : ℕ → List ℕ → ℕ
least n [] = n
least n (m ∷ ms) = min n (least m ms)

abbrev pub retention_of : ℕ → List ℕ → ℕ
retention_of default [] = default
retention_of default (n ∷ ns) = least n ns

abbrev pub decided : Bool → Bool → Decision
decided false to_review = rejected
decided true true = review
decided true false = accepted

unfoldable pub evaluate : Policy → ℕ → Record → Outcome
evaluate p now r =
    let found = check_types p (types_of r) in
    let approved = sources_approved p r.sources in
    let to_review =
      found.to_review || (not approved || not (contains p.purposes (purpose_of r.purpose))) in
    let days = retention_of p.default_retention_days found.retentions in
    record {
      storage_allowed = found.allowed;
      requires_review = to_review;
      retention_days = days;
      expires_at = now + days * 86400;
      is_approved = approved;
      decision = decided found.allowed to_review;
    }
