-- ===== src/Domain/Policy.antt =====
-- domain/governance/policy.py: the governance gate. A rule list that is missing or None is empty, as
-- `rules.get(…) or []` reads it; the reason's sentence is a value with the texts that fill it.
pub mod Gates
use lead_engine.Prelude.{
  ℕ, ◌≡◌, Bool, true, false, not, ◌&&◌, ◌||◌, Option, none, some, List, [], ◌∷◌, map, if◌then◌else◌,
  Text, text, text_eq, contains, ends_with, lower, upper, any,
}

pub data GovernanceDecision : Type 0 where
  allowed blocked needs_review : GovernanceDecision

pub data LegalBasis : Type 0 where
  prohibited_operation suppression regulated_operation restricted_region : LegalBasis
  region_allowlist general_basis no_policy_fail_closed : LegalBasis

pub data Reason : Type 0 where
  operation_blocked operation_review domain_suppressed country_restricted : Text → Reason
  country_not_allowlisted no_adopted_policy : Text → Reason
  allowed_by_default : Reason

pub record PolicyInput : Type 0 where
  pub operation : Text
  pub country : Option Text
  pub subject_kind : Option Text
  pub subject_value : Option Text
  pub target_country : Option Text  -- context["target_country"]

pub record Rules : Type 0 where
  pub blocked_operations : List Text
  pub review_operations : List Text
  pub blocked_countries : List Text
  pub require_country_allowlist : Bool
  pub country_allowlist : List Text
  pub suppressed_domains : List Text

abbrev pub Ruling : Type 0
Ruling = GovernanceDecision × LegalBasis × Reason

unfoldable pub fail_closed : PolicyInput → Ruling
fail_closed i = (blocked, no_policy_fail_closed, no_adopted_policy i.operation)

-- `a or b` on texts: None and the empty text are false.
abbrev pub first_text : Option Text → Text → Text
first_text none t = t
first_text (some []) t = t
first_text (some (c ∷ s)) t = c ∷ s

abbrev is_domain_kind : Option Text → Bool
is_domain_kind none = false
is_domain_kind (some k) = text_eq k (text "domain")

-- domain == d or domain.endswith("." + d)
pub covers : Text → Text → Bool
covers domain d = text_eq domain d || ends_with domain (b'.' ∷ d)

unfoldable pub suppressed : Rules → Text → Bool
suppressed r domain = any (covers domain) r.suppressed_domains

abbrev pub domain_is_suppressed : Rules → Text → Bool
domain_is_suppressed r [] = false
domain_is_suppressed r (c ∷ s) = suppressed r (lower (c ∷ s))

-- The domain that the rule on subjects looks at, or the empty text.
abbrev pub subject_domain : PolicyInput → Text
subject_domain i = if is_domain_kind i.subject_kind then first_text i.subject_value [] else []

abbrev pub country_is_blocked : Rules → Text → Bool
country_is_blocked r [] = false
country_is_blocked r (c ∷ s) = contains (map upper r.blocked_countries) (upper (c ∷ s))

unfoldable pub target : PolicyInput → Text
target i = upper (first_text i.country (first_text i.target_country []))

abbrev pub not_allowlisted : Rules → PolicyInput → Bool
not_allowlisted r i =
    r.require_country_allowlist && not (contains (map upper r.country_allowlist) (target i))

unfoldable pub evaluate : Rules → PolicyInput → Ruling
evaluate r i =
    if contains r.blocked_operations i.operation
    then (blocked, prohibited_operation, operation_blocked i.operation)
    else if domain_is_suppressed r (subject_domain i)
    then (blocked, suppression, domain_suppressed (lower (subject_domain i)))
    else if contains r.review_operations i.operation
    then (needs_review, regulated_operation, operation_review i.operation)
    else if country_is_blocked r (first_text i.country [])
    then (blocked, restricted_region, country_restricted (first_text i.country []))
    else if not_allowlisted r i
    then (
      blocked,
      region_allowlist,
      country_not_allowlisted (first_text (some (target i)) (text "unknown")),
    )
    else (allowed, general_basis, allowed_by_default)

unfoldable pub default_rules : Rules
default_rules = record {
  blocked_operations = text "email.outbound_without_approval" ∷ [];
  review_operations = text "email.outbound" ∷ [];
  blocked_countries = [];
  require_country_allowlist = false;
  country_allowlist = [];
  suppressed_domains = text "gov" ∷ text "edu" ∷ text "mil" ∷ [];
}
