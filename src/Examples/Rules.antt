-- ===== src/Examples/Rules.antt =====
-- The rules of domain/ on concrete leads, plans and operations.
use lead_engine.Prelude.{
  any, contains, text_eq, upper, ◌↔◌, ◌≤◌, ◌≡◌, refl, true, false, none, some, List, [], ◌∷◌, ◌++◌,
  arith, text, lower, map,
}
use lead_engine.Domain.Verification.{
  VerificationStatus, EvidenceMarks, deliverable, risky, unknown, promote,
}
use lead_engine.Domain.Verification.Evidence.{is_proof, promote_all, promote_all-needs_proof}
use lead_engine.Domain.Scoring.{ScoreInputs, compute_score, QualificationInputs, allowed}
use lead_engine.Domain.Scoring.Laws.{IsNoWorse, score_mono}
use lead_engine.Domain.Policy.{
  target, PolicyInput, Rules, evaluate, blocked, suppressed, subject_domain, domain_is_suppressed,
  country_is_blocked, first_text, not_allowlisted, default_rules,
}
use lead_engine.Domain.Policy
use lead_engine.Domain.Policy.Gates.{evaluate-allowed_iff, IsTighter, tighter_allows_less}
use lead_engine.Domain.Icp.{Icp, entry, plain}

abbrev no_marks : EvidenceMarks
no_marks = record { smtp_accepted = false; provider_verified = false }

abbrev by_provider : EvidenceMarks
by_provider = record { smtp_accepted = false; provider_verified = true }

abbrev two_results : List (VerificationStatus × EvidenceMarks)
two_results = (risky, no_marks) ∷ (deliverable, by_provider) ∷ []

became_deliverable : promote_all unknown two_results ≡ deliverable
unfolding promote_all promote
became_deliverable = refl

promote_all-needs_proof_example : any is_proof two_results ≡ true
promote_all-needs_proof_example =
    promote_all-needs_proof unknown two_results (λ h. cc) became_deliverable

abbrev thin_lead : ScoreInputs
thin_lead = record {
  has_website = true;
  has_phone_claim = false;
  observation_count = 2;
  distinct_source_count = 1;
  best_email_status = some risky;
  intent_signal_count = 0;
  icp_city_match = false;
}

abbrev rich_lead : ScoreInputs
rich_lead = record {
  has_website = true;
  has_phone_claim = true;
  observation_count = 9;
  distinct_source_count = 5;
  best_email_status = some deliverable;
  intent_signal_count = 3;
  icp_city_match = true;
}

rich_lead-score : (compute_score rich_lead).score ≡ 100
unfolding compute_score
rich_lead-score = refl

rich-IsNoWorse : IsNoWorse thin_lead rich_lead
rich-IsNoWorse = record {
  website = λ h. h;
  phone = λ h. refl;
  observations = omega arith;
  sources = omega arith;
  email = omega arith;
  intents = omega arith;
  city = λ h. refl;
}

score_mono_example : (compute_score thin_lead).score ≤ (compute_score rich_lead).score
score_mono_example = score_mono thin_lead rich_lead rich-IsNoWorse

abbrev open_lead : QualificationInputs
open_lead = record {
  score = 60;
  policy_decision = allowed;
  email_status = some risky;
  domain = some (text "acme.com");
  suppressed = false;
}

abbrev some_rules : Rules
some_rules = record {
  blocked_operations = text "scrape" ∷ [];
  review_operations = text "export" ∷ [];
  blocked_countries = text "kp" ∷ [];
  require_country_allowlist = true;
  country_allowlist = text "sa" ∷ [];
  suppressed_domains = text "acme.com" ∷ [];
}

-- The same rules without a suppressed domain.
abbrev looser_rules : Rules
looser_rules = record some_rules { suppressed_domains = [] }

abbrev lookup_in_shop : PolicyInput
lookup_in_shop = record {
  operation = text "lookup";
  country = some (text "SA");
  subject_kind = some (text "domain");
  subject_value = some (text "Shop.ACME.com");
  target_country = none;
}

abbrev lookup : PolicyInput
lookup = record {
  operation = text "lookup";
  country = some (text "SA");
  subject_kind = none;
  subject_value = none;
  target_country = none;
}

evaluate-allowed_iff_example : ((evaluate some_rules lookup).0 ≡ Policy.allowed) ↔ (
    (contains some_rules.blocked_operations lookup.operation ≡ false)
    × (domain_is_suppressed some_rules (subject_domain lookup) ≡ false)
    × (contains some_rules.review_operations lookup.operation ≡ false)
    × (country_is_blocked some_rules (first_text lookup.country []) ≡ false)
    × (not_allowlisted some_rules lookup ≡ false))
evaluate-allowed_iff_example = evaluate-allowed_iff some_rules lookup

shop_is_subdomain : lower (text "Shop.ACME.com") ≡ text "shop" ++ b'.' ∷ text "acme.com"
unfolding lower
shop_is_subdomain = refl

shop_is_subject : subject_domain lookup_in_shop ≡ text "Shop.ACME.com"
unfolding text_eq
shop_is_subject = refl

abbrev lookup_nowhere : PolicyInput
lookup_nowhere = record lookup { country = none }

no_empty_country : contains (map upper some_rules.country_allowlist) [] ≡ false
unfolding contains upper text_eq
no_empty_country = refl

some_rules-IsTighter : IsTighter looser_rules some_rules
unfolding contains
some_rules-IsTighter = record {
  operations = λ o h. h;
  reviews = λ o h. h;
  countries = λ c h. h;
  domains = λ d h. cc;
  required = λ h. h;
  allowlist = λ c h. h;
}

lookup_allowed : (evaluate some_rules lookup).0 ≡ Policy.allowed
unfolding evaluate contains text_eq upper any target
lookup_allowed = refl

tighter_allows_less_example : (evaluate looser_rules lookup).0 ≡ Policy.allowed
tighter_allows_less_example =
    tighter_allows_less looser_rules some_rules lookup some_rules-IsTighter lookup_allowed

abbrev two_cities : Icp
two_cities = record {
  cities = entry (text "Riyadh") none ∷ plain (text "Jeddah") ∷ [];
  keywords_en = text "dentist" ∷ text "clinic" ∷ [];
  keywords_ar = [];
  max_search_queries = some 3;
  search_results_per_query = none;
}
