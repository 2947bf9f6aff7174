-- ===== src/Domain/Scoring.antt =====
-- domain/intelligence/scoring.py. Every score that `compute_score` produces is a whole number, so
-- scores are numbers here; an explanation is a value with the numbers of its text.
pub mod Laws
use lead_engine.Prelude.{
  ℕ, ◌+◌, ◌*◌, ◌≤◌, ◌≡◌, refl, min, Bool, true, false, not, ◌&&◌, ◌||◌, Option, none, some, List,
  [], ◌∷◌, ◌++◌, ltb, leb, ◌==◌, if◌then◌else◌, Text,
}
use lead_engine.Domain.Verification.{
  VerificationStatus, deliverable, risky, catch_all, invalid, unknown,
}

pub record ScoreInputs : Type 0 where
  pub has_website : Bool
  pub has_phone_claim : Bool
  pub observation_count : ℕ
  pub distinct_source_count : ℕ
  pub best_email_status : Option VerificationStatus
  pub intent_signal_count : ℕ
  pub icp_city_match : Bool

pub data Explanation : Type 0 where
  website_found deliverable_email risky_email phone_claim evidence_rich city_match : Explanation
  distinct_sources : ℕ → ℕ → Explanation
  intent_signals : ℕ → Explanation

pub record ScoreResult : Type 0 where
  pub score : ℕ
  pub explanations : List Explanation

-- score += points; explanations.append(why), under a test.
gain : Bool → ℕ → Explanation → ScoreResult → ScoreResult
gain b points why r = record {
  score = r.score + (if b then points else 0);
  explanations = if b then r.explanations ++ why ∷ [] else r.explanations;
}

abbrev pub is_deliverable_email : Option VerificationStatus → Bool
is_deliverable_email (some deliverable) = true
is_deliverable_email _ = false

abbrev pub is_risky_email : Option VerificationStatus → Bool
is_risky_email (some risky) = true
is_risky_email (some catch_all) = true
is_risky_email _ = false

-- The score before the cap. The two tests of the email status exclude each other.
tally : ScoreInputs → ScoreResult
tally i =
    let start : ScoreResult = record { score = 0; explanations = [] } in
    let r1 = gain i.has_website 20 website_found start in
    let r2 = gain (is_deliverable_email i.best_email_status) 25 deliverable_email r1 in
    let r3 = gain (is_risky_email i.best_email_status) 10 risky_email r2 in
    let r4 = gain i.has_phone_claim 15 phone_claim r3 in
    let sources = min i.distinct_source_count 3 in
    let r5 =
      gain (ltb 0 i.distinct_source_count) (sources * 5) (distinct_sources sources (sources * 5))
        r4 in
    let r6 = gain (leb 3 i.observation_count) 10 evidence_rich r5 in
    let signals = min i.intent_signal_count 2 in
    let r7 = gain (ltb 0 i.intent_signal_count) (signals * 5) (intent_signals signals) r6 in
    gain i.icp_city_match 5 city_match r7

unfoldable pub compute_score : ScoreInputs → ScoreResult
unfolding tally gain
compute_score i = record (tally i) { score = min (tally i).score 100 }

pub data QualificationDecision : Type 0 where
  accepted review rejected : QualificationDecision

-- The values that `policy_decision` is compared with, and any other text.
pub data PolicyDecision : Type 0 where
  allowed blocked needs_review : PolicyDecision

pub record QualificationInputs : Type 0 where
  pub score : ℕ
  pub domain : Option Text
  pub email_status : Option VerificationStatus
  pub suppressed : Bool
  pub policy_decision : PolicyDecision

pub data Reason : Type 0 where
  subject_suppressed policy_blocked email_invalid no_domain policy_review : Reason
  score_accepted score_review score_low : ℕ → Reason

abbrev pub is_blocked : PolicyDecision → Bool
is_blocked blocked = true
is_blocked _ = false

abbrev pub is_needs_review : PolicyDecision → Bool
is_needs_review needs_review = true
is_needs_review _ = false

abbrev pub is_invalid_email : Option VerificationStatus → Bool
is_invalid_email (some invalid) = true
is_invalid_email _ = false

-- `not domain` holds of None and of the empty text.
abbrev pub is_blank : Option Text → Bool
is_blank none = true
is_blank (some []) = true
is_blank (some (c ∷ s)) = false

unfoldable pub decide : QualificationInputs → QualificationDecision × List Reason
decide i =
    if i.suppressed
    then (rejected, subject_suppressed ∷ [])
    else if is_blocked i.policy_decision
    then (rejected, policy_blocked ∷ [])
    else if is_invalid_email i.email_status
    then (rejected, email_invalid ∷ [])
    else if is_blank i.domain
    then (review, no_domain ∷ [])
    else if is_needs_review i.policy_decision
    then (review, policy_review ∷ [])
    else if leb 60 i.score
    then (accepted, score_accepted i.score ∷ [])
    else if leb 35 i.score
    then (review, score_review i.score ∷ [])
    else (rejected, score_low i.score ∷ [])
