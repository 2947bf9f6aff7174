-- ===== src/Domain/Scoring/Laws.antt =====
-- The score is the sum of what its explanations say, and qualification is a gate before it is a score.
use lead_engine.Prelude.{
  ℕ, ◌+◌, ◌*◌, ◌≤◌, ◌≡◌, ◌↔◌, refl, sym, ◌∙◌, min, Bool, true, false, Option, List, [], ◌∷◌, ◌++◌,
  arith, leb, if◌then◌else◌,
}
use lead_engine.Domain.Verification.{VerificationStatus}
use lead_engine.Domain.Scoring.{
  ScoreInputs, Explanation, website_found, deliverable_email, risky_email, phone_claim,
  evidence_rich, city_match, distinct_sources, intent_signals, ScoreResult, is_deliverable_email,
  is_risky_email, compute_score, gain, tally, QualificationDecision, accepted, review, rejected,
  QualificationInputs, is_blocked, is_needs_review, is_invalid_email, is_blank, decide,
}

-- The points that an explanation's text names; an intent signal is worth five.
abbrev pub points : Explanation → ℕ
points website_found = 20
points deliverable_email = 25
points risky_email = 10
points phone_claim = 15
points evidence_rich = 10
points city_match = 5
points (distinct_sources n p) = p
points (intent_signals n) = n * 5

abbrev pub total : List Explanation → ℕ
total [] = 0
total (x ∷ xs) = points x + total xs

abbrev pub email_points : Option VerificationStatus → ℕ
email_points s = (if is_deliverable_email s then 25 else 0) + (if is_risky_email s then 10 else 0)

pub score_sum :
    (i : ScoreInputs)
    → (compute_score i).score
      ≡ (if i.has_website then 20 else 0)
        + email_points i.best_email_status
        + (if i.has_phone_claim then 15 else 0)
        + min i.distinct_source_count 3 * 5
        + (if leb 3 i.observation_count then 10 else 0)
        + min i.intent_signal_count 2 * 5
        + (if i.icp_city_match then 5 else 0)
unfolding compute_score
score_sum i = ground arith

abbrev IsTally : ScoreResult → Type 0
IsTally r = total r.explanations ≡ r.score

total-append : (xs ys : List Explanation) → total (xs ++ ys) ≡ total xs + total ys
total-append [] ys = omega arith
total-append (x ∷ xs) ys = omega (arith, total-append xs ys)

gain-IsTally :
    (b : Bool) (n : ℕ) (why : Explanation) (r : ScoreResult)
    → points why ≡ n
    → IsTally r
    → IsTally (gain b n why r)
unfolding gain
gain-IsTally true n why r e t = omega (arith, total-append r.explanations (why ∷ []))
gain-IsTally false n why r e t = omega arith

tally-IsTally : (i : ScoreInputs) → IsTally (tally i)
unfolding tally
tally-IsTally i = gain-IsTally _ _ _ _ refl (
    gain-IsTally _ _ _ _ refl (
      gain-IsTally _ _ _ _ refl (
        gain-IsTally _ _ _ _ refl (
          gain-IsTally _ _ _ _ refl (
            gain-IsTally _ _ _ _ refl
              (gain-IsTally _ _ _ _ refl (gain-IsTally _ _ _ _ refl refl)))))))

tally_le : (i : ScoreInputs) → (tally i).score ≤ 100
unfolding tally gain
tally_le i = ground arith

capped : (s : ℕ) → s ≤ 100 → min s 100 ≡ s
capped s h = omega arith

-- Every point of the score is accounted for by an explanation: the points that the explanations
-- name add up to the score, and the cap at 100 never cuts it.
pub score-total : (i : ScoreInputs) → total (compute_score i).explanations ≡ (compute_score i).score
unfolding compute_score
score-total i = tally-IsTally i ∙ sym (capped (tally i).score (tally_le i))

-- What speaks for a lead: more of each input, and an email status that earns no less.
pub record IsNoWorse (i j : ScoreInputs) : Type 0 where
  pub website : i.has_website ≡ true → j.has_website ≡ true
  pub phone : i.has_phone_claim ≡ true → j.has_phone_claim ≡ true
  pub observations : i.observation_count ≤ j.observation_count
  pub sources : i.distinct_source_count ≤ j.distinct_source_count
  pub email : email_points i.best_email_status ≤ email_points j.best_email_status
  pub intents : i.intent_signal_count ≤ j.intent_signal_count
  pub city : i.icp_city_match ≡ true → j.icp_city_match ≡ true

flag_mono :
    (b c : Bool) (n : ℕ) → (b ≡ true → c ≡ true) → (if b then n else 0) ≤ (if c then n else 0)
flag_mono true c n h = rw (h refl) (omega arith)
flag_mono false c n h = omega arith

-- Better evidence never lowers the score.
pub score_mono :
    (i j : ScoreInputs) → IsNoWorse i j → (compute_score i).score ≤ (compute_score j).score
score_mono i j h =
    rw (score_sum i, score_sum j)
      (omega (
        arith,
        flag_mono i.has_website j.has_website 20 h.website,
        flag_mono i.has_phone_claim j.has_phone_claim 15 h.phone,
        flag_mono (leb 3 i.observation_count) (leb 3 j.observation_count) 10 many,
        flag_mono i.icp_city_match j.icp_city_match 5 h.city,
        h.email,
        h.sources,
        h.intents,
      ))
  where
    many : leb 3 i.observation_count ≡ true → leb 3 j.observation_count ≡ true
    many e = ground (arith, h.observations)

-- A lead is accepted exactly if no gate stops it and its score reaches 60: it is not suppressed, the
-- policy neither blocks it nor asks for a review, its email is not INVALID and it has a domain.
pub decide-accepted_iff :
    (i : QualificationInputs)
    → ((decide i).0 ≡ accepted) ↔ (
        (i.suppressed ≡ false)
        × (is_blocked i.policy_decision ≡ false)
        × (is_invalid_email i.email_status ≡ false)
        × (is_blank i.domain ≡ false)
        × (is_needs_review i.policy_decision ≡ false)
        × (60 ≤ i.score))
unfolding decide
decide-accepted_iff i = ground arith

abbrev pub decision_rank : QualificationDecision → ℕ
decision_rank rejected = 0
decision_rank review = 1
decision_rank accepted = 2

-- A higher score never gives a worse decision, all else equal.
pub decide_mono :
    (i : QualificationInputs) (s : ℕ)
    → i.score ≤ s
    → decision_rank (decide i).0 ≤ decision_rank (decide (record i { score = s })).0
unfolding decide
decide_mono i s h = ground arith
