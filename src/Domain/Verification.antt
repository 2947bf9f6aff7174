-- ===== src/Domain/Verification.antt =====
-- domain/intelligence/verification.py, and the statuses of domain/shared/types.py.
pub mod Evidence
use lead_engine.Prelude.{ℕ, ◌≡◌, refl, Bool, true, false, not, ◌&&◌, List, [], ◌∷◌, if◌then◌else◌}

pub data VerificationStatus : Type 0 where
  deliverable risky catch_all invalid unknown : VerificationStatus

-- The two keys of the evidence dict that are read.
pub record EvidenceMarks : Type 0 where
  pub smtp_accepted : Bool
  pub provider_verified : Bool

abbrev pub is_deliverable : VerificationStatus → Bool
is_deliverable deliverable = true
is_deliverable _ = false

abbrev pub is_catch_all : VerificationStatus → Bool
is_catch_all catch_all = true
is_catch_all _ = false

unfoldable pub promote :
    VerificationStatus → VerificationStatus → EvidenceMarks → VerificationStatus
promote previous new evidence =
    if is_deliverable previous
    then deliverable
    else if is_deliverable new && is_catch_all previous && not evidence.smtp_accepted
    then catch_all
    else if is_deliverable new && not evidence.provider_verified && not evidence.smtp_accepted
    then unknown
    else new

pub data Worthiness : Type 0 where
  usable usable_with_risk weak unusable : Worthiness

unfoldable pub qualification_worthiness : VerificationStatus → Worthiness
qualification_worthiness deliverable = usable
qualification_worthiness risky = usable_with_risk
qualification_worthiness catch_all = weak
qualification_worthiness unknown = weak
qualification_worthiness invalid = unusable
