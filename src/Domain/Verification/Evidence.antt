-- ===== src/Domain/Verification/Evidence.antt =====
-- What it takes to become DELIVERABLE.
use lead_engine.Prelude.{
  ◌≡◌, ◌≢◌, refl, inl, inr, Bool, true, false, not, ◌||◌, ◌&&◌, List, [], ◌∷◌, arith, any,
  Bool-cases,
}
use lead_engine.Domain.Verification.{
  VerificationStatus, deliverable, EvidenceMarks, is_deliverable, is_catch_all, promote,
}

-- One result makes a contact DELIVERABLE exactly if it was DELIVERABLE, or the result says so with an
-- SMTP acceptance, or with a provider's word where the domain was not CATCH_ALL.
pub promote-deliverable_iff :
    (previous new : VerificationStatus) (e : EvidenceMarks)
    → is_deliverable (promote previous new e) ≡ (
        is_deliverable previous
        || (is_deliverable new
            && (e.smtp_accepted || (e.provider_verified && not (is_catch_all previous)))))
unfolding promote
promote-deliverable_iff previous new e = ground arith

-- A result that carries evidence of a working mailbox.
abbrev pub is_proof : VerificationStatus × EvidenceMarks → Bool
is_proof (s, e) = is_deliverable s && (e.smtp_accepted || e.provider_verified)

-- The status after any sequence of promotions of one contact, each from the status that the one
-- before it left.
unfoldable pub promote_all :
    VerificationStatus → List (VerificationStatus × EvidenceMarks) → VerificationStatus
promote_all status [] = status
promote_all status ((new, evidence) ∷ results) = promote_all (promote status new evidence) results

promote_all-deliverable :
    (rs : List (VerificationStatus × EvidenceMarks)) → promote_all deliverable rs ≡ deliverable
unfolding promote_all promote
promote_all-deliverable [] = refl
promote_all-deliverable ((s, e) ∷ rs) = promote_all-deliverable rs

-- However the results are ordered, a contact that was not DELIVERABLE becomes so only if one of
-- them said DELIVERABLE with an SMTP acceptance or a provider's word.
pub promote_all-needs_proof :
    (status : VerificationStatus) (rs : List (VerificationStatus × EvidenceMarks))
    → status ≢ deliverable
    → promote_all status rs ≡ deliverable
    → any is_proof rs ≡ true
unfolding promote_all any
promote_all-needs_proof status [] start h = absurd (start h)
promote_all-needs_proof status ((s, e) ∷ rs) start h = elim (Bool-cases (is_proof (s, e))) [
  | inl proof ↦ rw proof refl
  | inr unproved ↦
      rw unproved
        (promote_all-needs_proof (promote status s e) rs (still status s e start unproved) h)
]
  where
    still :
        (status s : VerificationStatus) (e : EvidenceMarks)
        → status ≢ deliverable
        → is_proof (s, e) ≡ false
        → promote status s e ≢ deliverable
    still status s e start unproved = unfold promote in ground arith

-- Once DELIVERABLE, a contact is never downgraded, whatever the later results.
pub promote_all-keeps_deliverable :
    (before after : List (VerificationStatus × EvidenceMarks)) (status : VerificationStatus)
    → promote_all status before ≡ deliverable
    → promote_all (promote_all status before) after ≡ deliverable
promote_all-keeps_deliverable before after status h = rw h (promote_all-deliverable after)
