-- ===== src/Examples/Permits.antt =====
-- lead_engine/pipeline/legal_gate.py on a record with an approved source and one without any.
use lead_engine.Prelude.{
  ◌≡◌, ◌≢◌, ◌↔◌, refl, true, false, none, some, [], ◌∷◌, text, text_eq, contains, All,
}
use lead_engine.LegalGate.{
  Policy, Record, accepted, review, rule_of, check_types, all_approved, types_of, purpose_of,
  evaluate,
}
use lead_engine.LegalGate.Denial.{
  AreCleared, AreApproved, IsWithin, evaluate-accepted_iff, evaluate-IsWithin,
}

abbrev policy : Policy
policy = record {
  data_types =
      (
        text "company_public_data",
        record { storage_forbidden = false; needs_review = false; retention_days = some 90 },
      )
      ∷ [];
  source_types = (text "search_api", true) ∷ [];
  purposes = text "lead_generation" ∷ [];
  default_retention_days = 30;
}

abbrev clinic : Record
clinic = record {
  data_types = [];
  sources = text "search_api" ∷ [];
  purpose = none;
  email = none;
  phone = none;
}

is_accepted : (evaluate policy 0 clinic).decision ≡ accepted
unfolding evaluate check_types all_approved rule_of text_eq contains
is_accepted = refl

unsourced : (evaluate policy 0 (record clinic { sources = [] })).decision ≡ review
unfolding evaluate check_types all_approved rule_of text_eq contains
unsourced = refl

evaluate-accepted_iff_example : ((evaluate policy 0 clinic).decision ≡ accepted) ↔ (
    AreCleared policy (types_of clinic)
    × ((clinic.sources ≢ []) × AreApproved policy clinic.sources)
    × (contains policy.purposes (purpose_of clinic.purpose) ≡ true))
evaluate-accepted_iff_example = evaluate-accepted_iff policy 0 clinic

evaluate-IsWithin_example :
    All
      (λ t. IsWithin (evaluate policy 0 clinic).retention_days (rule_of t policy.data_types))
      (types_of clinic)
evaluate-IsWithin_example = evaluate-IsWithin policy 0 clinic
