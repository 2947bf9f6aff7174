-- ===== src/Gateway/Ledger.antt =====
-- The table effects.effect_ledger, `_Ledger` and `_spent_cents` of
-- infrastructure/providers/gateway.py.
use lead_engine.Prelude.{
  ℕ, ◌+◌, Bool, true, false, ◌&&◌, Option, none, some, List, [], ◌∷◌, ◌++◌, ◌==◌, if◌then◌else◌,
  is_value, Text, text_eq,
}
use lead_engine.Sql.{update_where, select_one}

pub data FailureClass : Type 0 where
  transient rate_limit capacity auth : FailureClass
  validation not_supported permanent ambiguous : FailureClass

pub data Status : Type 0 where
  reserved succeeded failed uncertain : Status

pub record Effect : Type 0 where
  pub id : ℕ
  pub org_id : ℕ
  pub job_id : Option ℕ
  pub idempotency_key : Text
  pub status : Status
  pub cost_cents : ℕ

abbrev pub key : Effect → ℕ
key e = e.id

pub record Effects : Type 0 where
  pub rows : List Effect
  pub next_id : ℕ

abbrev pub is_failed : Status → Bool
is_failed failed = true
is_failed _ = false

abbrev pub is_succeeded : Status → Bool
is_succeeded succeeded = true
is_succeeded _ = false

abbrev pub reopened : Effect → Effect
reopened e = record e { status = reserved }

abbrev pub new_effect : ℕ → ℕ → Option ℕ → Text → Effect
new_effect id org_id job_id idempotency_key = record {
  id = id;
  org_id = org_id;
  job_id = job_id;
  idempotency_key = idempotency_key;
  status = reserved;
  cost_cents = 0;
}

abbrev reserve_found : ℕ → Option ℕ → Text → Option Effect → Effects → ℕ × Bool × Effects
reserve_found org_id job_id k none l = (
  l.next_id,
  false,
  record { rows = l.rows ++ new_effect l.next_id org_id job_id k ∷ []; next_id = l.next_id + 1 },
)
reserve_found org_id job_id k (some e) l =
    if is_failed e.status
    then (e.id, false, record l { rows = update_where (λ x. x.id == e.id) reopened l.rows })
    else (e.id, is_succeeded e.status, l)

-- (effect_id, already_effected), and the ledger.
unfoldable pub reserve : ℕ → Option ℕ → Text → Effects → ℕ × Bool × Effects
reserve org_id job_id k l =
    reserve_found org_id job_id k (select_one (λ e. text_eq e.idempotency_key k) l.rows) l

abbrev pub is_ambiguous : Option FailureClass → Bool
is_ambiguous (some ambiguous) = true
is_ambiguous _ = false

abbrev pub final_status : Bool → Option FailureClass → Status
final_status ok failure =
    if ok then succeeded else if is_ambiguous failure then uncertain else failed

abbrev pub completed : Bool → ℕ → Option FailureClass → Effect → Effect
completed ok cost_cents failure e = record e {
  status = final_status ok failure;
  cost_cents = cost_cents;
}

unfoldable pub complete : ℕ → Bool → ℕ → Option FailureClass → Effects → Effects
complete id ok cost_cents failure l = record l {
  rows = update_where (λ e. e.id == id) (completed ok cost_cents failure) l.rows;
}

abbrev pub is_booked_to : ℕ → ℕ → Effect → Bool
is_booked_to org_id job_id e = e.org_id == org_id && is_value e.job_id job_id

-- SUM(cost_cents) over the job's effects.
unfoldable pub booked : ℕ → ℕ → List Effect → ℕ
booked org_id job_id [] = 0
booked org_id job_id (e ∷ rows) =
    (if is_booked_to org_id job_id e then e.cost_cents else 0) + booked org_id job_id rows

unfoldable pub spent_cents : ℕ → Option ℕ → Effects → ℕ
spent_cents org_id none l = 0
spent_cents org_id (some job_id) l = booked org_id job_id l.rows
