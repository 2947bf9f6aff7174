-- ===== src/Leasing/Attempts.antt =====
-- The attempt budget, and the columns that no call writes.
use lead_engine.Prelude.{ℕ, ◌≤◌, ◌≡◌, some, List, arith}
use lead_engine.Sql.Keyed.{find_row}
use lead_engine.Job.{Job, key}
use lead_engine.Leasing.Calls.{Call, run}
use lead_engine.Leasing.Steps.{RowChange, RowChanges, claimed, renewed, was_parked, unchanged, also}
use lead_engine.Leasing.Histories.{HasUniqueIds, run-Becomes}

-- Who the job is and what it may do: set at its creation.
pub record SameJob (a b : Job) : Type 0 where
  pub org_id : b.org_id ≡ a.org_id
  pub campaign_id : b.campaign_id ≡ a.campaign_id
  pub job_type : b.job_type ≡ a.job_type
  pub queue : b.queue ≡ a.queue
  pub payload : b.payload ≡ a.payload
  pub max_attempts : b.max_attempts ≡ a.max_attempts
  pub priority : b.priority ≡ a.priority
  pub created_at : b.created_at ≡ a.created_at

-- A row within its attempt budget stays within it, and a first start is never forgotten.
pub record KeepsBudget (a b : Job) : Type 0 where
  pub same : SameJob a b
  pub budget : a.attempts ≤ a.max_attempts → b.attempts ≤ b.max_attempts
  pub started : (t : ℕ) → a.started_at ≡ some t → b.started_at ≡ some t

RowChange-SameJob : {a b : Job} → RowChange a b → SameJob a b
RowChange-SameJob (claimed queues worker secs token now e) = ground arith
RowChange-SameJob (renewed token secs now) = ground arith
RowChange-SameJob _ = ground arith

RowChange-budget :
    {a b : Job} → RowChange a b → a.attempts ≤ a.max_attempts → b.attempts ≤ b.max_attempts
RowChange-budget (claimed queues worker secs token now e) h = ground arith
RowChange-budget (was_parked reason now) h = omega arith
RowChange-budget _ h = h

RowChange-started :
    {a b : Job} (t : ℕ) → RowChange a b → a.started_at ≡ some t → b.started_at ≡ some t
RowChange-started t (claimed queues worker secs token now e) h = ground arith
RowChange-started t _ h = h

RowChanges-KeepsBudget : {a b : Job} → RowChanges a b → KeepsBudget a b
RowChanges-KeepsBudget unchanged = record {
  same = ground arith;
  budget = λ h. h;
  started = λ t h. h;
}
RowChanges-KeepsBudget (also r change) =
    let before = RowChanges-KeepsBudget r in
    let same = RowChange-SameJob change in
    record {
      same = ground arith;
      budget = λ h. RowChange-budget change (before.budget h);
      started = λ t h. RowChange-started t change (before.started t h);
    }

-- Along every history the row of a job stays in the table, keeps the columns set at its creation,
-- never exceeds its attempt budget once within it, and keeps its first start time. Job ids are
-- unique at the start.
pub run-KeepsBudget :
    (id : ℕ) (jobs : List Job)
    → HasUniqueIds jobs
    → (a : Job) → find_row key id jobs ≡ some a
    → (cs : List Call) → (b : Job) × (find_row key id (run cs jobs) ≡ some b) × KeepsBudget a b
run-KeepsBudget id jobs unique a found cs =
    let (b, at, changes) = run-Becomes id cs jobs unique a found in
    (b, at, RowChanges-KeepsBudget changes)
