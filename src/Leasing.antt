-- ===== src/Leasing.antt =====
-- runtime/leasing.py: claiming with fencing. A function takes the rows of runtime.jobs and returns
-- them beside its result; `now` is the database's clock in the transaction, and a fresh UUID is an
-- argument.
pub mod Rows
pub mod Calls
pub mod Steps
pub mod Claim
pub mod Histories
pub mod Fencing
pub mod Ends
pub mod Attempts
pub mod Reaper
pub mod Parking
use mathlib.Core.Bool.{not}
use lead_engine.Prelude.{
  ℕ, ◌+◌, ◌-◌, ◌≤◌, ◌<◌, ◌≡◌, Bool, true, false, ◌&&◌, ◌||◌, List, [], ◌∷◌, ◌++◌, Option, none,
  some, map, ltb, leb, ◌==◌, if◌then◌else◌, is_value, is_some, or_else, length, take, sort_by, Text,
  text, text_eq, contains, starts_with,
}
use lead_engine.Sql.{
  update_where, count_where, select_where, select_one, update_first, select_first,
}
use lead_engine.Sql.Keyed.{find_row, has_key}
use lead_engine.Sql.Ordered.{first_by}
use lead_engine.Job.{
  JobState, Job, Lease, key, queued, planning, ready_for_review, waiting_for_capacity, cancelling,
  cancelled, failed, is_active, is_open, is_queued, is_cancelling, is_waiting_for_capacity,
  is_resumable,
}
use Rows.{
  NewJob, before, cancel_pending, cancellable, cancelling_row, checkpoint_row, claim_row, claimable,
  exhausted, fail_row, fail_state, fenced, finish_row, has_prefix, heartbeat_live, lapsed,
  lapsed_exhausted, new_row, park_error, park_prefix, park_row, parked, phase_row, queue_selected,
  reap_failed_row, reap_requeued_row, renew_row, request_cancel_row, requeue_row, resumable,
}

-- contracts.errors.LeaseLostError; `duplicate_key` is the database's refusal of a second row with
-- one primary key.
pub data Error : Type 0 where
  lease_lost duplicate_key : Error

pub data Result {ℓ} (A : Type ℓ) : Type ℓ where
  ok : A → Result A
  err : Error → Result A

-- A row of runtime.job_events.
pub record JobEvent : Type 0 where
  pub job_id : ℕ
  pub org_id : ℕ
  pub kind : Text
  pub payload : Text

abbrev created_event : NewJob → ℕ → JobEvent
created_event n id = record {
  job_id = id;
  org_id = n.org_id;
  kind = text "created";
  payload = text "{}";
}

-- Both INSERTs of one transaction, into runtime.jobs and into runtime.job_events.
unfoldable pub create_job :
    NewJob → ℕ → ℕ → List Job → List JobEvent → Result ℕ × List Job × List JobEvent
create_job n id now jobs events =
    if has_key key id jobs
    then (err duplicate_key, jobs, events)
    else (ok id, jobs ++ new_row n id now ∷ [], events ++ created_event n id ∷ [])

abbrev claim_found : Text → ℕ → ℕ → ℕ → List Job → Option Job → Option Job × List Job
claim_found worker_id lease_seconds token now jobs none = (none, jobs)
claim_found worker_id lease_seconds token now jobs (some j) = (
  some (claim_row worker_id lease_seconds token now j),
  update_where (λ r. r.id == j.id) (claim_row worker_id lease_seconds token now) jobs,
)

-- FOR UPDATE SKIP LOCKED passes over a row that another claim has locked; here a claim sees the rows
-- that all claims before it have left.
unfoldable pub claim_next : List Text → Text → ℕ → ℕ → ℕ → List Job → Option Job × List Job
claim_next queues worker_id lease_seconds token now jobs =
    claim_found worker_id lease_seconds token now jobs (first_by before (claimable queues) jobs)

-- A fenced write whose rowcount is 0 raises LeaseLostError.
unfoldable pub write_fenced {ℓ} :
    {A : Type ℓ} → Lease → A → (Job → Job) → List Job → Result A × List Job
write_fenced l a f jobs =
    if count_where (fenced l) jobs == 0
    then (err lease_lost, jobs)
    else (ok a, update_where (fenced l) f jobs)

unfoldable pub heartbeat : ℕ → ℕ → ℕ → ℕ → List Job → Bool × List Job
heartbeat job_id token lease_seconds now jobs = (
  count_where (heartbeat_live job_id token) jobs == 1,
  update_where (heartbeat_live job_id token) (renew_row lease_seconds now) jobs,
)

unfoldable pub set_phase : Lease → JobState → ℕ → ℕ → List Job → Result (Unit {0}) × List Job
set_phase l state lease_seconds now jobs =
    write_fenced l tt (phase_row state lease_seconds now) jobs

unfoldable pub save_checkpoint :
    Lease → Text → Option JobState → ℕ → ℕ → List Job → Result (Unit {0}) × List Job
save_checkpoint l checkpoint state lease_seconds now jobs =
    write_fenced l tt (checkpoint_row checkpoint state lease_seconds now) jobs

unfoldable pub request_cancel : ℕ → ℕ → Text → Text → ℕ → List Job → Bool × List Job
request_cancel org_id job_id cancelled_by reason now jobs = (
  count_where (cancellable org_id job_id) jobs == 1,
  update_where (cancellable org_id job_id) (request_cancel_row cancelled_by reason now) jobs,
)

unfoldable pub resume_job : ℕ → ℕ → ℕ → List Job → Bool × List Job
resume_job org_id job_id now jobs = (
  count_where (resumable org_id job_id) jobs == 1,
  update_where (resumable org_id job_id) (requeue_row now) jobs,
)

unfoldable pub park : Lease → Text → ℕ → List Job → Result (Unit {0}) × List Job
park l reason now jobs = write_fenced l tt (park_row reason now) jobs

unfoldable pub wake_parked : Option (List Text) → ℕ → ℕ → List Job → ℕ × List Job
wake_parked queues min_age_seconds now jobs = (
  count_where (parked queues min_age_seconds now) jobs,
  update_where (parked queues min_age_seconds now) (requeue_row now) jobs,
)

unfoldable pub complete : Lease → JobState → ℕ → List Job → Result (Unit {0}) × List Job
complete l state now jobs = write_fenced l tt (finish_row state now) jobs

abbrev returned_state : Option Job → Result JobState
returned_state none = err lease_lost
returned_state (some j) = ok (fail_state j)

-- RETURNING state is read from the row that the statement wrote.
unfoldable pub fail : Lease → Text → ℕ → List Job → Result JobState × List Job
fail l error now jobs =
    (returned_state (select_one (fenced l) jobs), update_where (fenced l) (fail_row error now) jobs)

-- Both statements of one transaction; returns `requeued + failed`.
unfoldable pub reclaim_expired : ℕ → ℕ → List Job → List ℕ × List Job
reclaim_expired batch now jobs =
    let failed_ids = map key (select_first batch (lapsed_exhausted now) jobs) in
    let swept = update_first batch (lapsed_exhausted now) (reap_failed_row now) jobs in
    let remaining = batch - length failed_ids in
    let requeued_ids = map key (select_first remaining (lapsed now) swept) in
    if ltb 0 remaining
    then (
      requeued_ids ++ failed_ids,
      update_first remaining (lapsed now) (reap_requeued_row now) swept,
    )
    else (failed_ids, swept)

unfoldable pub apply_cancellation : Lease → ℕ → List Job → Bool × List Job
apply_cancellation l now jobs = (
  count_where (cancel_pending l) jobs == 1,
  update_where (cancel_pending l) (cancelling_row now) jobs,
)

-- A lost lease is no error here: the statement matches no row.
unfoldable pub finish_cancelled : Lease → ℕ → List Job → List Job
finish_cancelled l now jobs = update_where (fenced l) (finish_row cancelled now) jobs

unfoldable pub get_job : ℕ → ℕ → List Job → Option Job
get_job org_id job_id jobs = select_one (λ j. j.id == job_id && j.org_id == org_id) jobs

unfoldable pub active_job_count : ℕ → List Job → ℕ
active_job_count org_id jobs =
    count_where (λ j. j.org_id == org_id && (is_queued j.state || is_active j.state)) jobs

-- ORDER BY created_at DESC LIMIT limit; the columns are the row's.
unfoldable pub list_jobs : ℕ → ℕ → List Job → List Job
list_jobs org_id limit jobs = take limit (
    sort_by (λ (a b : Job). ltb b.created_at a.created_at)
      (select_where (λ (j : Job). j.org_id == org_id) jobs))

-- Nothing in the module reads runtime.job_events.
unfoldable pub append_job_event : ℕ → ℕ → Text → Text → List JobEvent → List JobEvent
append_job_event job_id org_id kind payload events =
    events ++ (record { job_id = job_id; org_id = org_id; kind = kind; payload = payload }) ∷ []
