-- ===== src/Leasing/Calls.antt =====
-- The calls of runtime/leasing.py that write, as one type, so that a history is a list of them:
-- whatever any workers, users and reapers do, in the order in which the database commits it.
use lead_engine.Prelude.{ℕ, Option, List, [], ◌∷◌, Text}
use lead_engine.Job.{JobState, Job, Lease}
use lead_engine.Leasing.Rows.{NewJob}
use lead_engine.Leasing.{
  create_job, claim_next, heartbeat, set_phase, save_checkpoint, request_cancel, resume_job, park,
  wake_parked, complete, fail, reclaim_expired, apply_cancellation, finish_cancelled,
}

pub data Call : Type 0 where
  creates : NewJob → ℕ → ℕ → Call
  claims : List Text → Text → ℕ → ℕ → ℕ → Call
  beats : ℕ → ℕ → ℕ → ℕ → Call
  enters : Lease → JobState → ℕ → ℕ → Call
  checkpoints : Lease → Text → Option JobState → ℕ → ℕ → Call
  cancels : ℕ → ℕ → Text → Text → ℕ → Call
  resumes : ℕ → ℕ → ℕ → Call
  parks : Lease → Text → ℕ → Call
  wakes : Option (List Text) → ℕ → ℕ → Call
  completes : Lease → JobState → ℕ → Call
  fails : Lease → Text → ℕ → Call
  reclaims : ℕ → ℕ → Call
  starts_cancelling : Lease → ℕ → Call
  ends_cancelled : Lease → ℕ → Call

-- The rows of runtime.jobs after a call, whether it succeeds or raises. The events that create_job
-- adds to runtime.job_events are not kept, as no call reads them.
unfoldable pub apply : Call → List Job → List Job
apply (creates n id now) jobs = (create_job n id now jobs []).1
apply (claims queues worker lease_seconds token now) jobs =
    (claim_next queues worker lease_seconds token now jobs).1
apply (beats job_id token lease_seconds now) jobs =
    (heartbeat job_id token lease_seconds now jobs).1
apply (enters l state lease_seconds now) jobs = (set_phase l state lease_seconds now jobs).1
apply (checkpoints l checkpoint state lease_seconds now) jobs =
    (save_checkpoint l checkpoint state lease_seconds now jobs).1
apply (cancels org_id job_id by reason now) jobs =
    (request_cancel org_id job_id by reason now jobs).1
apply (resumes org_id job_id now) jobs = (resume_job org_id job_id now jobs).1
apply (parks l reason now) jobs = (park l reason now jobs).1
apply (wakes queues min_age_seconds now) jobs = (wake_parked queues min_age_seconds now jobs).1
apply (completes l state now) jobs = (complete l state now jobs).1
apply (fails l error now) jobs = (fail l error now jobs).1
apply (reclaims batch now) jobs = (reclaim_expired batch now jobs).1
apply (starts_cancelling l now) jobs = (apply_cancellation l now jobs).1
apply (ends_cancelled l now) jobs = finish_cancelled l now jobs

unfoldable pub run : List Call → List Job → List Job
run [] jobs = jobs
run (c ∷ cs) jobs = run cs (apply c jobs)
