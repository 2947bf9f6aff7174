-- ===== src/Worker.antt =====
-- runtime/worker.py: one turn of a worker on the rows of runtime.jobs. What a handler does is a
-- parameter: how it ends, and the leasing calls that are committed while it runs, its own and others'.
pub mod Turns
use lead_engine.Prelude.{
  ℕ, ◌≡◌, Bool, true, false, Option, none, some, List, [], ◌∷◌, ◌++◌, Text, text,
}
use lead_engine.Job.{JobState, Job, Lease}
use lead_engine.Leasing.{
  Result, ok, err, Error, claim_next, complete, fail, reclaim_expired, wake_parked,
}
use lead_engine.Leasing.Calls.{Call, run}

-- What `handler(ctx, ops)` does at its end; PARKED is the text that it returns after `ops.park`.
pub data HandlerEnd : Type 0 where
  ended : JobState → HandlerEnd
  parked : HandlerEnd
  lost_lease : HandlerEnd
  raised : Text → HandlerEnd

abbrev pub Handler : Type 0
Handler = Job → HandlerEnd × List Call

pub record Worker : Type 0 where
  pub queues : List Text
  pub worker_id : Text
  pub lease_seconds : ℕ
  pub handlers : Text → Option Handler

-- The readings of the clock in one turn.
pub record Clock : Type 0 where
  pub reaped_at : ℕ
  pub woken_at : ℕ
  pub claimed_at : ℕ
  pub ended_at : ℕ

-- Whether run_once did work, or what it raises.
pub data Turn : Type 0 where
  idle worked : Turn
  raises : Error → Turn

-- The lease in the context of a claimed job.
abbrev pub context_lease : Job → ℕ → Lease
context_lease j token = record { job_id = j.id; token = token; version = j.lease_version }

-- The part of run_maintenance that writes runtime.jobs, with the default batch and PARK_MIN_AGE_S.
unfoldable pub run_maintenance : Worker → Clock → List Job → List Job
run_maintenance w t jobs =
    (wake_parked (some w.queues) 45 t.woken_at (reclaim_expired 50 t.reaped_at jobs).1).1

abbrev turn_of {ℓ} : {A : Type ℓ} → Result A × List Job → Turn × List Job
turn_of (ok a, jobs) = (worked, jobs)
turn_of (err e, jobs) = (raises e, jobs)

-- After the handler: LeaseLostError is swallowed, whoever raises it.
unfoldable pub finish : Lease → ℕ → HandlerEnd → List Job → List Job
finish l now (ended s) jobs = (complete l s now jobs).1
finish l now parked jobs = jobs
finish l now lost_lease jobs = jobs
finish l now (raised error) jobs = (fail l error now jobs).1

abbrev pub handle : Clock → Job → Lease → Option Handler → List Job → Turn × List Job
handle t j l none jobs =
    turn_of (fail l (text "no handler for job_type " ++ j.job_type) t.ended_at jobs)
handle t j l (some handler) jobs =
    (worked, finish l t.ended_at (handler j).0 (run (handler j).1 jobs))

abbrev pub claimed_turn : Worker → ℕ → Clock → Option Job × List Job → Turn × List Job
claimed_turn w token t (none, jobs) = (idle, jobs)
claimed_turn w token t (some j, jobs) =
    handle t j (context_lease j token) (w.handlers j.job_type) jobs

unfoldable pub run_once : Worker → ℕ → Clock → List Job → Turn × List Job
run_once w token t jobs =
    claimed_turn w token t (
      claim_next w.queues w.worker_id w.lease_seconds token t.claimed_at (run_maintenance w t jobs))
