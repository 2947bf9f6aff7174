-- ===== src/Tick.antt =====
-- lead_engine/worker.py: run_worker_tick on the jobs of the queue. What driving a job does to the
-- tables, and how it ends, is a parameter; sweeps of other tables and the outbox are left out.
pub mod Freed
use lead_engine.Prelude.{
  ℕ, ◌≡◌, Bool, true, false, Option, none, some, Text, text, or_else, if◌then◌else◌,
}
use lead_engine.Jobs.Transitions.{State, paused, ready_for_review, completed}
use lead_engine.Jobs.{Row, Db}
use lead_engine.Queue.{
  reclaim_expired, expire_stale_paused, wake_due_paused, lease_next, yield_slice, fail, release,
  complete,
}

-- How a job's run ends: a research run that yields or that leaves the job in a state, a run of the
-- pipeline that does, or an exception. A state that the summary lacks is none, a pause may have a reason.
pub data Ending : Type 0 where
  yielded : Option State → Ending
  researched : Option State → Option Text → Ending
  benchmarked : Option State → Option Text → Ending
  raised : Text → Ending

abbrev pub Drive : Type 0
Drive = Row → Db → Ending × Db

abbrev pub is_paused : State → Bool
is_paused paused = true
is_paused _ = false

-- The queue is told, and the state that the tick reports.
unfoldable pub settle_research : ℕ → ℕ → State → Option Text → Db → Option State × Db
settle_research job_id now state reason db =
    if is_paused state
    then (some state, (fail job_id (or_else reason (text "paused")) now db).1)
    else (some state, release job_id now db)

unfoldable pub settle_benchmark : ℕ → ℕ → State → Option Text → Db → Option State × Db
settle_benchmark job_id now state reason db =
    if is_paused state
    then (some state, (fail job_id (or_else reason (text "paused")) now db).1)
    else (some state, complete job_id now db)

unfoldable pub settle : ℕ → ℕ → Ending → Db → Option State × Db
settle job_id now (yielded state) db =
    (some (or_else state ready_for_review), yield_slice job_id now db)
settle job_id now (researched state reason) db =
    settle_research job_id now (or_else state ready_for_review) reason db
settle job_id now (benchmarked state reason) db =
    settle_benchmark job_id now (or_else state completed) reason db
settle job_id now (raised error) db = fail job_id error now db

-- The sweeps that a tick begins with.
unfoldable pub sweep : ℕ → ℕ → Db → Db
sweep stale_after_hours now db =
    (wake_due_paused now (expire_stale_paused stale_after_hours now (reclaim_expired now db).1).1).1

abbrev pub driven : Drive → ℕ → Option Row × Db → Option ℕ × Option State × Db
driven drive now (none, db) = (none, none, db)
driven drive now (some r, db) =
    let run = drive r db in
    let end = settle r.job_id now run.0 run.1 in (some r.job_id, end.0, end.1)

-- The job that was leased, the state that is reported, and the tables.
unfoldable pub run_worker_tick :
    Bool → Text → ℕ → ℕ → Drive → ℕ → ℕ → Db → Option ℕ × Option State × Db
run_worker_tick pg worker_id lease_seconds stale_after_hours drive now ended_at db =
    driven drive ended_at
      (lease_next pg worker_id lease_seconds now (sweep stale_after_hours now db))
