-- ===== src/Queue.antt =====
-- lead_engine/queue.py: the engine's job queue on the table `jobs`. `pg` says whether the database
-- is PostgreSQL; times are seconds.
pub mod Histories
pub mod Leases
pub mod Attempts
pub mod Backoff
use lead_engine.Prelude.{
  ℕ, ◌+◌, ◌-◌, ◌*◌, ◌^◌, ◌≡◌, min, Bool, true, false, not, ◌&&◌, ◌||◌, Option, none, some, List, [],
  ◌∷◌, ◌++◌, ◌==◌, ltb, leb, map, length, if◌then◌else◌, is_value, or_else, Text, text, text_eq,
}
use lead_engine.Sql.{update_where, count_where, select_where}
use lead_engine.Sql.Keyed.{find_row}
use lead_engine.Sql.Ordered.{first_by}
use lead_engine.Jobs.Transitions.{
  State, state_eq, queued, running, paused, resuming, completed, failed, cancelled, discovering,
  researching, verifying, qualifying,
}
use lead_engine.Jobs.{Row, Event, Db, key}

abbrev pub job_is : ℕ → Row → Bool
job_is job_id r = r.job_id == job_id

-- COALESCE(attempts, 0) and COALESCE(max_attempts, 3)
abbrev pub attempts_of : Row → ℕ
attempts_of r = or_else r.attempts 0

abbrev pub cap_of : Row → ℕ
cap_of r = or_else r.max_attempts 3

abbrev pub enqueue_row : ℕ → Row → Row
enqueue_row now r = record r { state = queued; updated_at = now }

unfoldable pub enqueue : ℕ → ℕ → Db → Db
enqueue job_id now db = record db { jobs = update_where (job_is job_id) (enqueue_row now) db.jobs }

abbrev pub is_runnable : State → Bool
is_runnable queued = true
is_runnable resuming = true
is_runnable _ = false

abbrev pub is_over : Option ℕ → ℕ → Bool
is_over none now = true
is_over (some t) now = ltb t now

abbrev pub is_due : Option ℕ → ℕ → Bool
is_due none now = true
is_due (some t) now = leb t now

abbrev pub leasable : ℕ → Row → Bool
leasable now r =
    is_runnable r.state
    && is_over r.lease_expires_at now
    && is_due r.resume_at now
    && ltb (attempts_of r) (cap_of r)

-- ORDER BY created_at
abbrev pub older : Row → Row → Bool
older a b = ltb a.created_at b.created_at

-- PostgreSQL adds 1 to the column as it is; SQLite counts from 0 where it is NULL.
abbrev pub counted : Bool → Option ℕ → Option ℕ
counted true none = none
counted true (some n) = some (n + 1)
counted false a = some (or_else a 0 + 1)

abbrev pub lease_row : Bool → Text → ℕ → ℕ → Row → Row
lease_row pg worker_id lease_seconds now r = record r {
  state = running;
  worker_id = some worker_id;
  lease_expires_at = some (now + lease_seconds);
  attempts = counted pg r.attempts;
  updated_at = now;
}

abbrev lease_found : Bool → Text → ℕ → ℕ → Db → Option Row → Option Row × Db
lease_found pg worker_id lease_seconds now db none = (none, db)
lease_found pg worker_id lease_seconds now db (some r) = (
  some (lease_row pg worker_id lease_seconds now r),
  record db {
    jobs = update_where (job_is r.job_id) (lease_row pg worker_id lease_seconds now) db.jobs;
  },
)

unfoldable pub lease_next : Bool → Text → ℕ → ℕ → Db → Option Row × Db
lease_next pg worker_id lease_seconds now db =
    lease_found pg worker_id lease_seconds now db (first_by older (leasable now) db.jobs)

-- _LEASED_STATES
abbrev pub is_leased : State → Bool
is_leased running = true
is_leased discovering = true
is_leased researching = true
is_leased verifying = true
is_leased qualifying = true
is_leased _ = false

-- The lease has run out, or there is none and the row is a day old. A comparison with NULL selects
-- nothing.
abbrev pub run_out : Option ℕ → ℕ → ℕ → Bool
run_out none updated_at now = ltb (updated_at + 86400) now
run_out (some t) updated_at now = ltb t now

abbrev pub expired : ℕ → Row → Bool
expired now r = is_leased r.state && run_out r.lease_expires_at r.updated_at now

abbrev pub expired_spent : ℕ → Row → Bool
expired_spent now r = expired now r && leb (cap_of r) (attempts_of r)

abbrev pub reap_row : State → Option Text → ℕ → Row → Row
reap_row state reason now r = record r {
  state = state;
  worker_id = none;
  lease_expires_at = none;
  pause_reason = reason;
  updated_at = now;
}

abbrev pub spent_row : ℕ → Row → Row
spent_row now r =
    reap_row failed (some (text "lease expired after max attempts; not requeued")) now r

abbrev pub requeued_row : ℕ → Row → Row
requeued_row now r = reap_row queued r.pause_reason now r

unfoldable pub reclaim_expired : ℕ → Db → ℕ × Db
reclaim_expired now db =
    let swept = update_where (expired_spent now) (spent_row now) db.jobs in
    (
      count_where (expired_spent now) db.jobs + count_where (expired now) swept,
      record db { jobs = update_where (expired now) (requeued_row now) swept },
    )

abbrev is_unset : Option ℕ → Bool
is_unset none = true
is_unset (some t) = false

abbrev pub stale : ℕ → ℕ → Row → Bool
stale hours now r =
    state_eq r.state paused && is_unset r.resume_at && ltb (r.updated_at + hours * 3600) now

abbrev pub stale_row : ℕ → Row → Row
stale_row now r =
    reap_row cancelled (some (text "LEGACY_PAUSED_NO_RESUME_AT: expired by reaper")) now r

abbrev pub event_of : State → State → Text → ℕ → Row → Event
event_of from to reason now r = record {
  ts = now;
  job_id = r.job_id;
  from_state = from;
  to_state = to;
  reason = some reason;
}

unfoldable pub expire_stale_paused : ℕ → ℕ → Db → ℕ × Db
expire_stale_paused stale_after_hours now db =
    let rows = select_where (stale stale_after_hours now) db.jobs in
    (
      length rows,
      record {
        jobs = update_where (stale stale_after_hours now) (stale_row now) db.jobs;
        events =
            db.events
            ++ map (event_of paused cancelled (text "LEGACY_PAUSED_NO_RESUME_AT") now) rows;
      },
    )

abbrev is_reached : Option ℕ → ℕ → Bool
is_reached none now = false
is_reached (some t) now = leb t now

abbrev pub wakeable : ℕ → Row → Bool
wakeable now r = state_eq r.state paused && is_reached r.resume_at now

abbrev pub wake_row : ℕ → Row → Row
wake_row now r = record r { state = resuming; updated_at = now }

unfoldable pub wake_due_paused : ℕ → Db → ℕ × Db
wake_due_paused now db =
    let rows = select_where (wakeable now) db.jobs in
    (
      length rows,
      record {
        jobs = update_where (wakeable now) (wake_row now) db.jobs;
        events = db.events ++ map (event_of paused resuming (text "resume_at reached") now) rows;
      },
    )

abbrev pub complete_row : ℕ → Row → Row
complete_row now r = reap_row completed r.pause_reason now r

unfoldable pub complete : ℕ → ℕ → Db → Db
complete job_id now db = record db {
  jobs = update_where (job_is job_id) (complete_row now) db.jobs;
}

abbrev pub release_row : ℕ → Row → Row
release_row now r = record r { worker_id = none; lease_expires_at = none; updated_at = now }

unfoldable pub release : ℕ → ℕ → Db → Db
release job_id now db = record db { jobs = update_where (job_is job_id) (release_row now) db.jobs }

abbrev pub yield_row : ℕ → Row → Row
yield_row now r = record r {
  state = queued;
  worker_id = none;
  lease_expires_at = none;
  resume_at = none;
  pause_reason = none;
  attempts = some (attempts_of r - 1);
  updated_at = now;
}

unfoldable pub yield_slice : ℕ → ℕ → Db → Db
yield_slice job_id now db = record db {
  jobs = update_where (job_is job_id) (yield_row now) db.jobs;
}

-- `max_attempts or 3` in Python: a 0 is replaced as well.
abbrev pub or_three : Option ℕ → ℕ
or_three none = 3
or_three (some n) = if n == 0 then 3 else n

unfoldable pub backoff : ℕ → ℕ
backoff attempts = min 3600 (60 * 2 ^ (attempts - 1))

abbrev pub retry_row : Text → ℕ → ℕ → Row → Row
retry_row reason resume_at now r = record r {
  state = queued;
  worker_id = none;
  lease_expires_at = none;
  pause_reason = some (text "retry: " ++ reason);
  resume_at = some resume_at;
  updated_at = now;
}

abbrev pub failed_row : Text → ℕ → Row → Row
failed_row reason now r = reap_row failed (some reason) now r

-- None is the answer UNKNOWN.
abbrev pub fail_found : ℕ → Text → ℕ → Db → Option Row → Option State × Db
fail_found job_id reason now db none = (none, db)
fail_found job_id reason now db (some r) =
    if ltb (attempts_of r) (or_three r.max_attempts)
    then (
      some queued,
      record db {
        jobs =
            update_where (job_is job_id) (retry_row reason (now + backoff (attempts_of r)) now)
              db.jobs;
      },
    )
    else (
      some failed,
      record db { jobs = update_where (job_is job_id) (failed_row reason now) db.jobs },
    )

unfoldable pub fail : ℕ → Text → ℕ → Db → Option State × Db
fail job_id reason now db = fail_found job_id reason now db (find_row key job_id db.jobs)

abbrev pub is_text : Option Text → Text → Bool
is_text none t = false
is_text (some s) t = text_eq s t

abbrev pub held_by : ℕ → Text → Row → Bool
held_by job_id worker_id r = r.job_id == job_id && is_text r.worker_id worker_id

abbrev pub beat_row : ℕ → ℕ → Row → Row
beat_row lease_seconds now r = record r {
  lease_expires_at = some (now + lease_seconds);
  updated_at = now;
}

unfoldable pub heartbeat : ℕ → Text → ℕ → ℕ → Db → Db
heartbeat job_id worker_id lease_seconds now db = record db {
  jobs = update_where (held_by job_id worker_id) (beat_row lease_seconds now) db.jobs;
}
