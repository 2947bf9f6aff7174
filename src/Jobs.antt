-- ===== src/Jobs.antt =====
-- lead_engine/jobs.py: the state machine of the engine's jobs, and the manager that moves a job
-- along it. Times are numbers; params is the JSON text.
pub mod Transitions
pub mod Audit
pub mod Manager
pub mod Events
pub mod Finality
pub mod Recovery
use lead_engine.Prelude.{
  ℕ, ◌+◌, ◌≡◌, Bool, true, false, not, ◌&&◌, ◌||◌, Option, none, some, List, [], ◌∷◌, ◌++◌, ◌==◌,
  leb, if◌then◌else◌, or_else, Text, text,
}
use lead_engine.Sql.{update_where, count_where, select_where}
use lead_engine.Sql.Keyed.{find_row, has_key}
use Transitions.{State, state_eq, queued, paused, resuming, failed, allows, is_interrupted}

-- The columns of the table `jobs` that the manager and the queue use.
pub record Row : Type 0 where
  pub job_id : ℕ
  pub icp_id : Text
  pub state : State
  pub params : Text
  pub pause_reason : Option Text
  pub resume_at : Option ℕ
  pub worker_id : Option Text
  pub lease_expires_at : Option ℕ
  pub attempts : Option ℕ
  pub max_attempts : Option ℕ
  pub created_at : ℕ
  pub updated_at : ℕ

abbrev pub key : Row → ℕ
key r = r.job_id

-- A row of `job_events`.
pub record Event : Type 0 where
  pub ts : ℕ
  pub job_id : ℕ
  pub from_state : State
  pub to_state : State
  pub reason : Option Text

pub record Db : Type 0 where
  pub jobs : List Row
  pub events : List Event

pub data Error : Type 0 where
  invalid_job illegal_transition lost_race duplicate_key insert_failed : Error

pub data Result {ℓ} (A : Type ℓ) : Type ℓ where
  ok : A → Result A
  err : Error → Result A

abbrev pub new_row : ℕ → Text → Text → ℕ → Row
new_row job_id icp_id params now = record {
  job_id = job_id;
  icp_id = icp_id;
  state = queued;
  params = params;
  pause_reason = none;
  resume_at = none;
  worker_id = none;
  lease_expires_at = none;
  attempts = some 0;
  max_attempts = some 3;
  created_at = now;
  updated_at = now;
}

unfoldable pub create_job : ℕ → Text → Text → ℕ → Db → Result ℕ × Db
create_job job_id icp_id params now db =
    if has_key key job_id db.jobs
    then (err duplicate_key, db)
    else (ok job_id, record db { jobs = db.jobs ++ new_row job_id icp_id params now ∷ [] })

abbrev state_of : Option Row → Option State
state_of none = none
state_of (some r) = some r.state

-- `none` is the ValueError of an unknown job.
unfoldable pub current : ℕ → Db → Option State
current job_id db = state_of (find_row key job_id db.jobs)

abbrev pub at_state : ℕ → State → Row → Bool
at_state job_id from r = r.job_id == job_id && state_eq r.state from

abbrev pub moved_row : State → Option Text → ℕ → Row → Row
moved_row to reason now r = record r {
  state = to;
  pause_reason = if state_eq to paused then reason else none;
  updated_at = now;
}

-- Each statement of a call is a transaction of its own. What other connections commit before
-- `resume`'s call of `transition`, between the read and the UPDATE of a transition, between that
-- UPDATE and the INSERT, and before `pause` sets resume_at; `inserts` says whether the INSERT
-- succeeds.
pub record Others : Type 0 where
  pub before_transition : Db → Db
  pub before_update : Db → Db
  pub before_insert : Db → Db
  pub before_resume_at : Db → Db
  pub inserts : Bool

-- Nobody else commits, and the INSERT succeeds.
abbrev pub alone : Others
alone = record {
  before_transition = λ db. db;
  before_update = λ db. db;
  before_insert = λ db. db;
  before_resume_at = λ db. db;
  inserts = true;
}

abbrev pub event : ℕ → State → State → Option Text → ℕ → Event
event job_id from to reason now = record {
  ts = now;
  job_id = job_id;
  from_state = from;
  to_state = to;
  reason = reason;
}

-- The table `jobs` after the UPDATE.
abbrev pub updated : ℕ → State → State → Option Text → ℕ → Db → Db
updated job_id from to reason now db = record db {
  jobs = update_where (at_state job_id from) (moved_row to reason now) db.jobs;
}

-- The table `job_events` after the INSERT.
abbrev pub logged : ℕ → State → State → Option Text → ℕ → Db → Db
logged job_id from to reason now db = record db {
  events = db.events ++ event job_id from to reason now ∷ [];
}

-- The INSERT of the audit row, which can raise when the UPDATE is already committed.
unfoldable pub log_transition : ℕ → State → State → Option Text → ℕ → Bool → Db → Result State × Db
log_transition job_id from to reason now inserts db =
    if inserts then (ok to, logged job_id from to reason now db) else (err insert_failed, db)

-- The guarded UPDATE, and once it has matched the audit row.
unfoldable pub write_transition :
    ℕ → State → State → Option Text → ℕ → Others → Db → Result State × Db
write_transition job_id from to reason now others db =
    if count_where (at_state job_id from) db.jobs == 0
    then (err lost_race, db)
    else log_transition job_id from to reason now others.inserts
        (others.before_insert (updated job_id from to reason now db))

abbrev transition_from :
    Option State → ℕ → State → Option Text → ℕ → Others → Db → Result State × Db
transition_from none job_id to reason now others db = (err invalid_job, db)
transition_from (some from) job_id to reason now others db =
    if allows from to
    then write_transition job_id from to reason now others (others.before_update db)
    else (err illegal_transition, db)

unfoldable pub transition : ℕ → State → Option Text → ℕ → Others → Db → Result State × Db
transition job_id to reason now others db =
    transition_from (current job_id db) job_id to reason now others db

abbrev pub and_then : Result State × Db → (Db → Db) → Result State × Db
and_then (err e, db) f = (err e, db)
and_then (ok s, db) f = (ok s, f db)

abbrev pub resume_at_row : ℕ → Row → Row
resume_at_row resume_at r = record r { resume_at = some resume_at }

unfoldable pub set_resume_at : ℕ → ℕ → Db → Db
set_resume_at job_id resume_at db = record db {
  jobs = update_where (λ r. r.job_id == job_id) (resume_at_row resume_at) db.jobs;
}

unfoldable pub pause : ℕ → Text → ℕ → ℕ → Others → Db → Result State × Db
pause job_id reason resume_at now others db =
    and_then (transition job_id paused (some reason) now others db)
      (λ d. set_resume_at job_id resume_at (others.before_resume_at d))

unfoldable pub mark_failed : ℕ → Text → ℕ → Others → Db → Result State × Db
mark_failed job_id reason now others db = transition job_id failed (some reason) now others db

abbrev resume_from : Option State → ℕ → ℕ → Others → Db → Result State × Db
resume_from none job_id now others db = (err invalid_job, db)
resume_from (some s) job_id now others db =
    if state_eq s paused
    then transition job_id resuming (some (text "scheduler retry")) now others
        (others.before_transition db)
    else (err illegal_transition, db)

unfoldable pub resume : ℕ → ℕ → Others → Db → Result State × Db
resume job_id now others db = resume_from (current job_id db) job_id now others db

abbrev due : ℕ → Row → Bool
due now r = state_eq r.state paused && elim r.resume_at [ none ↦ false | some t ↦ leb t now ]

unfoldable pub jobs_due_for_resume : ℕ → Db → List Row
jobs_due_for_resume now db = select_where (due now) db.jobs

-- str(lease) >= now
abbrev pub lease_is_valid : ℕ → Option ℕ → Bool
lease_is_valid now none = false
lease_is_valid now (some t) = leb now t

abbrev recovered_after : ℕ → Result State → List ℕ → List ℕ
recovered_after job_id (ok s) ids = job_id ∷ ids
recovered_after job_id (err e) ids = ids

-- The loop over the rows that were selected; an exception passes over its row.
unfoldable pub recover_rows : List Row → Text → Bool → ℕ → Db → List ℕ × Db
recover_rows [] reason respect_leases now db = ([], db)
recover_rows (r ∷ rows) reason respect_leases now db =
    let skip = respect_leases && lease_is_valid now r.lease_expires_at in
    let (done, db') = pause r.job_id reason (now + 60) now alone db in
    let step = if skip then db else db' in
    let (ids, final) = recover_rows rows reason respect_leases now step in
    (if skip then ids else recovered_after r.job_id done ids, final)

unfoldable pub recover_interrupted_jobs : Text → Bool → ℕ → Db → List ℕ × Db
recover_interrupted_jobs reason respect_leases now db =
    recover_rows (select_where (λ r. is_interrupted r.state) db.jobs) reason respect_leases now db
