-- ===== src/Job.antt =====
-- A row of the table runtime.jobs (migrations/0008_runtime_events_agents.sql), as
-- runtime/leasing.py reads and writes it. UUIDs and times are numbers, a JSON document is its text.
use lead_engine.Prelude.{ℕ, Bool, true, false, Option, Text}

pub data JobState : Type 0 where
  created queued planning discovering researching enriching verifying scoring qualifying : JobState
  ready_for_review waiting_for_capacity waiting_for_user paused cancelling cancelled : JobState
  failed partial_success : JobState

-- ACTIVE_STATES
abbrev pub is_active : JobState → Bool
is_active planning = true
is_active discovering = true
is_active researching = true
is_active enriching = true
is_active verifying = true
is_active scoring = true
is_active qualifying = true
is_active cancelling = true
is_active _ = false

-- TERMINAL_STATES
abbrev pub is_terminal : JobState → Bool
is_terminal ready_for_review = true
is_terminal cancelled = true
is_terminal failed = true
is_terminal partial_success = true
is_terminal _ = false

-- state NOT IN ('READY_FOR_REVIEW','CANCELLED','FAILED')
abbrev pub is_open : JobState → Bool
is_open ready_for_review = false
is_open cancelled = false
is_open failed = false
is_open _ = true

abbrev pub is_queued : JobState → Bool
is_queued queued = true
is_queued _ = false

abbrev pub is_cancelling : JobState → Bool
is_cancelling cancelling = true
is_cancelling _ = false

abbrev pub is_waiting_for_capacity : JobState → Bool
is_waiting_for_capacity waiting_for_capacity = true
is_waiting_for_capacity _ = false

-- state IN ('PAUSED','WAITING_FOR_USER')
abbrev pub is_resumable : JobState → Bool
is_resumable paused = true
is_resumable waiting_for_user = true
is_resumable _ = false

pub record Job : Type 0 where
  pub id : ℕ
  pub org_id : ℕ
  pub campaign_id : Option ℕ
  pub job_type : Text
  pub queue : Text
  pub state : JobState
  pub payload : Text
  pub checkpoint : Text
  pub attempts : ℕ
  pub max_attempts : ℕ
  pub priority : ℕ
  pub lease_token : Option ℕ
  pub lease_version : ℕ
  pub lease_expires_at : Option ℕ
  pub cancel_requested_at : Option ℕ
  pub cancelled_by : Option Text
  pub cancellation_reason : Option Text
  pub last_error : Option Text
  pub worker_id : Option Text
  pub created_at : ℕ
  pub updated_at : ℕ
  pub started_at : Option ℕ
  pub finished_at : Option ℕ

abbrev pub key : Job → ℕ
key j = j.id

-- A lease as its holder knows it, the arguments that every fenced write passes.
pub record Lease : Type 0 where
  pub job_id : ℕ
  pub token : ℕ
  pub version : ℕ
