-- ===== src/Leasing/Rows.antt =====
-- runtime/leasing.py, row by row: which rows a statement names, and what it writes to one.
use mathlib.Core.Bool.{not}
use lead_engine.Prelude.{
  ℕ, ◌+◌, ◌-◌, Bool, true, false, ◌&&◌, ◌||◌, List, ◌++◌, Option, none, some, ltb, leb, ◌==◌,
  if◌then◌else◌, is_value, is_some, or_else, take, Text, text, contains, starts_with,
}
use lead_engine.Job.{
  JobState, Job, Lease, queued, planning, waiting_for_capacity, cancelling, failed, is_active,
  is_open, is_queued, is_cancelling, is_waiting_for_capacity, is_resumable,
}

pub record NewJob : Type 0 where
  pub org_id : ℕ
  pub job_type : Text
  pub payload : Text
  pub queue : Text
  pub campaign_id : Option ℕ
  pub max_attempts : ℕ
  pub priority : ℕ

-- The row that the INSERT writes, with the table's defaults.
abbrev pub new_row : NewJob → ℕ → ℕ → Job
new_row n id now = record {
  id = id;
  org_id = n.org_id;
  campaign_id = n.campaign_id;
  job_type = n.job_type;
  queue = n.queue;
  state = queued;
  payload = n.payload;
  checkpoint = text "{}";
  attempts = 0;
  max_attempts = n.max_attempts;
  priority = n.priority;
  lease_token = none;
  lease_version = 0;
  lease_expires_at = none;
  cancel_requested_at = none;
  cancelled_by = none;
  cancellation_reason = none;
  last_error = none;
  worker_id = none;
  created_at = now;
  updated_at = now;
  started_at = none;
  finished_at = none;
}

abbrev pub claimable : List Text → Job → Bool
claimable queues j = contains queues j.queue && is_queued j.state && ltb j.attempts j.max_attempts

-- ORDER BY priority, created_at
abbrev pub before : Job → Job → Bool
before a b =
    ltb a.priority b.priority || (a.priority == b.priority && ltb a.created_at b.created_at)

abbrev pub claim_row : Text → ℕ → ℕ → ℕ → Job → Job
claim_row worker_id lease_seconds token now j = record j {
  state = planning;
  lease_token = some token;
  lease_version = j.lease_version + 1;
  lease_expires_at = some (now + lease_seconds);
  worker_id = some worker_id;
  attempts = j.attempts + 1;
  started_at = some (or_else j.started_at now);
  updated_at = now;
}

-- WHERE id = … AND lease_token::text = … AND lease_version = …
abbrev pub fenced : Lease → Job → Bool
fenced l j = j.id == l.job_id && is_value j.lease_token l.token && j.lease_version == l.version

abbrev pub heartbeat_live : ℕ → ℕ → Job → Bool
heartbeat_live job_id token j = j.id == job_id && is_value j.lease_token token && is_open j.state

abbrev pub renew_row : ℕ → ℕ → Job → Job
renew_row lease_seconds now j = record j {
  lease_expires_at = some (now + lease_seconds);
  updated_at = now;
}

abbrev pub phase_row : JobState → ℕ → ℕ → Job → Job
phase_row state lease_seconds now j = record j {
  state = state;
  updated_at = now;
  lease_expires_at = some (now + lease_seconds);
}

abbrev pub checkpoint_row : Text → Option JobState → ℕ → ℕ → Job → Job
checkpoint_row checkpoint state lease_seconds now j = record j {
  checkpoint = checkpoint;
  state = or_else state j.state;
  updated_at = now;
  lease_expires_at = some (now + lease_seconds);
}

abbrev pub cancellable : ℕ → ℕ → Job → Bool
cancellable org_id job_id j = j.id == job_id && j.org_id == org_id && is_open j.state

abbrev pub request_cancel_row : Text → Text → ℕ → Job → Job
request_cancel_row cancelled_by reason now j = record j {
  cancel_requested_at = some now;
  cancelled_by = some cancelled_by;
  cancellation_reason = some reason;
  updated_at = now;
}

abbrev pub resumable : ℕ → ℕ → Job → Bool
resumable org_id job_id j = j.id == job_id && j.org_id == org_id && is_resumable j.state

abbrev pub requeue_row : ℕ → Job → Job
requeue_row now j = record j { state = queued; updated_at = now }

abbrev pub park_prefix : Text
park_prefix = text "parked:"

-- (PARK_PREFIX + " " + reason)[:800]
unfoldable pub park_error : Text → Text
park_error reason = take 800 ((park_prefix ++ text " ") ++ reason)

abbrev pub park_row : Text → ℕ → Job → Job
park_row reason now j = record j {
  state = waiting_for_capacity;
  attempts = j.attempts - 1;
  last_error = some (park_error reason);
  updated_at = now;
  lease_expires_at = none;
  lease_token = none;
}

abbrev pub has_prefix : Text → Option Text → Bool
has_prefix prefix none = false
has_prefix prefix (some s) = starts_with s prefix

-- %s::text[] IS NULL OR queue = ANY(%s::text[])
abbrev pub queue_selected : Option (List Text) → Text → Bool
queue_selected none queue = true
queue_selected (some queues) queue = contains queues queue

abbrev pub parked : Option (List Text) → ℕ → ℕ → Job → Bool
parked queues min_age_seconds now j =
    is_waiting_for_capacity j.state
    && has_prefix park_prefix j.last_error
    && queue_selected queues j.queue
    && leb (j.updated_at + min_age_seconds) now

abbrev pub finish_row : JobState → ℕ → Job → Job
finish_row state now j = record j {
  state = state;
  finished_at = some now;
  updated_at = now;
  lease_expires_at = none;
  lease_token = none;
}

abbrev pub exhausted : Job → Bool
exhausted j = leb j.max_attempts j.attempts

abbrev pub fail_state : Job → JobState
fail_state j = if exhausted j then failed else queued

abbrev pub fail_row : Text → ℕ → Job → Job
fail_row error now j = record j {
  last_error = some (take 800 error);
  updated_at = now;
  state = fail_state j;
  finished_at = if exhausted j then some now else none;
  lease_expires_at = none;
  lease_token = none;
}

abbrev pub lapsed : ℕ → Job → Bool
lapsed now j = is_active j.state && elim j.lease_expires_at [ none ↦ false | some t ↦ ltb t now ]

abbrev pub reap_failed_row : ℕ → Job → Job
reap_failed_row now j = record j {
  state = failed;
  finished_at = some now;
  lease_token = none;
  lease_expires_at = none;
  last_error = some (text "lease expired after max attempts; not requeued");
  updated_at = now;
}

abbrev pub reap_requeued_row : ℕ → Job → Job
reap_requeued_row now j = record j {
  state = queued;
  lease_token = none;
  lease_expires_at = none;
  last_error = some (text "lease expired; requeued");
  updated_at = now;
}

abbrev pub lapsed_exhausted : ℕ → Job → Bool
lapsed_exhausted now j = lapsed now j && exhausted j

abbrev pub cancel_pending : Lease → Job → Bool
cancel_pending l j = fenced l j && is_some j.cancel_requested_at && not (is_cancelling j.state)

abbrev pub cancelling_row : ℕ → Job → Job
cancelling_row now j = record j { state = cancelling; updated_at = now }
