-- ===== src/Leasing/Parking.antt =====
-- park and wake_parked: a wait on a slow external system costs no attempt.
use lead_engine.Prelude.{
  ℕ, ◌+◌, ◌-◌, ◌≤◌, ◌≡◌, refl, ◌∙◌, true, false, Option, none, some, List, arith, ◌==◌, Text,
  starts_with,
}
use lead_engine.Sql.Keyed.{find_row, find_row-update_where, count_where-find_row}
use lead_engine.Sql.{count_where}
use lead_engine.Job.{Job, Lease, key, queued}
use lead_engine.Leasing.Rows.{
  fenced, park_row, park_error, park_prefix, parked, queue_selected, requeue_row,
}
use lead_engine.Leasing.{write_fenced, park, wake_parked}
use lead_engine.Leasing.Histories.{HasUniqueIds}

-- The prefix survives the cut at 800 characters, whatever the reason.
park_error-starts_with : (reason : Text) → starts_with (park_error reason) park_prefix ≡ true
unfolding park_error starts_with
park_error-starts_with reason = refl

-- Woken from where it was parked, a job is queued again with its checkpoint, no lease, and one
-- attempt fewer.
pub record IsWoken (before after : Job) : Type 0 where
  pub state : after.state ≡ queued
  pub checkpoint : after.checkpoint ≡ before.checkpoint
  pub attempts : after.attempts ≡ before.attempts - 1
  pub lease_token : after.lease_token ≡ none

module _ (l : Lease) (reason : Text) (now : ℕ) (queues : Option (List Text)) (min_age later : ℕ)
    (jobs : List Job) (unique : HasUniqueIds jobs) (a : Job)
    (found : find_row key l.job_id jobs ≡ some a) where
  parked_row :
      fenced l a ≡ true
      → find_row key l.job_id (park l reason now jobs).1 ≡ some (park_row reason now a)
  unfolding park write_fenced
  parked_row m = rw some_rows (
      find_row-update_where key (fenced l) (park_row reason now) (λ r. refl) l.job_id jobs
      ∙ rw (found, m))
    where
      some_rows : (count_where (fenced l) jobs == 0) ≡ false
      some_rows =
          ground
            (arith, count_where-find_row key l.job_id (fenced l) jobs (λ r h. ground arith) unique)

  -- A job parked under its lease is requeued by each later wake-up of its queue once the minimum
  -- age has passed, with its checkpoint kept and the attempt given back. Job ids are unique.
  pub park-wake_parked :
      fenced l a ≡ true
      → queue_selected queues a.queue ≡ true
      → now + min_age ≤ later
      → (b : Job) × (find_row key l.job_id
            (wake_parked queues min_age later (park l reason now jobs).1).1
          ≡ some b)
        × IsWoken a b
  unfolding wake_parked
  park-wake_parked m q age = (
    requeue_row later (park_row reason now a),
    find_row-update_where key (parked queues min_age later) (requeue_row later) (λ r. refl) l.job_id
          (park l reason now jobs).1
        ∙ rw (parked_row m) (rw due),
    record { state = refl; checkpoint = refl; attempts = refl; lease_token = refl },
  )
    where
      due : parked queues min_age later (park_row reason now a) ≡ true
      due = rw (park_error-starts_with reason) (ground arith)
