-- ===== src/Examples/Leases.antt =====
-- Runs of runtime/leasing.py on two jobs.
use lead_engine.Prelude.{
  ℕ, ◌<◌, ◌≡◌, refl, true, false, none, some, List, [], ◌∷◌, arith, Text, text, All, length,
  contains, text_eq,
}
use lead_engine.Sql.{update_where, count_where, update_first, select_first}
use lead_engine.Sql.Keyed.{find_row, has_key}
use lead_engine.Sql.Ordered.{first_by}
use lead_engine.Job.{Job, key, ready_for_review}
use lead_engine.Leasing.Rows.{
  NewJob, new_row, claim_row, reap_requeued_row, finish_row, queue_selected, fenced, lapsed,
}
use lead_engine.Leasing.{ok, claim_next, complete, write_fenced, reclaim_expired, wake_parked, park}
use lead_engine.Leasing.Calls.{Call, reclaims, beats, apply, run}
use lead_engine.Leasing.Histories.{HasUniqueIds}
use lead_engine.Leasing.Fencing.{IsRefused, lease_of, second_claim-IsRefused}
use lead_engine.Leasing.Ends.{by_complete, Ends-IsRefused}
use lead_engine.Leasing.Attempts.{KeepsBudget, run-KeepsBudget}
use lead_engine.Leasing.Reaper.{
  QueuedHaveAttempts, reclaim_expired-QueuedHaveAttempts, reclaim_expired_complete,
}
use lead_engine.Leasing.Parking.{IsWoken, park-wake_parked}

abbrev new_job : ℕ → NewJob
new_job priority = record {
  org_id = 1;
  job_type = text "discover";
  payload = text "{}";
  queue = text "default";
  campaign_id = none;
  max_attempts = 3;
  priority = priority;
}

abbrev default_queue : List Text
default_queue = text "default" ∷ []

-- Job 8 has the smaller priority number, so it goes first.
abbrev two_jobs : List Job
two_jobs = new_row (new_job 100) 7 10 ∷ new_row (new_job 50) 8 20 ∷ []

two_jobs-HasUniqueIds : HasUniqueIds two_jobs
unfolding has_key
two_jobs-HasUniqueIds = (refl, (refl, tt))

abbrev first_worker : Text
first_worker = text "a"

abbrev second_worker : Text
second_worker = text "b"

-- Claimed at 30 for 60 seconds under token 5.
abbrev claimed_job : Job
claimed_job = claim_row first_worker 60 5 30 (new_row (new_job 50) 8 20)

abbrev after_claim : List Job
after_claim = (claim_next default_queue first_worker 60 5 30 two_jobs).1

claimed : (claim_next default_queue first_worker 60 5 30 two_jobs).0 ≡ some claimed_job
unfolding claim_next first_by contains text_eq
claimed = refl

after_claim-HasUniqueIds : HasUniqueIds after_claim
unfolding claim_next first_by contains text_eq update_where has_key
after_claim-HasUniqueIds = (refl, (refl, tt))

-- The lease lapses at 90; the reaper requeues the job at 100, and another worker claims it with the
-- very same token.
abbrev reaped : List Call
reaped = reclaims 10 100 ∷ []

abbrev claimed_again : Job
claimed_again = record claimed_job {
  lease_version = 2;
  lease_expires_at = some 170;
  worker_id = some second_worker;
  attempts = 2;
  last_error = (reap_requeued_row 100 claimed_job).last_error;
  updated_at = 110;
}

second_claim :
    (claim_next default_queue second_worker 60 5 110 (run reaped after_claim)).0
    ≡ some claimed_again
unfolding claim_next first_by contains text_eq update_where run apply reclaim_expired update_first
    select_first
second_claim = refl

second_claim-IsRefused_example : IsRefused (lease_of claimed_job 5) (
    run
      (beats 8 5 60 120 ∷ [])
      (claim_next default_queue second_worker 60 5 110
        (run reaped (claim_next default_queue first_worker 60 5 30 two_jobs).1)).1)
second_claim-IsRefused_example =
    second_claim-IsRefused two_jobs two_jobs-HasUniqueIds default_queue first_worker 60 5 30
      claimed_job claimed reaped default_queue second_worker 60 5 110 claimed_again second_claim
      refl (beats 8 5 60 120 ∷ [])

abbrev after_complete : List Job
after_complete = new_row (new_job 100) 7 10 ∷ finish_row ready_for_review 40 claimed_job ∷ []

completed :
    complete (lease_of claimed_job 5) ready_for_review 40 after_claim ≡ (ok tt, after_complete)
unfolding complete write_fenced count_where update_where claim_next first_by contains text_eq
completed = refl

Ends-IsRefused_example : IsRefused (lease_of claimed_job 5) (run reaped after_complete)
Ends-IsRefused_example =
    Ends-IsRefused (lease_of claimed_job 5) after_claim after_complete after_claim-HasUniqueIds
      (by_complete ready_for_review 40 completed) reaped

claimed_row : find_row key 8 after_claim ≡ some claimed_job
unfolding find_row claim_next first_by contains text_eq update_where
claimed_row = refl

run-KeepsBudget_example :
    (b : Job) × (find_row key 8 (run reaped after_claim) ≡ some b) × KeepsBudget claimed_job b
run-KeepsBudget_example =
    run-KeepsBudget 8 after_claim after_claim-HasUniqueIds claimed_job claimed_row reaped

after_claim-QueuedHaveAttempts : QueuedHaveAttempts after_claim
unfolding claim_next first_by contains text_eq update_where
after_claim-QueuedHaveAttempts = (λ _. refl, (λ _. refl, tt))

reclaim_expired-QueuedHaveAttempts_example :
    QueuedHaveAttempts (reclaim_expired 10 100 after_claim).1
reclaim_expired-QueuedHaveAttempts_example =
    reclaim_expired-QueuedHaveAttempts 10 100 after_claim after_claim-QueuedHaveAttempts

one_reaped : length (reclaim_expired 10 100 after_claim).0 < 10
unfolding claim_next first_by contains text_eq update_where reclaim_expired update_first
    select_first
one_reaped = omega arith

reclaim_expired_complete_example :
    All (λ j. lapsed 100 j ≡ false) (reclaim_expired 10 100 after_claim).1
reclaim_expired_complete_example = reclaim_expired_complete 10 100 after_claim one_reaped

holds_lease : fenced (lease_of claimed_job 5) claimed_job ≡ true
holds_lease = refl

any_queue : queue_selected none claimed_job.queue ≡ true
any_queue = refl

park-wake_parked_example :
    (b : Job) × (find_row key 8
        (wake_parked none 15 60 (park (lease_of claimed_job 5) (text "down") 40 after_claim).1).1
      ≡ some b)
    × IsWoken claimed_job b
park-wake_parked_example =
    park-wake_parked (lease_of claimed_job 5) (text "down") 40 none 15 60 after_claim
      after_claim-HasUniqueIds claimed_job claimed_row holds_lease any_queue (omega arith)
