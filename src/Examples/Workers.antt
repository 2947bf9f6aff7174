-- ===== src/Examples/Workers.antt =====
-- A turn of runtime/worker.py whose handler completes its job.
use lead_engine.Prelude.{◌≡◌, refl, none, some, List, [], ◌∷◌, text, contains, text_eq}
use lead_engine.Sql.{update_where, update_first, select_first}
use lead_engine.Sql.Keyed.{has_key}
use lead_engine.Sql.Ordered.{first_by}
use lead_engine.Job.{Job, ready_for_review}
use lead_engine.Leasing.Rows.{new_row, claim_row}
use lead_engine.Leasing.{claim_next, reclaim_expired, wake_parked}
use lead_engine.Leasing.Calls.{beats, claims, run}
use lead_engine.Leasing.Histories.{HasUniqueIds}
use lead_engine.Leasing.Fencing.{IsRefused}
use lead_engine.Worker.{ended, Handler, Worker, Clock, context_lease, run_maintenance, run_once}
use lead_engine.Worker.Turns.{by_state, run_once-IsRefused}

abbrev queued_job : Job
queued_job =
    new_row
      (record {
        org_id = 1;
        job_type = text "discover";
        payload = text "{}";
        queue = text "default";
        campaign_id = none;
        max_attempts = 3;
        priority = 100;
      })
      7 10

abbrev reviewing : Handler
reviewing j = (ended ready_for_review, beats 7 5 60 45 ∷ [])

abbrev worker : Worker
worker = record {
  queues = text "default" ∷ [];
  worker_id = text "a";
  lease_seconds = 60;
  handlers = λ job_type. some reviewing;
}

abbrev clock : Clock
clock = record { reaped_at = 38; woken_at = 39; claimed_at = 40; ended_at = 50 }

abbrev one_job : List Job
one_job = queued_job ∷ []

one_job-HasUniqueIds : HasUniqueIds one_job
unfolding has_key
one_job-HasUniqueIds = (refl, tt)

abbrev claimed_job : Job
claimed_job = claim_row (text "a") 60 5 40 queued_job

claimed :
    (claim_next worker.queues worker.worker_id worker.lease_seconds 5 clock.claimed_at
      (run_maintenance worker clock one_job)).0
    ≡ some claimed_job
unfolding run_maintenance claim_next reclaim_expired wake_parked update_first select_first
    update_where first_by contains text_eq
claimed = refl

run_once-IsRefused_example :
    IsRefused
      (context_lease claimed_job 5)
      (run (claims worker.queues (text "b") 60 5 70 ∷ []) (run_once worker 5 clock one_job).1)
run_once-IsRefused_example =
    run_once-IsRefused worker 5 clock one_job claimed_job reviewing one_job-HasUniqueIds claimed
      refl (by_state ready_for_review) (claims worker.queues (text "b") 60 5 70 ∷ [])
