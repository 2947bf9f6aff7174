-- ===== src/Examples/Turns.antt =====
-- Runs of lead_engine/queue.py: two workers, a reaper pass, a failure.
use lead_engine.Prelude.{
  ◌≡◌, ◌≢◌, ap, refl, false, true, some, List, [], ◌∷◌, arith, text, text_eq, inr, ◌≤◌, ◌+◌, All,
}
use lead_engine.Sql.Keyed.{find_row, has_key}
use lead_engine.Jobs.Transitions.{running}
use lead_engine.Jobs.{Row, Db, key, new_row}
use lead_engine.Jobs.Audit.{HasUniqueIds}
use lead_engine.Queue.{is_text, fail, retry_row, backoff}
use lead_engine.Queue.Histories.{Call, leases, reclaims, wakes, beats, run}
use lead_engine.Queue.Leases.{IsForeign, run-keeps_lease}
use lead_engine.Queue.Attempts.{IsWithinBudget, run-IsWithinBudget}
use lead_engine.Queue.Backoff.{IsEarly, backoff_bounds, fail_waits}

abbrev fresh_job : Row
fresh_job = new_row 1 (text "icp") (text "{}") 10

-- Leased by a worker until 700.
abbrev held_job : Row
held_job = record fresh_job {
  state = running;
  worker_id = some (text "a");
  lease_expires_at = some 700;
  attempts = some 1;
}

abbrev held_db : Db
held_db = record { jobs = held_job ∷ []; events = [] }

held_db-HasUniqueIds : HasUniqueIds held_db
unfolding has_key
held_db-HasUniqueIds = (refl, tt)

held_row : find_row key 1 held_db.jobs ≡ some held_job
unfolding find_row
held_row = refl

abbrev others_call : List Call
others_call =
    leases true (text "b") 600 200 ∷ reclaims 700 ∷ beats 1 (text "b") 600 250 ∷ wakes 300 ∷ []

false-ne-true : false ≡ true → ⊥
false-ne-true h = cc

-- Worker "a" holds the job, and "b" is another one.
other_worker : some (text "a") ≢ some (text "b")
unfolding text_eq
other_worker h =
    let q : is_text (some (text "a")) (text "b") ≡ is_text (some (text "b")) (text "b") =
      ap (λ o. is_text o (text "b")) h in
    false-ne-true q

others-IsForeign : All (IsForeign 1 700 held_job.worker_id) others_call
others-IsForeign = (tt, (omega arith, (inr other_worker, (tt, tt))))

run-keeps_lease_example : find_row key 1 (run others_call held_db).jobs ≡ some held_job
run-keeps_lease_example =
    run-keeps_lease 1 700 others_call held_db held_job held_db-HasUniqueIds held_row refl refl
      others-IsForeign

held-IsWithinBudget : IsWithinBudget held_job
held-IsWithinBudget = omega arith

run-IsWithinBudget_example :
    (b : Row) × (find_row key 1 (run others_call held_db).jobs ≡ some b) × IsWithinBudget b
run-IsWithinBudget_example =
    run-IsWithinBudget 1 others_call held_db held_job held_db-HasUniqueIds held_row
      held-IsWithinBudget

abbrev soon : List Call
soon = leases true (text "b") 600 259 ∷ reclaims 9000 ∷ []

soon-IsEarly : All (IsEarly 1 (200 + 60)) soon
soon-IsEarly = (omega arith, (tt, tt))

fail_waits_example :
    find_row key 1 (run soon (fail 1 (text "x") 200 held_db).1).jobs
    ≡ some (retry_row (text "x") (200 + backoff 1) 200 held_job)
fail_waits_example =
    fail_waits 1 (text "x") 200 held_db held_job held_row refl soon held_db-HasUniqueIds
      soon-IsEarly

backoff_bounds_example : (60 ≤ backoff 7) × (backoff 7 ≤ 3600)
backoff_bounds_example = backoff_bounds 7
