-- ===== src/Tick/Freed.antt =====
-- A tick of lead_engine/worker.py lets go of the job that it leased.
use lead_engine.Prelude.{
  ℕ, ◌+◌, ◌≡◌, refl, ap, ◌∙◌, inl, inr, Bool, true, Option, none, some, List, [], ◌∷◌, ◌==◌, ltb,
  Bool-cases, Option-cases, Text, text, or_else,
}
use lead_engine.Sql.{update_where}
use lead_engine.Sql.Keyed.{find_row}
use lead_engine.Jobs.Transitions.{ready_for_review, completed}
use lead_engine.Jobs.{Row, Db, key}
use lead_engine.Queue.{
  job_is, lease_next, yield_slice, yield_row, fail, retry_row, failed_row, backoff, attempts_of,
  or_three, release, release_row, complete, complete_row,
}
use lead_engine.Tick.{
  Ending, yielded, researched, benchmarked, raised, Drive, is_paused, settle_research,
  settle_benchmark, settle, sweep, driven, run_worker_tick,
}

-- No worker holds the row.
pub record IsFree (r : Row) : Type 0 where
  pub no_worker : r.worker_id ≡ none
  pub no_lease : r.lease_expires_at ≡ none

-- Nobody holds the job of that id, if there is one.
abbrev pub IsFreeAt : ℕ → Db → Type 0
IsFreeAt job_id db = (r : Row) → find_row key job_id db.jobs ≡ some r → IsFree r

freed :
    (job_id : ℕ) (f : Row → Row) (rows : List Row) (r : Row)
    → ((x : Row) → IsFree (f x))
    → ((x : Row) → (f x).job_id ≡ x.job_id)
    → find_row key job_id (update_where (job_is job_id) f rows) ≡ some r
    → IsFree r
unfolding find_row update_where
freed job_id f [] r h k e = absurd (cc)
freed job_id f (x ∷ rows) r h k e = elim (Bool-cases (x.job_id == job_id)) [
  | inl m ↦
      let hit : ((f x).job_id == job_id) ≡ true = ap (λ n. n == job_id) (k x) ∙ m in
      let here : some (f x) ≡ some r = rw (m, hit) at e in
      let same : f x ≡ r = cc in rw (← same) (h x)
  | inr m ↦ freed job_id f rows r h k (rw (m, m) at e)
]

free : (r : Row) → r.worker_id ≡ none → r.lease_expires_at ≡ none → IsFree r
free r w l = record { no_worker = w; no_lease = l }

module _ (job_id now : ℕ) where
  fail-IsFreeAt : (reason : Text) (db : Db) → IsFreeAt job_id (fail job_id reason now db).1
  unfolding fail
  fail-IsFreeAt reason db = elim (Option-cases (find_row key job_id db.jobs)) [
    | inl e ↦ rw e (λ r q. absurd (missing r e q))
    | inr (x, e) ↦ elim (Bool-cases (ltb (attempts_of x) (or_three x.max_attempts))) [
      | inl m ↦
          rw (e, m)
            (λ r.
              freed job_id (retry_row reason (now + backoff (attempts_of x)) now) db.jobs r
                (λ y. free _ refl refl) (λ y. refl))
      | inr m ↦
          rw (e, m)
            (λ r.
              freed job_id (failed_row reason now) db.jobs r (λ y. free _ refl refl) (λ y. refl))
    ]
  ]
    where
      missing :
          (r : Row) → find_row key job_id db.jobs ≡ none → find_row key job_id db.jobs ≡ some r → ⊥
      missing r e q = cc

  release-IsFreeAt : (db : Db) → IsFreeAt job_id (release job_id now db)
  unfolding release
  release-IsFreeAt db r =
      freed job_id (release_row now) db.jobs r (λ y. free _ refl refl) (λ y. refl)

  complete-IsFreeAt : (db : Db) → IsFreeAt job_id (complete job_id now db)
  unfolding complete
  complete-IsFreeAt db r =
      freed job_id (complete_row now) db.jobs r (λ y. free _ refl refl) (λ y. refl)

  yield_slice-IsFreeAt : (db : Db) → IsFreeAt job_id (yield_slice job_id now db)
  unfolding yield_slice
  yield_slice-IsFreeAt db r =
      freed job_id (yield_row now) db.jobs r (λ y. free _ refl refl) (λ y. refl)

  settle-IsFreeAt : (end : Ending) (db : Db) → IsFreeAt job_id (settle job_id now end db).1
  unfolding settle settle_research settle_benchmark
  settle-IsFreeAt (yielded state) db = yield_slice-IsFreeAt db
  settle-IsFreeAt (researched state reason) db =
      elim (Bool-cases (is_paused (or_else state ready_for_review))) [
        | inl e ↦ rw e (fail-IsFreeAt (or_else reason (text "paused")) db)
        | inr e ↦ rw e (release-IsFreeAt db)
      ]
  settle-IsFreeAt (benchmarked state reason) db =
      elim (Bool-cases (is_paused (or_else state completed))) [
        | inl e ↦ rw e (fail-IsFreeAt (or_else reason (text "paused")) db)
        | inr e ↦ rw e (complete-IsFreeAt db)
      ]
  settle-IsFreeAt (raised error) db = fail-IsFreeAt error db

-- Where a tick ends: the job that it leased, if any, is held by nobody.
abbrev pub IsLetGo : Option ℕ → Db → Type 0
IsLetGo none db = Unit
IsLetGo (some job_id) db = IsFreeAt job_id db

driven-IsLetGo :
    (drive : Drive) (now : ℕ) (found : Option Row × Db)
    → IsLetGo (driven drive now found).0 (driven drive now found).2
driven-IsLetGo drive now (none, db) = tt
driven-IsLetGo drive now (some r, db) = settle-IsFreeAt r.job_id now (drive r db).0 (drive r db).1

-- However the run of its job ends, by an exception too, and whatever was written to the tables meanwhile, a
-- tick leaves the job that it leased without a worker and without a lease.
pub run_worker_tick-IsLetGo :
    (pg : Bool) (worker_id : Text) (lease_seconds stale_after_hours : ℕ) (drive : Drive)
    (now ended_at : ℕ) (db : Db)
    → IsLetGo
        (run_worker_tick pg worker_id lease_seconds stale_after_hours drive now ended_at db).0
        (run_worker_tick pg worker_id lease_seconds stale_after_hours drive now ended_at db).2
unfolding run_worker_tick
run_worker_tick-IsLetGo pg worker_id lease_seconds stale_after_hours drive now ended_at db =
    driven-IsLetGo drive ended_at
      (lease_next pg worker_id lease_seconds now (sweep stale_after_hours now db))
