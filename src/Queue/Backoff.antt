-- ===== src/Queue/Backoff.antt =====
-- fail of lead_engine/queue.py: how long a failed job waits, and what it does to a finished one.
use lead_engine.Prelude.{
  ℕ, zero, suc, ◌+◌, ◌-◌, ◌*◌, ◌^◌, ◌≤◌, ◌<◌, ◌≡◌, ◌≢◌, refl, sym, ◌∙◌, min, true, some, List,
  arith, ◌==◌, ==_iff, All, Text, ltb,
}
use lead_engine.Sql.Keyed.{find_row, find_row-key, find_row-update_where}
use lead_engine.Jobs.Transitions.{queued, state_eq}
use lead_engine.Jobs.{Row, Db, key}
use lead_engine.Jobs.Audit.{HasUniqueIds}
use lead_engine.Queue.{
  attempts_of, or_three, backoff, fail, retry_row, job_is, leasable, expired, stale, wakeable,
}
use lead_engine.Queue.Histories.{
  Call, fails, leases, reclaims, run, apply, apply-HasUniqueIds, Change, untouched, enqueued,
  leased, spent, requeued, staled, woken, completed, released, yielded, retried, gave_up, beaten,
  run-keeps, enqueues, expires, wakes, completes, releases, yields, beats,
}

power_pos : (n : ℕ) → 1 ≤ 2 ^ n
power_pos zero = omega arith
power_pos (suc n) = omega (arith, power_pos n)

-- The wait after a failure is between a minute and an hour.
pub backoff_bounds : (n : ℕ) → (60 ≤ backoff n) × (backoff n ≤ 3600)
unfolding backoff
backoff_bounds n = (omega (arith, power_pos (n - 1)), omega arith)

-- The wait doubles with each attempt until it is an hour.
backoff-suc : (n : ℕ) → backoff (suc (suc n)) ≡ min 3600 (2 * backoff (suc n))
unfolding backoff
backoff-suc n =
    let next : suc (suc n) - 1 ≡ suc n = omega arith in
    let this : suc n - 1 ≡ n = omega arith in rw (next, this) (omega arith)

-- A call that is not about the job, and leases nothing from `until` on.
abbrev pub IsEarly : ℕ → ℕ → Call → Type 0
IsEarly id until (enqueues job_id now) = job_id ≢ id
IsEarly id until (leases pg worker secs now) = now < until
IsEarly id until (reclaims now) = Unit
IsEarly id until (expires hours now) = Unit
IsEarly id until (wakes now) = Unit
IsEarly id until (completes job_id now) = job_id ≢ id
IsEarly id until (releases job_id now) = job_id ≢ id
IsEarly id until (yields job_id now) = job_id ≢ id
IsEarly id until (fails job_id reason now) = job_id ≢ id
IsEarly id until (beats job_id worker secs now) = job_id ≢ id

-- The row that waits in the queue, to be resumed at `at`.
abbrev IsWaiting : ℕ → ℕ → Row → Row → Type 0
IsWaiting id at waiting a =
    (a ≡ waiting) × (key a ≡ id) × (a.state ≡ queued) × (a.resume_at ≡ some at)

module _ (r : Row) (queued_now : r.state ≡ queued) where
  early-not_leasable : (at now : ℕ) → r.resume_at ≡ some at → now < at → leasable now r ≡ true → ⊥
  early-not_leasable at now h early e = ground arith

  queued-not_expired : (now : ℕ) → expired now r ≡ true → ⊥
  queued-not_expired now e = ground arith

  queued-not_stale : (hours now : ℕ) → stale hours now r ≡ true → ⊥
  unfolding state_eq
  queued-not_stale hours now e = ground arith

  queued-not_wakeable : (now : ℕ) → wakeable now r ≡ true → ⊥
  unfolding state_eq
  queued-not_wakeable now e = ground arith

module _ (id until at : ℕ) (waiting : Row) (later : until ≤ at) where
  foreign :
      (job_id : ℕ) (a : Row)
      → (a.job_id == job_id) ≡ true
      → IsWaiting id at waiting a
      → job_id ≢ id
      → ⊥
  foreign job_id a m h other = other (sym ((==_iff a.job_id job_id).0 m) ∙ h.1)

  Change-IsWaiting :
      (c : Call) (a b : Row)
      → IsEarly id until c
      → Change c a b
      → IsWaiting id at waiting a
      → IsWaiting id at waiting b
  Change-IsWaiting c a _ q untouched h = h
  Change-IsWaiting c a _ q (enqueued job_id now e m) h = absurd (foreign job_id a m h (rw e at q))
  Change-IsWaiting c a _ q (leased pg worker secs now e m) h =
      absurd (early-not_leasable a h.2 at now h.3 (before now (rw e at q)) m)
    where
      before : (now : ℕ) → now < until → now < at
      before now early = omega arith
  Change-IsWaiting c a _ q (spent now e m) h = absurd (queued-not_expired a h.2 now (ground arith))
  Change-IsWaiting c a _ q (requeued now e m) h = absurd (queued-not_expired a h.2 now m)
  Change-IsWaiting c a _ q (staled hours now e m) h = absurd (queued-not_stale a h.2 hours now m)
  Change-IsWaiting c a _ q (woken now e m) h = absurd (queued-not_wakeable a h.2 now m)
  Change-IsWaiting c a _ q (completed job_id now e m) h = absurd (foreign job_id a m h (rw e at q))
  Change-IsWaiting c a _ q (released job_id now e m) h = absurd (foreign job_id a m h (rw e at q))
  Change-IsWaiting c a _ q (yielded job_id now e m) h = absurd (foreign job_id a m h (rw e at q))
  Change-IsWaiting c a _ q (retried job_id reason now e m) h =
      absurd (foreign job_id a m h (rw e at q))
  Change-IsWaiting c a _ q (gave_up job_id reason now e m) h =
      absurd (foreign job_id a m h (rw e at q))
  Change-IsWaiting c a _ q (beaten job_id worker secs now e m) h =
      absurd (foreign job_id a (ground arith) h (rw e at q))

module _ (id : ℕ) (reason : Text) (now : ℕ) (db : Db) (r : Row)
    (found : find_row key id db.jobs ≡ some r)
    (more : ltb (attempts_of r) (or_three r.max_attempts) ≡ true) where
  abbrev waiting_row : Row
  waiting_row = retry_row reason (now + backoff (attempts_of r)) now r

  -- The row that a failure with attempts left writes, whatever state it was in.
  pub fail_retries :
      ((fail id reason now db).0 ≡ some queued)
      × (find_row key id (fail id reason now db).1.jobs ≡ some waiting_row)
  unfolding fail
  fail_retries = rw found (
      rw more (
        refl,
        find_row-update_where key (job_is id) (retry_row reason (now + backoff (attempts_of r)) now)
              (λ x. refl) id db.jobs
            ∙ rw found (rw ((==_iff r.job_id id).1 (find_row-key key id db.jobs r found))),
      ))

  -- A job that failed with attempts left stays in the queue untouched for at least a minute: no
  -- history of lease attempts, reaper passes, wake-ups and calls on other jobs before then changes
  -- its row. Job ids are unique at the start.
  pub fail_waits :
      (cs : List Call)
      → HasUniqueIds db
      → All (IsEarly id (now + 60)) cs
      → find_row key id (run cs (fail id reason now db).1).jobs
        ≡ some (retry_row reason (now + backoff (attempts_of r)) now r)
  unfolding apply
  fail_waits cs unique early =
      let later : now + 60 ≤ now + backoff (attempts_of r) =
        omega (arith, (backoff_bounds (attempts_of r)).0) in
      let (b, at, h) =
        run-keeps (Change-IsWaiting id (now + 60) (now + backoff (attempts_of r)) waiting_row later)
          id cs (fail id reason now db).1 early (apply-HasUniqueIds db unique (fails id reason now))
          waiting_row fail_retries.1 (refl, find_row-key key id db.jobs r found, refl, refl) in
      rw (← h.0) at
