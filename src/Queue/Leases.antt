-- ===== src/Queue/Leases.antt =====
-- Who holds a job of lead_engine/queue.py: its worker until the lease ends.
use lead_engine.Prelude.{
  ℕ, ◌≤◌, ◌≡◌, ◌≢◌, refl, sym, ap, ◌∙◌, ◌⊎◌, inl, inr, true, Option, none, some, Text,
  text_eq_sound, List, arith, ◌==◌, ==_iff, All,
}
use lead_engine.Sql.Keyed.{find_row, find_row-key}
use lead_engine.Jobs.Transitions.{state_eq}
use lead_engine.Jobs.{Row, Db, key}
use lead_engine.Jobs.Audit.{HasUniqueIds}
use lead_engine.Queue.{is_leased, leasable, expired, stale, wakeable, is_text, held_by}
use lead_engine.Queue.Histories.{
  Call, enqueues, leases, reclaims, expires, wakes, completes, releases, yields, fails, beats, run,
  Change, untouched, enqueued, leased, spent, requeued, staled, woken, completed, released, yielded,
  retried, gave_up, beaten, run-keeps,
}

-- Any call but enqueue, complete, release, yield_slice and fail on the job itself, a heartbeat on it
-- by its holder, and a reaper pass after `end`.
abbrev pub IsForeign : ℕ → ℕ → Option Text → Call → Type 0
IsForeign id end holder (enqueues job_id now) = job_id ≢ id
IsForeign id end holder (leases pg worker secs now) = Unit
IsForeign id end holder (reclaims now) = now ≤ end
IsForeign id end holder (expires hours now) = Unit
IsForeign id end holder (wakes now) = Unit
IsForeign id end holder (completes job_id now) = job_id ≢ id
IsForeign id end holder (releases job_id now) = job_id ≢ id
IsForeign id end holder (yields job_id now) = job_id ≢ id
IsForeign id end holder (fails job_id reason now) = job_id ≢ id
IsForeign id end holder (beats job_id worker secs now) = (job_id ≢ id) ⊎ (holder ≢ some worker)

module _ (r : Row) where
  leased-not_leasable : (now : ℕ) → is_leased r.state ≡ true → leasable now r ≡ true → ⊥
  leased-not_leasable now h e = ground arith

  lasting-not_expired :
      (end now : ℕ) → r.lease_expires_at ≡ some end → now ≤ end → expired now r ≡ true → ⊥
  lasting-not_expired end now at h e = ground arith

  leased-not_stale : (hours now : ℕ) → is_leased r.state ≡ true → stale hours now r ≡ true → ⊥
  unfolding state_eq
  leased-not_stale hours now h e = ground arith

  leased-not_wakeable : (now : ℕ) → is_leased r.state ≡ true → wakeable now r ≡ true → ⊥
  unfolding state_eq
  leased-not_wakeable now h e = ground arith

same_job : (job_id id : ℕ) (r : Row) → (r.job_id == job_id) ≡ true → key r ≡ id → job_id ≡ id
same_job job_id id r m k = sym ((==_iff r.job_id job_id).0 m) ∙ k

names_holder :
    (holder : Option Text) (worker : Text) → is_text holder worker ≡ true → holder ≡ some worker
names_holder none worker h = cc
names_holder (some name) worker h = ap some (text_eq_sound name worker h)

holds :
    (job_id : ℕ) (worker : Text) (r : Row)
    → held_by job_id worker r ≡ true
    → r.worker_id ≡ some worker
holds job_id worker r h = names_holder r.worker_id worker (ground arith)

-- The row that a worker holds until `end`.
abbrev IsHeld : ℕ → ℕ → Row → Row → Type 0
IsHeld id end held a =
    (a ≡ held) × (key a ≡ id) × (is_leased a.state ≡ true) × (a.lease_expires_at ≡ some end)

module _ (id end : ℕ) (held : Row) where
  not_beaten :
      (job_id : ℕ) (worker : Text) (a : Row)
      → (job_id ≢ id) ⊎ (held.worker_id ≢ some worker)
      → job_id ≡ id
      → held.worker_id ≡ some worker
      → ⊥
  not_beaten job_id worker a (inl other) same holds = other same
  not_beaten job_id worker a (inr other) same holds = other holds

  Change-IsHeld :
      (c : Call) (a b : Row)
      → IsForeign id end held.worker_id c
      → Change c a b
      → IsHeld id end held a
      → IsHeld id end held b
  Change-IsHeld c a _ q untouched h = h
  Change-IsHeld c a _ q (enqueued job_id now e m) h =
      absurd ((rw e at q) (same_job job_id id a m h.1))
  Change-IsHeld c a _ q (leased pg worker secs now e m) h = absurd (leased-not_leasable a now h.2 m)
  Change-IsHeld c a _ q (spent now e m) h =
      absurd (lasting-not_expired a end now h.3 (rw e at q) (ground arith))
  Change-IsHeld c a _ q (requeued now e m) h =
      absurd (lasting-not_expired a end now h.3 (rw e at q) m)
  Change-IsHeld c a _ q (staled hours now e m) h = absurd (leased-not_stale a hours now h.2 m)
  Change-IsHeld c a _ q (woken now e m) h = absurd (leased-not_wakeable a now h.2 m)
  Change-IsHeld c a _ q (completed job_id now e m) h =
      absurd ((rw e at q) (same_job job_id id a m h.1))
  Change-IsHeld c a _ q (released job_id now e m) h =
      absurd ((rw e at q) (same_job job_id id a m h.1))
  Change-IsHeld c a _ q (yielded job_id now e m) h =
      absurd ((rw e at q) (same_job job_id id a m h.1))
  Change-IsHeld c a _ q (retried job_id reason now e m) h =
      absurd ((rw e at q) (same_job job_id id a m h.1))
  Change-IsHeld c a _ q (gave_up job_id reason now e m) h =
      absurd ((rw e at q) (same_job job_id id a m h.1))
  Change-IsHeld c a _ q (beaten job_id worker secs now e m) h = absurd (
      not_beaten job_id worker a (rw e at q) (same_job job_id id a (ground arith) h.1)
        (ap (λ (r : Row). r.worker_id) (sym h.0) ∙ holds job_id worker a m))

-- A job in a leased state whose lease ends at `end` keeps its row, its worker included, through
-- every history of lease_next calls of any workers, reaper passes up to `end`, passes over stale and
-- due paused jobs, heartbeats on the job by other workers, and calls on other jobs. The calls enqueue,
-- complete, release, yield_slice and fail on the job itself, by whichever worker, are left out. Job
-- ids are unique at the start.
pub run-keeps_lease :
    (id end : ℕ) (cs : List Call) (db : Db) (held : Row)
    → HasUniqueIds db
    → find_row key id db.jobs ≡ some held
    → is_leased held.state ≡ true
    → held.lease_expires_at ≡ some end
    → All (IsForeign id end held.worker_id) cs
    → find_row key id (run cs db).jobs ≡ some held
run-keeps_lease id end cs db held unique found state lasts foreign =
    let (b, at, h) =
      run-keeps (Change-IsHeld id end held) id cs db foreign unique held found
        (refl, find_row-key key id db.jobs held found, state, lasts) in
    rw (← h.0) at
