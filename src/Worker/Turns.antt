-- ===== src/Worker/Turns.antt =====
-- What one turn of a worker leaves behind.
use lead_engine.Prelude.{
  ℕ, ◌<◌, ◌≡◌, refl, sym, ◌∙◌, ◌⊎◌, inl, inr, false, Option, none, some, List, arith, ◌==◌, ==_iff,
  Text, Bool-cases,
}
use lead_engine.Sql.{update_where, count_where, update_where_none}
use lead_engine.Sql.Keyed.{
  find_row, find_row-key, find_row-update_where, update_where-HasUniqueKeys,
}
use lead_engine.Job.{JobState, Job, Lease, key}
use lead_engine.Leasing.Rows.{fenced, finish_row, fail_row}
use lead_engine.Leasing.{claim_next, complete, fail, write_fenced, reclaim_expired}
use lead_engine.Leasing.Calls.{Call, claims, wakes, reclaims, apply, run}
use lead_engine.Leasing.Steps.{RowChanges, unchanged, also}
use lead_engine.Leasing.Histories.{HasUniqueIds, apply-HasUniqueIds, run-HasUniqueIds, run-Becomes}
use lead_engine.Leasing.Claim.{Claimed, claim_next-Claimed}
use lead_engine.Leasing.Fencing.{
  IsSpent, IsRefused, LeaseStep, kept, given_back, granted, RowChange-LeaseStep, run-IsRefused,
}
use lead_engine.Worker.{
  HandlerEnd, ended, raised, Handler, Worker, Clock, context_lease, run_maintenance, finish,
  claimed_turn, run_once,
}

-- The row is under this lease, or under none of this version, or a newer lease was granted.
abbrev IsAfter : ℕ → ℕ → Job → Type 0
IsAfter version token j =
    (version < j.lease_version)
    ⊎ ((j.lease_version ≡ version) × ((j.lease_token ≡ some token) ⊎ (j.lease_token ≡ none)))

module _ (v token : ℕ) where
  LeaseStep-IsAfter : {a b : Job} → LeaseStep a b → IsAfter v token a → IsAfter v token b
  LeaseStep-IsAfter (kept p q) s = ground arith
  LeaseStep-IsAfter (given_back p q) s = ground arith
  LeaseStep-IsAfter (granted p) s = ground arith

  RowChanges-IsAfter : {a b : Job} → RowChanges a b → IsAfter v token a → IsAfter v token b
  RowChanges-IsAfter unchanged s = s
  RowChanges-IsAfter (also r change) s =
      LeaseStep-IsAfter (RowChange-LeaseStep change) (RowChanges-IsAfter r s)

unfenced-IsSpent :
    (l : Lease) (j : Job)
    → key j ≡ l.job_id
    → IsAfter l.version l.token j
    → fenced l j ≡ false
    → IsSpent l.version j
unfenced-IsSpent l j k s f = ground arith

-- An end that writes: a terminal state or an error.
pub data EndsLease : HandlerEnd → Type 0 where
  by_state : (s : JobState) → EndsLease (ended s)
  by_error : (error : Text) → EndsLease (raised error)

module _ (l : Lease) (jobs : List Job) where
  write_fenced-rows {ℓ} :
      {A : Type ℓ} (x : A) (f : Job → Job)
      → (write_fenced l x f jobs).1 ≡ update_where (fenced l) f jobs
  unfolding write_fenced
  write_fenced-rows x f = elim (Bool-cases (count_where (fenced l) jobs == 0)) [
    | inl e ↦ rw e (sym (update_where_none (fenced l) f jobs ((==_iff _ 0).0 e)))
    | inr e ↦ rw e refl
  ]

  module _ (unique : HasUniqueIds jobs) (a : Job) (found : find_row key l.job_id jobs ≡ some a)
      (mine : key a ≡ l.job_id) (after : IsAfter l.version l.token a) where
    ended-IsRefused :
        (f : Job → Job)
        → ((r : Job) → key (f r) ≡ key r)
        → ((r : Job) → ((f r).lease_version ≡ r.lease_version) × ((f r).lease_token ≡ none))
        → (cs : List Call) → IsRefused l (run cs (update_where (fenced l) f jobs))
    ended-IsRefused f same gives_back cs =
        let at = find_row-update_where key (fenced l) f same l.job_id jobs in
        let unique' = update_where-HasUniqueKeys key (fenced l) f same jobs unique in
        elim (Bool-cases (fenced l a)) [
          | inl m ↦
              let (version, token) = gives_back a in
              run-IsRefused l (update_where (fenced l) f jobs) unique' (f a)
                (at ∙ rw found (rw m refl)) (inr (version ∙ ground arith, token)) cs
          | inr m ↦
              run-IsRefused l (update_where (fenced l) f jobs) unique' a (at ∙ rw found (rw m refl))
                (unfenced-IsSpent l a mine after m) cs
        ]

    finish-IsRefused :
        (now : ℕ) (end : HandlerEnd)
        → EndsLease end
        → (cs : List Call) → IsRefused l (run cs (finish l now end jobs))
    unfolding finish complete fail
    finish-IsRefused now _ (by_state s) cs =
        rw (write_fenced-rows {0} tt (finish_row s now))
          (ended-IsRefused (finish_row s now) (λ r. refl) (λ r. (refl, refl)) cs)
    finish-IsRefused now _ (by_error error) cs =
        ended-IsRefused (fail_row error now) (λ r. refl) (λ r. (refl, refl)) cs

Claimed-IsAfter :
    (queues : List Text) (worker : Text) (secs token now : ℕ) (jobs : List Job) (j : Job)
    (after : List Job)
    → Claimed queues worker secs token now jobs j after
    → IsAfter j.lease_version token j
Claimed-IsAfter queues worker secs token now jobs j after c = inr (refl, inl (rw c.row refl))

maintained-HasUniqueIds :
    (w : Worker) (t : Clock) (jobs : List Job)
    → HasUniqueIds jobs
    → HasUniqueIds (run_maintenance w t jobs)
unfolding run_maintenance apply
maintained-HasUniqueIds w t jobs unique =
    apply-HasUniqueIds (reclaim_expired 50 t.reaped_at jobs).1
      (apply-HasUniqueIds jobs unique (reclaims 50 t.reaped_at))
      (wakes (some w.queues) 45 t.woken_at)

-- A turn in which the handler ended with a state or an error leaves no lease behind: whatever
-- calls were committed while the handler ran, and whatever calls follow, and also where the lease
-- was lost to another worker before the handler ended, set_phase, save_checkpoint, park, complete
-- and fail under the turn's lease raise LeaseLostError, apply_cancellation and finish_cancelled
-- match no row, and no row changes. A heartbeat, which compares the token only, returns False and
-- changes no row, unless the job's row then carries the same token under a newer version. Job ids
-- are unique at the start.
pub run_once-IsRefused :
    (w : Worker) (token : ℕ) (t : Clock) (jobs : List Job) (j : Job) (handler : Handler)
    → HasUniqueIds jobs
    → (claim_next w.queues w.worker_id w.lease_seconds token t.claimed_at
        (run_maintenance w t jobs)).0
      ≡ some j
    → w.handlers j.job_type ≡ some handler
    → EndsLease (handler j).0
    → (later : List Call)
    → IsRefused (context_lease j token) (run later (run_once w token t jobs).1)
unfolding run_once
run_once-IsRefused w token t jobs j handler unique claimed known ends later =
    let rows = run_maintenance w t jobs in
    let unique0 = maintained-HasUniqueIds w t jobs unique in
    let out = claim_next w.queues w.worker_id w.lease_seconds token t.claimed_at rows in
    let c =
      claim_next-Claimed w.queues w.worker_id w.lease_seconds token t.claimed_at rows j unique0
        claimed in
    let unique1 = claimed_unique rows unique0 in
    let (a, at, changes) = run-Becomes j.id (handler j).1 out.1 unique1 j c.is_stored in
    rw (turn_rows out claimed) (
      finish-IsRefused (context_lease j token) (run (handler j).1 out.1)
        (run-HasUniqueIds (handler j).1 out.1 unique1) a at
        (find_row-key key j.id (run (handler j).1 out.1) a at)
        (RowChanges-IsAfter j.lease_version token changes
          (Claimed-IsAfter w.queues w.worker_id w.lease_seconds token t.claimed_at rows j out.1 c))
        t.ended_at (handler j).0 ends later)
  where
    claimed_unique :
        (rows : List Job)
        → HasUniqueIds rows
        → HasUniqueIds (claim_next w.queues w.worker_id w.lease_seconds token t.claimed_at rows).1
    claimed_unique rows u =
        unfold apply in
        apply-HasUniqueIds rows u (claims w.queues w.worker_id w.lease_seconds token t.claimed_at)

    turn_rows :
        (out : Option Job × List Job)
        → out.0 ≡ some j
        → (claimed_turn w token t out).1
          ≡ finish (context_lease j token) t.ended_at (handler j).0 (run (handler j).1 out.1)
    turn_rows (none, rows) e = absurd (cc)
    turn_rows (some k, rows) e = let it : k ≡ j = cc in rw it (rw known refl)
