-- ===== src/Leasing/Histories.antt =====
-- Histories of calls: the primary key stays unique, and each row goes through listed changes only.
use lead_engine.Prelude.{
  ℕ, ◌≡◌, refl, Bool, inl, inr, some, List, [], ◌∷◌, ◌-◌, ◌==◌, Text, Bool-cases, Option-cases,
  length, map, ltb,
}
use lead_engine.Sql.{update_where, update_first, count_where, select_first}
use lead_engine.Sql.Keyed.{
  find_row, has_key, HasUniqueKeys, update_where-HasUniqueKeys, update_first-HasUniqueKeys,
  append-HasUniqueKeys,
}
use lead_engine.Sql.Ordered.{first_by}
use lead_engine.Job.{Job, Lease, key, cancelled}
use lead_engine.Leasing.Rows.{
  new_row, NewJob, claimable, before, claim_row, fenced, heartbeat_live, renew_row, phase_row,
  checkpoint_row, cancellable, request_cancel_row, resumable, requeue_row, park_row, parked,
  finish_row, fail_row, lapsed, lapsed_exhausted, reap_failed_row, reap_requeued_row,
  cancel_pending, cancelling_row,
}
use lead_engine.Leasing.{
  create_job, claim_next, heartbeat, set_phase, save_checkpoint, request_cancel, resume_job, park,
  wake_parked, write_fenced, complete, fail, reclaim_expired, apply_cancellation, finish_cancelled,
}
use lead_engine.Leasing.Calls.{
  Call, creates, claims, beats, enters, checkpoints, cancels, resumes, parks, wakes, completes,
  fails, reclaims, starts_cancelling, ends_cancelled, apply, run,
}
use lead_engine.Leasing.Steps.{Becomes, unchanged, RowChanges-trans, apply-Becomes}

abbrev pub HasUniqueIds : List Job → Type 0
HasUniqueIds jobs = HasUniqueKeys key jobs

module _ (jobs : List Job) (unique : HasUniqueIds jobs) where
  updated :
      (p : Job → Bool) (f : Job → Job)
      → ((r : Job) → key (f r) ≡ key r)
      → HasUniqueIds (update_where p f jobs)
  updated p f same = update_where-HasUniqueKeys key p f same jobs unique

  written {ℓ} :
      {A : Type ℓ} (l : Lease) (x : A) (f : Job → Job)
      → ((r : Job) → key (f r) ≡ key r)
      → HasUniqueIds (write_fenced l x f jobs).1
  unfolding write_fenced
  written l x f same = elim (Bool-cases (count_where (fenced l) jobs == 0)) [
    | inl e ↦ rw e unique
    | inr e ↦ rw e (updated (fenced l) f same)
  ]

  created : (n : NewJob) (id now : ℕ) → HasUniqueIds (create_job n id now jobs []).1
  unfolding create_job
  created n id now = elim (Bool-cases (has_key key id jobs)) [
    | inl e ↦ rw e unique
    | inr e ↦ rw e (append-HasUniqueKeys key jobs (new_row n id now) unique e)
  ]

  claimed :
      (queues : List Text) (worker : Text) (secs token now : ℕ)
      → HasUniqueIds (claim_next queues worker secs token now jobs).1
  unfolding claim_next
  claimed queues worker secs token now =
      elim (Option-cases (first_by before (claimable queues) jobs)) [
        | inl e ↦ rw e unique
        | inr (j, e) ↦
            rw e (updated (λ r. r.id == j.id) (claim_row worker secs token now) (λ r. refl))
      ]

  reclaimed : (batch now : ℕ) → HasUniqueIds (reclaim_expired batch now jobs).1
  unfolding reclaim_expired
  reclaimed batch now =
      let swept =
        update_first-HasUniqueKeys key (lapsed_exhausted now) (reap_failed_row now) (λ r. refl)
          batch jobs unique in
      let remaining = batch - length (map key (select_first batch (lapsed_exhausted now) jobs)) in
      elim (Bool-cases (ltb 0 remaining)) [
        | inl e ↦ rw e (
            update_first-HasUniqueKeys key (lapsed now) (reap_requeued_row now) (λ r. refl)
              remaining (update_first batch (lapsed_exhausted now) (reap_failed_row now) jobs)
              swept)
        | inr e ↦ rw e swept
      ]

  pub apply-HasUniqueIds : (c : Call) → HasUniqueIds (apply c jobs)
  unfolding apply heartbeat set_phase save_checkpoint request_cancel resume_job park wake_parked
      complete fail apply_cancellation finish_cancelled
  apply-HasUniqueIds (creates n id now) = created n id now
  apply-HasUniqueIds (claims queues worker secs token now) = claimed queues worker secs token now
  apply-HasUniqueIds (beats job_id token secs now) =
      updated (heartbeat_live job_id token) (renew_row secs now) (λ r. refl)
  apply-HasUniqueIds (enters l state secs now) = written l tt (phase_row state secs now) (λ r. refl)
  apply-HasUniqueIds (checkpoints l checkpoint state secs now) =
      written l tt (checkpoint_row checkpoint state secs now) (λ r. refl)
  apply-HasUniqueIds (cancels org_id job_id by reason now) =
      updated (cancellable org_id job_id) (request_cancel_row by reason now) (λ r. refl)
  apply-HasUniqueIds (resumes org_id job_id now) =
      updated (resumable org_id job_id) (requeue_row now) (λ r. refl)
  apply-HasUniqueIds (parks l reason now) = written l tt (park_row reason now) (λ r. refl)
  apply-HasUniqueIds (wakes queues min_age now) =
      updated (parked queues min_age now) (requeue_row now) (λ r. refl)
  apply-HasUniqueIds (completes l state now) = written l tt (finish_row state now) (λ r. refl)
  apply-HasUniqueIds (fails l error now) = updated (fenced l) (fail_row error now) (λ r. refl)
  apply-HasUniqueIds (reclaims batch now) = reclaimed batch now
  apply-HasUniqueIds (starts_cancelling l now) =
      updated (cancel_pending l) (cancelling_row now) (λ r. refl)
  apply-HasUniqueIds (ends_cancelled l now) =
      updated (fenced l) (finish_row cancelled now) (λ r. refl)

pub run-HasUniqueIds :
    (cs : List Call) (jobs : List Job) → HasUniqueIds jobs → HasUniqueIds (run cs jobs)
unfolding run
run-HasUniqueIds [] jobs u = u
run-HasUniqueIds (c ∷ cs) jobs u = run-HasUniqueIds cs (apply c jobs) (apply-HasUniqueIds jobs u c)

pub run-Becomes :
    (id : ℕ) (cs : List Call) (jobs : List Job)
    → HasUniqueIds jobs
    → (a : Job) → find_row key id jobs ≡ some a
    → Becomes a (find_row key id (run cs jobs))
unfolding run
run-Becomes id [] jobs u a e = (a, e, unchanged)
run-Becomes id (c ∷ cs) jobs u a e =
    let (b, at, first) = apply-Becomes id jobs u a e c in
    let (z, after, rest) = run-Becomes id cs (apply c jobs) (apply-HasUniqueIds jobs u c) b at in
    (z, after, RowChanges-trans first rest)
