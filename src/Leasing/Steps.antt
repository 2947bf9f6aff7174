-- ===== src/Leasing/Steps.antt =====
-- What a call does to one row, found by its primary key: nothing, or one of a few changes. A
-- relation on rows that holds of each change holds along every history.
use lead_engine.Prelude.{
  ℕ, ◌≡◌, refl, Bool, true, inl, inr, Option, some, List, [], ◌∷◌, ◌==◌, ==_iff, Text, Bool-cases,
  Option-cases, ltb, length, ap, map, sym, ◌∙◌, ◌-◌,
}
use lead_engine.Sql.{update_where, update_first, count_where, select_first}
use lead_engine.Sql.Keyed.{
  find_row, find_row-key, has_key, HasUniqueKeys, find_row-append_present, find_row-update_where,
  find_row-update_first,
}
use lead_engine.Sql.Ordered.{first_by, first_by-holds, find_row-first_by}
use lead_engine.Job.{JobState, Job, Lease, key, cancelled}
use lead_engine.Leasing.Rows.{
  NewJob, new_row, claimable, before, claim_row, fenced, heartbeat_live, renew_row, phase_row,
  checkpoint_row, cancellable, request_cancel_row, resumable, requeue_row, park_row, parked,
  finish_row, fail_row, lapsed, lapsed_exhausted, reap_failed_row, reap_requeued_row,
  cancel_pending, cancelling_row,
}
use lead_engine.Leasing.{
  create_job, claim_next, heartbeat, set_phase, save_checkpoint, request_cancel, resume_job, park,
  wake_parked, write_fenced, complete, fail, reclaim_expired, apply_cancellation, finish_cancelled,
}
use lead_engine.Leasing.Calls.{
  Call, creates, claims, beats, enters, checkpoints, cancels, resumes, parks, wakes, completes,
  fails, reclaims, starts_cancelling, ends_cancelled, apply,
}

-- The changes of one row that the statements make.
pub data RowChange (a : Job) : Job → Type 0 where
  claimed :
      (queues : List Text) (worker : Text) (secs token now : ℕ)
      → claimable queues a ≡ true
      → RowChange a (claim_row worker secs token now a)
  renewed : (token secs now : ℕ) → RowChange a (renew_row secs now a)
  entered : (s : JobState) (secs now : ℕ) → RowChange a (phase_row s secs now a)
  saved :
      (c : Text) (s : Option JobState) (secs now : ℕ) → RowChange a (checkpoint_row c s secs now a)
  cancel_asked : (by reason : Text) (now : ℕ) → RowChange a (request_cancel_row by reason now a)
  requeued : (now : ℕ) → RowChange a (requeue_row now a)
  was_parked : (reason : Text) (now : ℕ) → RowChange a (park_row reason now a)
  finished : (s : JobState) (now : ℕ) → RowChange a (finish_row s now a)
  failing : (error : Text) (now : ℕ) → RowChange a (fail_row error now a)
  reap_failed : (now : ℕ) → RowChange a (reap_failed_row now a)
  reap_requeued : (now : ℕ) → lapsed now a ≡ true → RowChange a (reap_requeued_row now a)
  cancelling_started : (now : ℕ) → RowChange a (cancelling_row now a)

pub data RowChanges (a : Job) : Job → Type 0 where
  unchanged : RowChanges a a
  also : {b c : Job} → RowChanges a b → RowChange b c → RowChanges a c

-- The row that was `a` is still there, changed in these ways only.
abbrev pub Becomes : Job → Option Job → Type 0
Becomes a found = (b : Job) × (found ≡ some b) × RowChanges a b

pub RowChanges-trans : {a b c : Job} → RowChanges a b → RowChanges b c → RowChanges a c
RowChanges-trans r unchanged = r
RowChanges-trans r (also s change) = also (RowChanges-trans r s) change

module _ (id : ℕ) (jobs : List Job) (a : Job) (found : find_row key id jobs ≡ some a) where
  stays : Becomes a (find_row key id jobs)
  stays = (a, found, unchanged)

  update_where-Becomes :
      (p : Job → Bool) (f : Job → Job)
      → ((r : Job) → key (f r) ≡ key r)
      → (p a ≡ true → RowChange a (f a))
      → Becomes a (find_row key id (update_where p f jobs))
  update_where-Becomes p f same change =
      rw (find_row-update_where key p f same id jobs, found)
        (elim (Bool-cases (p a)) [
          | inl e ↦ rw e (f a, refl, also unchanged (change e))
          | inr e ↦ rw e (a, refl, unchanged)
        ])

  update_first-Becomes :
      (n : ℕ) (p : Job → Bool) (f : Job → Job)
      → ((r : Job) → key (f r) ≡ key r)
      → (p a ≡ true → RowChange a (f a))
      → Becomes a (find_row key id (update_first n p f jobs))
  update_first-Becomes n p f same change = elim (find_row-update_first key p f same n id jobs) [
    | inl e ↦ (a, e ∙ found, unchanged)
    | inr (r, at, e, after) ↦
        let it : r ≡ a = cc in
        (f a, after ∙ ap (λ x. some (f x)) it, also unchanged (change (rw (← it) e)))
  ]

  write_fenced-Becomes {ℓ} :
      {A : Type ℓ} (l : Lease) (x : A) (f : Job → Job)
      → ((r : Job) → key (f r) ≡ key r)
      → RowChange a (f a)
      → Becomes a (find_row key id (write_fenced l x f jobs).1)
  unfolding write_fenced
  write_fenced-Becomes l x f same change = elim (Bool-cases (count_where (fenced l) jobs == 0)) [
    | inl e ↦ rw e stays
    | inr e ↦ rw e (update_where-Becomes (fenced l) f same (λ _. change))
  ]

module _ (id : ℕ) (jobs : List Job) (unique : HasUniqueKeys key jobs) (a : Job)
    (found : find_row key id jobs ≡ some a) where
  create_job-Becomes :
      (n : NewJob) (new now : ℕ) → Becomes a (find_row key id (create_job n new now jobs []).1)
  unfolding create_job
  create_job-Becomes n new now = elim (Bool-cases (has_key key new jobs)) [
    | inl e ↦ rw e (a, found, unchanged)
    | inr e ↦
        rw e (a, find_row-append_present key id jobs (new_row n new now ∷ []) a found, unchanged)
  ]

  claim_next-Becomes :
      (queues : List Text) (worker : Text) (secs token now : ℕ)
      → Becomes a (find_row key id (claim_next queues worker secs token now jobs).1)
  unfolding claim_next
  claim_next-Becomes queues worker secs token now =
      elim (Option-cases (first_by before (claimable queues) jobs)) [
        | inl e ↦ rw e (a, found, unchanged)
        | inr (j, e) ↦ rw e (
            update_where-Becomes id jobs a found (λ r. r.id == j.id)
              (claim_row worker secs token now) (λ r. refl)
              (λ same. claimed queues worker secs token now (it j e same)))
      ]
    where
      it :
          (j : Job)
          → first_by before (claimable queues) jobs ≡ some j
          → (a.id == j.id) ≡ true
          → claimable queues a ≡ true
      it j e same =
          let at : find_row key j.id jobs ≡ some j =
            find_row-first_by key before (claimable queues) jobs j unique e in
          let ids : id ≡ j.id =
            sym (find_row-key key id jobs a found) ∙ (==_iff a.id j.id).0 same in
          let eq : j ≡ a = cc in rw (← eq) (first_by-holds before (claimable queues) jobs j e)

  reclaim_expired-Becomes :
      (batch now : ℕ) → Becomes a (find_row key id (reclaim_expired batch now jobs).1)
  unfolding reclaim_expired
  reclaim_expired-Becomes batch now =
      let swept = update_first batch (lapsed_exhausted now) (reap_failed_row now) jobs in
      let (b, at, first) =
        update_first-Becomes id jobs a found batch (lapsed_exhausted now) (reap_failed_row now)
          (λ r. refl) (λ _. reap_failed now) in
      let remaining = batch - length (map key (select_first batch (lapsed_exhausted now) jobs)) in
      let (c, after, second) =
        update_first-Becomes id swept b at remaining (lapsed now) (reap_requeued_row now)
          (λ r. refl) (λ e. reap_requeued now e) in
      elim (Bool-cases (ltb 0 remaining)) [
        | inl e ↦ rw e (c, after, RowChanges-trans first second)
        | inr e ↦ rw e (b, at, first)
      ]

  -- A call changes the row of each job in the listed ways only, and never drops it.
  pub apply-Becomes : (c : Call) → Becomes a (find_row key id (apply c jobs))
  unfolding apply heartbeat set_phase save_checkpoint request_cancel resume_job park wake_parked
      complete fail apply_cancellation finish_cancelled
  apply-Becomes (creates n new now) = create_job-Becomes n new now
  apply-Becomes (claims queues worker secs token now) =
      claim_next-Becomes queues worker secs token now
  apply-Becomes (beats job_id token secs now) =
      update_where-Becomes id jobs a found (heartbeat_live job_id token) (renew_row secs now)
        (λ r. refl) (λ _. renewed token secs now)
  apply-Becomes (enters l state secs now) =
      write_fenced-Becomes id jobs a found l tt (phase_row state secs now) (λ r. refl)
        (entered state secs now)
  apply-Becomes (checkpoints l checkpoint state secs now) =
      write_fenced-Becomes id jobs a found l tt (checkpoint_row checkpoint state secs now)
        (λ r. refl) (saved checkpoint state secs now)
  apply-Becomes (cancels org_id job_id by reason now) =
      update_where-Becomes id jobs a found (cancellable org_id job_id)
        (request_cancel_row by reason now) (λ r. refl) (λ _. cancel_asked by reason now)
  apply-Becomes (resumes org_id job_id now) =
      update_where-Becomes id jobs a found (resumable org_id job_id) (requeue_row now) (λ r. refl)
        (λ _. requeued now)
  apply-Becomes (parks l reason now) =
      write_fenced-Becomes id jobs a found l tt (park_row reason now) (λ r. refl)
        (was_parked reason now)
  apply-Becomes (wakes queues min_age now) =
      update_where-Becomes id jobs a found (parked queues min_age now) (requeue_row now) (λ r. refl)
        (λ _. requeued now)
  apply-Becomes (completes l state now) =
      write_fenced-Becomes id jobs a found l tt (finish_row state now) (λ r. refl)
        (finished state now)
  apply-Becomes (fails l error now) =
      update_where-Becomes id jobs a found (fenced l) (fail_row error now) (λ r. refl)
        (λ _. failing error now)
  apply-Becomes (reclaims batch now) = reclaim_expired-Becomes batch now
  apply-Becomes (starts_cancelling l now) =
      update_where-Becomes id jobs a found (cancel_pending l) (cancelling_row now) (λ r. refl)
        (λ _. cancelling_started now)
  apply-Becomes (ends_cancelled l now) =
      update_where-Becomes id jobs a found (fenced l) (finish_row cancelled now) (λ r. refl)
        (λ _. finished cancelled now)
