-- ===== src/Leasing/Ends.antt =====
-- A lease is good for one end: what is left of it after a write that gives it back.
use lead_engine.Prelude.{
  ℕ, ◌≡◌, refl, sym, ap, ◌∙◌, inl, inr, true, false, none, some, List, arith, ◌==◌, Text,
  Bool-cases, Option-cases,
}
use lead_engine.Sql.{update_where, count_where, select_one, count_where_pos}
use lead_engine.Sql.Keyed.{
  find_row, count_where-find_row, find_row-update_where, count_found, update_where-HasUniqueKeys,
}
use lead_engine.Job.{JobState, Job, Lease, key}
use lead_engine.Leasing.Rows.{fenced, park_row, finish_row, fail_row}
use lead_engine.Leasing.{ok, err, lease_lost, write_fenced, park, complete, fail}
use lead_engine.Leasing.Calls.{Call, run}
use lead_engine.Leasing.Histories.{HasUniqueIds}
use lead_engine.Leasing.Fencing.{IsRefused, run-IsRefused}

-- The writes that end an attempt, where they succeed.
pub data Ends (l : Lease) (jobs after : List Job) : Type 0 where
  by_park : (reason : Text) (now : ℕ) → park l reason now jobs ≡ (ok tt, after) → Ends l jobs after
  by_complete :
      (s : JobState) (now : ℕ) → complete l s now jobs ≡ (ok tt, after) → Ends l jobs after
  by_fail :
      (error : Text) (now : ℕ) (s : JobState)
      → fail l error now jobs ≡ (ok s, after)
      → Ends l jobs after

module _ (l : Lease) (jobs : List Job) (unique : HasUniqueIds jobs) where
  -- A fenced statement that wrote has written the row with the lease's id.
  written_row :
      (f : Job → Job)
      → ((r : Job) → key (f r) ≡ key r)
      → (count_where (fenced l) jobs == 0) ≡ false
      → (a : Job) × (fenced l a ≡ true)
        × (find_row key l.job_id (update_where (fenced l) f jobs) ≡ some (f a))
  written_row f same some_rows = elim (Option-cases (find_row key l.job_id jobs)) [
    | inl e ↦ absurd (none_found e)
    | inr (a, e) ↦ elim (Bool-cases (fenced l a)) [
      | inl m ↦ (a, m, find_row-update_where key (fenced l) f same l.job_id jobs ∙ rw e (rw m))
      | inr m ↦ absurd (not_matched a e m)
    ]
  ]
    where
      counted : count_where (fenced l) jobs ≡ count_found (fenced l) (find_row key l.job_id jobs)
      counted = count_where-find_row key l.job_id (fenced l) jobs (λ r h. ground arith) unique

      none_found : find_row key l.job_id jobs ≡ none → ⊥
      none_found e = ground (arith, counted)

      not_matched : (a : Job) → find_row key l.job_id jobs ≡ some a → fenced l a ≡ false → ⊥
      not_matched a e m = ground (arith, counted)

  written-IsRefused :
      (f : Job → Job)
      → ((r : Job) → key (f r) ≡ key r)
      → ((r : Job) → ((f r).lease_version ≡ r.lease_version) × ((f r).lease_token ≡ none))
      → (count_where (fenced l) jobs == 0) ≡ false
      → (cs : List Call) → IsRefused l (run cs (update_where (fenced l) f jobs))
  written-IsRefused f same gives_back some_rows cs =
      let (a, m, at) = written_row f same some_rows in
      let (version, token) = gives_back a in
      run-IsRefused l (update_where (fenced l) f jobs)
        (update_where-HasUniqueKeys key (fenced l) f same jobs unique) (f a) at
        (inr (version ∙ ground arith, token)) cs

raised {ℓ} : {A : Type ℓ} {y : A} → err lease_lost ≡ ok y → ⊥
raised h = cc

write_fenced_ok {ℓ} :
    {A : Type ℓ} (l : Lease) (x y : A) (f : Job → Job) (jobs after : List Job)
    → write_fenced l x f jobs ≡ (ok y, after)
    → ((count_where (fenced l) jobs == 0) ≡ false) × (after ≡ update_where (fenced l) f jobs)
unfolding write_fenced
write_fenced_ok l x y f jobs after h = elim (Bool-cases (count_where (fenced l) jobs == 0)) [
  | inl e ↦ absurd (raised (ap (λ r. r.0) (rw e at h)))
  | inr e ↦ (e, sym (ap (λ r. r.1) (rw e at h)))
]

-- After a park, a completion or a failure that succeeded under a lease, no history of further
-- calls makes that lease good again: set_phase, save_checkpoint, park, complete and fail under it
-- raise LeaseLostError, apply_cancellation and finish_cancelled match no row, and no row changes. A
-- heartbeat, which compares the token only, returns False and changes no row, unless the job's row
-- then carries the same token under a newer version. Job ids are unique.
pub Ends-IsRefused :
    (l : Lease) (jobs after : List Job)
    → HasUniqueIds jobs
    → Ends l jobs after
    → (cs : List Call) → IsRefused l (run cs after)
unfolding park complete
Ends-IsRefused l jobs after unique (by_park reason now h) cs =
    let (some_rows, it) = write_fenced_ok l tt tt (park_row reason now) jobs after h in
    rw it (
      written-IsRefused l jobs unique (park_row reason now) (λ r. refl) (λ r. (refl, refl))
        some_rows cs)
Ends-IsRefused l jobs after unique (by_complete s now h) cs =
    let (some_rows, it) = write_fenced_ok l tt tt (finish_row s now) jobs after h in
    rw it (
      written-IsRefused l jobs unique (finish_row s now) (λ r. refl) (λ r. (refl, refl)) some_rows
        cs)
Ends-IsRefused l jobs after unique (by_fail error now s h) cs = rw (fail_after h) (
    written-IsRefused l jobs unique (fail_row error now) (λ r. refl) (λ r. (refl, refl))
      (fail_wrote h) cs)
  where
    fail_after :
        fail l error now jobs ≡ (ok s, after)
        → after ≡ update_where (fenced l) (fail_row error now) jobs
    fail_after q = unfold fail in sym (ap (λ r. r.1) q)

    fail_wrote : fail l error now jobs ≡ (ok s, after) → (count_where (fenced l) jobs == 0) ≡ false
    fail_wrote q = elim (Option-cases (select_one (fenced l) jobs)) [
      | inl e ↦ absurd (unfold fail in raised (ap (λ r. r.0) (rw e at q)))
      | inr (a, e) ↦ ground (arith, count_where_pos (fenced l) jobs a e)
    ]
