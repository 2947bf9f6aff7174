-- ===== src/Leasing/Reaper.antt =====
-- reclaim_expired: one pass of the reaper.
use lead_engine.Prelude.{
  length-map, ℕ, ◌-◌, ◌≤◌, ◌<◌, ◌≡◌, refl, ltb→lt, inl, inr, true, false, List, [], ◌∷◌, arith, All,
  length, map, ltb, Bool-cases, ◌++◌, length-append,
}
use lead_engine.Sql.{
  update_first, select_first, length-select_first, All-of, All-update_first, All-update_first_short,
}
use lead_engine.Job.{Job, key, queued}
use lead_engine.Leasing.Rows.{
  exhausted, lapsed, lapsed_exhausted, reap_failed_row, reap_requeued_row,
}
use lead_engine.Leasing.{reclaim_expired}

-- No queued job has spent its attempts: each can be claimed again.
abbrev pub QueuedHaveAttempts : List Job → Type 0
QueuedHaveAttempts jobs = All (λ j. j.state ≡ queued → exhausted j ≡ false) jobs

All-tt {ℓ} : {A : Type ℓ} (xs : List A) → All (λ _. Unit {0}) xs
All-tt [] = tt
All-tt (x ∷ xs) = (tt, All-tt xs)

-- Fit to go on: a queued job or a lapsed one has attempts left.
abbrev IsFit : ℕ → Job → Type 0
IsFit now j = (j.state ≡ queued → exhausted j ≡ false) × (lapsed now j ≡ true → exhausted j ≡ false)

abbrev HasAttempts : Job → Type 0
HasAttempts j = j.state ≡ queued → exhausted j ≡ false

module _ (now : ℕ) (j : Job) where
  failed-IsFit : HasAttempts j → lapsed_exhausted now j ≡ true → IsFit now (reap_failed_row now j)
  failed-IsFit h e = (λ q. cc, λ q. cc)

  spared-IsFit : HasAttempts j → lapsed_exhausted now j ≡ false → IsFit now j
  spared-IsFit h e = (h, λ q. ground arith)

  requeued-IsFit : lapsed now j ≡ true → IsFit now j → IsFit now (reap_requeued_row now j)
  requeued-IsFit e fit = (λ q. fit.1 e, λ q. cc)

  failed-HasAttempts :
      lapsed_exhausted now j ≡ true → HasAttempts j → HasAttempts (reap_failed_row now j)
  failed-HasAttempts e h = λ q. cc

module _ (batch now : ℕ) (jobs : List Job) where
  -- One pass, whatever its batch size, puts no job that has spent its attempts back in the queue:
  -- if each queued job had attempts left before, each has after.
  pub reclaim_expired-QueuedHaveAttempts :
      QueuedHaveAttempts jobs → QueuedHaveAttempts (reclaim_expired batch now jobs).1
  unfolding reclaim_expired
  reclaim_expired-QueuedHaveAttempts h = elim (Bool-cases (ltb 0 remaining)) [
    | inl e ↦ rw e (
        All-of _ (λ r fit. fit.0)
          (All-update_first (IsFit now) remaining (lapsed now) (reap_requeued_row now) _
            (requeued-IsFit now)
            (All-update_first_short HasAttempts (IsFit now) batch (lapsed_exhausted now)
              (reap_failed_row now) jobs (short e) (failed-IsFit now) (spared-IsFit now) h)))
    | inr e ↦ rw e (
        All-update_first HasAttempts batch (lapsed_exhausted now) (reap_failed_row now) jobs
          (failed-HasAttempts now) h)
  ]
    where
      remaining : ℕ
      remaining = batch - length (map key (select_first batch (lapsed_exhausted now) jobs))

      short :
          ltb 0 remaining ≡ true → length (select_first batch (lapsed_exhausted now) jobs) < batch
      short e = omega (
        arith,
        ltb→lt 0 remaining e,
        length-map key (select_first batch (lapsed_exhausted now) jobs),
      )

  -- A pass reports at most `batch` jobs.
  pub reclaim_expired-length : length (reclaim_expired batch now jobs).0 ≤ batch
  unfolding reclaim_expired
  reclaim_expired-length = elim (Bool-cases (ltb 0 remaining)) [
    | inl e ↦ rw e (
        omega (
          arith,
          length-append (map key (select_first remaining (lapsed now) swept)) (map key failed_rows),
          length-map key failed_rows,
          length-map key (select_first remaining (lapsed now) swept),
          length-select_first remaining (lapsed now) swept,
          length-select_first batch (lapsed_exhausted now) jobs,
        ))
    | inr e ↦ rw e (
        omega (
          arith,
          length-map key failed_rows,
          length-select_first batch (lapsed_exhausted now) jobs,
        ))
  ]
    where
      failed_rows : List Job
      failed_rows = select_first batch (lapsed_exhausted now) jobs

      swept : List Job
      swept = update_first batch (lapsed_exhausted now) (reap_failed_row now) jobs

      remaining : ℕ
      remaining = batch - length (map key failed_rows)

  -- A pass that reports fewer than `batch` jobs leaves no active job with a lapsed lease.
  pub reclaim_expired_complete :
      length (reclaim_expired batch now jobs).0 < batch
      → All (λ j. lapsed now j ≡ false) (reclaim_expired batch now jobs).1
  unfolding reclaim_expired
  reclaim_expired_complete few = elim (Bool-cases (ltb 0 remaining)) [
    | inl e ↦ rw e (
        All-update_first_short (λ _. Unit {0}) (λ j. lapsed now j ≡ false) remaining (lapsed now)
          (reap_requeued_row now) swept (second (rw e at few)) (λ r _ q. refl) (λ r _ q. q)
          (All-tt swept))
    | inr e ↦ absurd (full e (rw e at few))
  ]
    where
      failed_rows : List Job
      failed_rows = select_first batch (lapsed_exhausted now) jobs

      swept : List Job
      swept = update_first batch (lapsed_exhausted now) (reap_failed_row now) jobs

      remaining : ℕ
      remaining = batch - length (map key failed_rows)

      second :
          length (map key (select_first remaining (lapsed now) swept) ++ map key failed_rows)
            < batch
          → length (select_first remaining (lapsed now) swept) < remaining
      second h = omega (
        arith,
        length-append (map key (select_first remaining (lapsed now) swept)) (map key failed_rows),
        length-map key (select_first remaining (lapsed now) swept),
      )

      full : ltb 0 remaining ≡ false → length (map key failed_rows) < batch → ⊥
      full e h = ground arith
