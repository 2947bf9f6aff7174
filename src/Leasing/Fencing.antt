-- ===== src/Leasing/Fencing.antt =====
-- Fencing: the lease of a row moves through versions, and a write under a spent lease is refused.
use lead_engine.Prelude.{
  ℕ, ◌+◌, ◌≤◌, ◌<◌, ◌≡◌, refl, sym, ap, ◌∙◌, ◌⊎◌, inl, inr, true, false, Option, none, some, List,
  arith, Text, Bool-cases,
}
use lead_engine.Sql.{count_where, update_where_none, select_one-none}
use lead_engine.Sql.Keyed.{find_row, count_where-find_row}
use lead_engine.Job.{JobState, Job, Lease, key}
use lead_engine.Leasing.Rows.{fenced, cancel_pending, heartbeat_live, cancelling_row, renew_row}
use lead_engine.Leasing.{
  err, lease_lost, claim_next, write_fenced, set_phase, save_checkpoint, park, complete, fail,
  finish_cancelled, apply_cancellation, heartbeat,
}
use lead_engine.Leasing.Calls.{Call, claims, apply, run}
use lead_engine.Leasing.Steps.{
  RowChange, RowChanges, claimed, renewed, entered, saved, cancel_asked, requeued, was_parked,
  finished, failing, reap_failed, reap_requeued, cancelling_started, unchanged, also,
}
use lead_engine.Leasing.Histories.{HasUniqueIds, apply-HasUniqueIds, run-HasUniqueIds, run-Becomes}
use lead_engine.Leasing.Claim.{claim_next-Claimed, some_eq}

-- A lease of this version no longer opens the row: a newer one was granted, or it was given back.
abbrev pub IsSpent : ℕ → Job → Type 0
IsSpent version j =
    (version < j.lease_version) ⊎ ((j.lease_version ≡ version) × (j.lease_token ≡ none))

-- The life of a lease, with all else forgotten.
pub data LeaseStep (a b : Job) : Type 0 where
  kept : b.lease_version ≡ a.lease_version → b.lease_token ≡ a.lease_token → LeaseStep a b
  given_back : b.lease_version ≡ a.lease_version → b.lease_token ≡ none → LeaseStep a b
  granted : b.lease_version ≡ a.lease_version + 1 → LeaseStep a b

pub RowChange-LeaseStep : {a b : Job} → RowChange a b → LeaseStep a b
RowChange-LeaseStep (claimed queues worker secs token now e) = granted refl
RowChange-LeaseStep (renewed token secs now) = kept refl refl
RowChange-LeaseStep (entered s secs now) = kept refl refl
RowChange-LeaseStep (saved c s secs now) = kept refl refl
RowChange-LeaseStep (cancel_asked by reason now) = kept refl refl
RowChange-LeaseStep (requeued now) = kept refl refl
RowChange-LeaseStep (was_parked reason now) = given_back refl refl
RowChange-LeaseStep (finished s now) = given_back refl refl
RowChange-LeaseStep (failing error now) = given_back refl refl
RowChange-LeaseStep (reap_failed now) = given_back refl refl
RowChange-LeaseStep (reap_requeued now e) = given_back refl refl
RowChange-LeaseStep (cancelling_started now) = kept refl refl

module _ (v : ℕ) where
  LeaseStep-IsSpent : {a b : Job} → LeaseStep a b → IsSpent v a → IsSpent v b
  LeaseStep-IsSpent (kept p q) s = ground arith
  LeaseStep-IsSpent (given_back p q) s = ground arith
  LeaseStep-IsSpent (granted p) s = ground arith

  pub RowChanges-IsSpent : {a b : Job} → RowChanges a b → IsSpent v a → IsSpent v b
  RowChanges-IsSpent unchanged s = s
  RowChanges-IsSpent (also r change) s =
      LeaseStep-IsSpent (RowChange-LeaseStep change) (RowChanges-IsSpent r s)

LeaseStep-le : {a b : Job} → LeaseStep a b → a.lease_version ≤ b.lease_version
LeaseStep-le (kept p q) = omega arith
LeaseStep-le (given_back p q) = omega arith
LeaseStep-le (granted p) = omega arith

pub RowChanges-version_le : {a b : Job} → RowChanges a b → a.lease_version ≤ b.lease_version
RowChanges-version_le unchanged = omega arith
RowChanges-version_le (also r change) =
    omega (arith, RowChanges-version_le r, LeaseStep-le (RowChange-LeaseStep change))

IsSpent-fenced : (l : Lease) (j : Job) → IsSpent l.version j → fenced l j ≡ false
IsSpent-fenced l j s = ground arith

fenced-key : (l : Lease) (j : Job) → fenced l j ≡ true → key j ≡ l.job_id
fenced-key l j h = ground arith

-- The row that stands for the lease's job carries the lease's token under a newer version.
abbrev pub IsRenewable : Lease → List Job → Type 0
IsRenewable l jobs =
    (b : Job) × (find_row key l.job_id jobs ≡ some b)
    × (b.lease_token ≡ some l.token)
    × (l.version < b.lease_version)

-- The writes that compare token and version raise LeaseLostError or, the two of a cancellation,
-- match no row, and every row stays as it is. The heartbeat compares the token only: it is refused
-- too, unless a newer lease of the job was given the same token.
pub record IsRefused (l : Lease) (jobs : List Job) : Type 0 where
  pub on_phase :
      (s : JobState) (secs now : ℕ) → set_phase l s secs now jobs ≡ (err lease_lost, jobs)
  pub on_checkpoint :
      (c : Text) (s : Option JobState) (secs now : ℕ)
      → save_checkpoint l c s secs now jobs ≡ (err lease_lost, jobs)
  pub on_park : (reason : Text) (now : ℕ) → park l reason now jobs ≡ (err lease_lost, jobs)
  pub on_complete : (s : JobState) (now : ℕ) → complete l s now jobs ≡ (err lease_lost, jobs)
  pub on_fail : (error : Text) (now : ℕ) → fail l error now jobs ≡ (err lease_lost, jobs)
  pub on_apply_cancellation : (now : ℕ) → apply_cancellation l now jobs ≡ (false, jobs)
  pub on_finish_cancelled : (now : ℕ) → finish_cancelled l now jobs ≡ jobs
  pub on_heartbeat :
      (secs now : ℕ)
      → (heartbeat l.job_id l.token secs now jobs ≡ (false, jobs)) ⊎ IsRenewable l jobs

cancel_pending-fenced : (l : Lease) (j : Job) → fenced l j ≡ false → cancel_pending l j ≡ false
cancel_pending-fenced l j h = ground arith

cancel_pending-key : (l : Lease) (j : Job) → cancel_pending l j ≡ true → key j ≡ l.job_id
cancel_pending-key l j h = ground arith

heartbeat_live-key :
    (job_id token : ℕ) (j : Job) → heartbeat_live job_id token j ≡ true → key j ≡ job_id
heartbeat_live-key job_id token j h = ground arith

live-token :
    (l : Lease) (j : Job)
    → heartbeat_live l.job_id l.token j ≡ true
    → IsSpent l.version j
    → (j.lease_token ≡ some l.token) × (l.version < j.lease_version)
live-token l j h s = ground arith

module _ (l : Lease) (jobs : List Job) (unique : HasUniqueIds jobs) (a : Job)
    (found : find_row key l.job_id jobs ≡ some a) where
  pub spent-IsRefused : IsSpent l.version a → IsRefused l jobs
  unfolding set_phase save_checkpoint park complete fail finish_cancelled write_fenced
      apply_cancellation heartbeat
  spent-IsRefused spent = record {
    on_phase = λ s secs now. rw none_match;
    on_checkpoint = λ c s secs now. rw none_match;
    on_park = λ reason now. rw none_match;
    on_complete = λ s now. rw none_match;
    on_fail = λ error now. rw (
      select_one-none (fenced l) jobs none_match,
      update_where_none (fenced l) _ jobs none_match,
    );
    on_apply_cancellation = λ now.
        rw
          (
            none_pending,
            update_where_none (cancel_pending l) (cancelling_row now) jobs none_pending,
          )
          refl;
    on_finish_cancelled = λ now. update_where_none (fenced l) _ jobs none_match;
    on_heartbeat = λ secs now. elim (Bool-cases (heartbeat_live l.job_id l.token a)) [
      | inl m ↦ let (token, newer) = live-token l a m spent in inr (a, found, token, newer)
      | inr m ↦ inl (
          rw
            (
              none_live m,
              update_where_none (heartbeat_live l.job_id l.token) (renew_row secs now) jobs
                  (none_live m),
            )
            refl)
    ];
  }
    where
      none_match : count_where (fenced l) jobs ≡ 0
      none_match =
          count_where-find_row key l.job_id (fenced l) jobs (fenced-key l) unique
          ∙ rw (found, IsSpent-fenced l a spent)

      none_pending : count_where (cancel_pending l) jobs ≡ 0
      none_pending =
          count_where-find_row key l.job_id (cancel_pending l) jobs (cancel_pending-key l) unique
          ∙ rw (found, cancel_pending-fenced l a (IsSpent-fenced l a spent))

      none_live :
          heartbeat_live l.job_id l.token a ≡ false
          → count_where (heartbeat_live l.job_id l.token) jobs ≡ 0
      none_live m =
          count_where-find_row key l.job_id (heartbeat_live l.job_id l.token) jobs
            (heartbeat_live-key l.job_id l.token) unique
          ∙ rw (found, m)

-- A row whose lease of this version is spent refuses it after every further history.
pub run-IsRefused :
    (l : Lease) (jobs : List Job)
    → HasUniqueIds jobs
    → (a : Job) → find_row key l.job_id jobs ≡ some a
    → IsSpent l.version a
    → (cs : List Call) → IsRefused l (run cs jobs)
run-IsRefused l jobs unique a found spent cs =
    let (b, at, changes) = run-Becomes l.job_id cs jobs unique a found in
    spent-IsRefused l (run cs jobs) (run-HasUniqueIds cs jobs unique) b at
      (RowChanges-IsSpent l.version changes spent)

-- The lease that a claimed row hands to its worker.
abbrev pub lease_of : Job → ℕ → Lease
lease_of j token = record { job_id = j.id; token = token; version = j.lease_version }

-- After a second claim of the job, by anyone and after any calls in between, the first claim's
-- lease is refused after every further history, even if the two tokens are the same: set_phase,
-- save_checkpoint, park, complete and fail under it raise LeaseLostError, apply_cancellation and
-- finish_cancelled match no row, and no row changes. A heartbeat, which compares the token only,
-- returns False and changes no row, unless the job's row then carries the same token under a newer
-- version. Job ids are unique at the start.
pub second_claim-IsRefused :
    (jobs : List Job)
    → HasUniqueIds jobs
    → (queues : List Text) (worker : Text) (secs token now : ℕ) (j : Job)
    → (claim_next queues worker secs token now jobs).0 ≡ some j
    → (between : List Call) (queues' : List Text) (worker' : Text) (secs' token' now' : ℕ) (k : Job)
    → (claim_next queues' worker' secs' token' now'
        (run between (claim_next queues worker secs token now jobs).1)).0
      ≡ some k
    → k.id ≡ j.id
    → (later : List Call)
    → IsRefused (lease_of j token) (
        run later
          (claim_next queues' worker' secs' token' now'
            (run between (claim_next queues worker secs token now jobs).1)).1)
unfolding apply
second_claim-IsRefused jobs unique queues worker secs token now j first between queues' worker'
      secs' token' now' k second same later =
    let jobs1 = (claim_next queues worker secs token now jobs).1 in
    let unique1 : HasUniqueIds jobs1 =
      apply-HasUniqueIds jobs unique (claims queues worker secs token now) in
    let jobs2 = run between jobs1 in
    let unique2 = run-HasUniqueIds between jobs1 unique1 in
    let one = claim_next-Claimed queues worker secs token now jobs j unique first in
    let two = claim_next-Claimed queues' worker' secs' token' now' jobs2 k unique2 second in
    let (b, at, changes) = run-Becomes j.id between jobs1 unique1 j one.is_stored in
    let stored : find_row key j.id jobs2 ≡ some two.job = rw (← same) two.was_stored in
    let it : b ≡ two.job = some_eq (sym at ∙ stored) in
    let grown = RowChanges-version_le changes in
    run-IsRefused (lease_of j token) _
      (apply-HasUniqueIds jobs2 unique2 (claims queues' worker' secs' token' now')) k
      (rw (← same) two.is_stored)
      (inl (
        omega
          (arith, ap (λ (x : Job). x.lease_version) it, ap (λ (x : Job). x.lease_version) two.row)))
      later
