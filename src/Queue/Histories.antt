-- ===== src/Queue/Histories.antt =====
-- The calls of lead_engine/queue.py as one type, and what each does to one row.
use lead_engine.Prelude.{
  All, ℕ, ◌+◌, ◌≡◌, refl, sym, ◌∙◌, inl, inr, Bool, true, Option, some, List, [], ◌∷◌, ◌==◌, ==_iff,
  ltb, Text, Bool-cases, Option-cases,
}
use lead_engine.Sql.{update_where}
use lead_engine.Sql.Keyed.{
  find_row, find_row-key, HasUniqueKeys, find_row-update_where, update_where-HasUniqueKeys,
}
use lead_engine.Sql.Ordered.{first_by, first_by-holds, find_row-first_by}
use lead_engine.Jobs.{Row, Db, key}
use lead_engine.Jobs.Audit.{HasUniqueIds}
use lead_engine.Queue.{
  job_is, attempts_of, or_three, enqueue_row, enqueue, leasable, older, lease_row, lease_next,
  expired, expired_spent, spent_row, requeued_row, reclaim_expired, stale, stale_row,
  expire_stale_paused, wakeable, wake_row, wake_due_paused, complete_row, complete, release_row,
  release, yield_row, yield_slice, backoff, retry_row, failed_row, fail, held_by, beat_row,
  heartbeat,
}

pub data Call : Type 0 where
  enqueues : ℕ → ℕ → Call
  leases : Bool → Text → ℕ → ℕ → Call
  reclaims : ℕ → Call
  expires : ℕ → ℕ → Call
  wakes : ℕ → Call
  completes : ℕ → ℕ → Call
  releases : ℕ → ℕ → Call
  yields : ℕ → ℕ → Call
  fails : ℕ → Text → ℕ → Call
  beats : ℕ → Text → ℕ → ℕ → Call

unfoldable pub apply : Call → Db → Db
apply (enqueues job_id now) db = enqueue job_id now db
apply (leases pg worker_id lease_seconds now) db = (lease_next pg worker_id lease_seconds now db).1
apply (reclaims now) db = (reclaim_expired now db).1
apply (expires hours now) db = (expire_stale_paused hours now db).1
apply (wakes now) db = (wake_due_paused now db).1
apply (completes job_id now) db = complete job_id now db
apply (releases job_id now) db = release job_id now db
apply (yields job_id now) db = yield_slice job_id now db
apply (fails job_id reason now) db = (fail job_id reason now db).1
apply (beats job_id worker_id lease_seconds now) db =
    heartbeat job_id worker_id lease_seconds now db

unfoldable pub run : List Call → Db → Db
run [] db = db
run (c ∷ cs) db = run cs (apply c db)

-- What a call does to a row, with the condition under which it does.
pub data Change (c : Call) (a : Row) : Row → Type 0 where
  untouched : Change c a a
  enqueued :
      (job_id now : ℕ)
      → c ≡ enqueues job_id now
      → (a.job_id == job_id) ≡ true
      → Change c a (enqueue_row now a)
  leased :
      (pg : Bool) (worker : Text) (secs now : ℕ)
      → c ≡ leases pg worker secs now
      → leasable now a ≡ true
      → Change c a (lease_row pg worker secs now a)
  spent : (now : ℕ) → c ≡ reclaims now → expired_spent now a ≡ true → Change c a (spent_row now a)
  requeued : (now : ℕ) → c ≡ reclaims now → expired now a ≡ true → Change c a (requeued_row now a)
  staled :
      (hours now : ℕ)
      → c ≡ expires hours now
      → stale hours now a ≡ true
      → Change c a (stale_row now a)
  woken : (now : ℕ) → c ≡ wakes now → wakeable now a ≡ true → Change c a (wake_row now a)
  completed :
      (job_id now : ℕ)
      → c ≡ completes job_id now
      → (a.job_id == job_id) ≡ true
      → Change c a (complete_row now a)
  released :
      (job_id now : ℕ)
      → c ≡ releases job_id now
      → (a.job_id == job_id) ≡ true
      → Change c a (release_row now a)
  yielded :
      (job_id now : ℕ)
      → c ≡ yields job_id now
      → (a.job_id == job_id) ≡ true
      → Change c a (yield_row now a)
  retried :
      (job_id : ℕ) (reason : Text) (now : ℕ)
      → c ≡ fails job_id reason now
      → (a.job_id == job_id) ≡ true
      → Change c a (retry_row reason (now + backoff (attempts_of a)) now a)
  gave_up :
      (job_id : ℕ) (reason : Text) (now : ℕ)
      → c ≡ fails job_id reason now
      → (a.job_id == job_id) ≡ true
      → Change c a (failed_row reason now a)
  beaten :
      (job_id : ℕ) (worker : Text) (secs now : ℕ)
      → c ≡ beats job_id worker secs now
      → held_by job_id worker a ≡ true
      → Change c a (beat_row secs now a)

abbrev pub Becomes : Call → Row → Option Row → Type 0
Becomes c a found = (b : Row) × (found ≡ some b) × Change c a b

module _ (id : ℕ) (rows : List Row) (c : Call) (a : Row)
    (found : find_row key id rows ≡ some a) where
  update_where-Becomes :
      (p : Row → Bool) (f : Row → Row)
      → ((r : Row) → key (f r) ≡ key r)
      → (p a ≡ true → Change c a (f a))
      → Becomes c a (find_row key id (update_where p f rows))
  update_where-Becomes p f same change =
      rw (find_row-update_where key p f same id rows, found)
        (elim (Bool-cases (p a)) [
          | inl e ↦ rw e (f a, refl, change e)
          | inr e ↦ rw e (a, refl, untouched)
        ])

module _ (id : ℕ) (db : Db) (unique : HasUniqueIds db) (a : Row)
    (found : find_row key id db.jobs ≡ some a) where
  lease_next-Becomes :
      (pg : Bool) (worker : Text) (secs now : ℕ)
      → Becomes
          (leases pg worker secs now)
          a
          (find_row key id (lease_next pg worker secs now db).1.jobs)
  unfolding lease_next
  lease_next-Becomes pg worker secs now =
      elim (Option-cases (first_by older (leasable now) db.jobs)) [
        | inl e ↦ rw e (a, found, untouched)
        | inr (j, e) ↦ rw e (
            update_where-Becomes id db.jobs (leases pg worker secs now) a found (job_is j.job_id)
              (lease_row pg worker secs now) (λ r. refl)
              (λ same. leased pg worker secs now refl (it j e same)))
      ]
    where
      it :
          (j : Row)
          → first_by older (leasable now) db.jobs ≡ some j
          → (a.job_id == j.job_id) ≡ true
          → leasable now a ≡ true
      it j e same =
          let at : find_row key j.job_id db.jobs ≡ some j =
            find_row-first_by key older (leasable now) db.jobs j unique e in
          let ids : id ≡ j.job_id =
            sym (find_row-key key id db.jobs a found) ∙ (==_iff a.job_id j.job_id).0 same in
          let eq : j ≡ a = cc in rw (← eq) (first_by-holds older (leasable now) db.jobs j e)

  fail-Becomes :
      (job_id : ℕ) (reason : Text) (now : ℕ)
      → Becomes (fails job_id reason now) a (find_row key id (fail job_id reason now db).1.jobs)
  unfolding fail
  fail-Becomes job_id reason now = elim (Option-cases (find_row key job_id db.jobs)) [
    | inl e ↦ rw e (a, found, untouched)
    | inr (r, e) ↦ elim (Bool-cases (ltb (attempts_of r) (or_three r.max_attempts))) [
      | inl more ↦ rw e (
          rw more (
            update_where-Becomes id db.jobs (fails job_id reason now) a found (job_is job_id)
              (retry_row reason (now + backoff (attempts_of r)) now) (λ x. refl)
              (λ same. rw (it r e same) (retried job_id reason now refl same))))
      | inr out ↦ rw e (
          rw out (
            update_where-Becomes id db.jobs (fails job_id reason now) a found (job_is job_id)
              (failed_row reason now) (λ x. refl) (λ same. gave_up job_id reason now refl same)))
    ]
  ]
    where
      it : (r : Row) → find_row key job_id db.jobs ≡ some r → (a.job_id == job_id) ≡ true → r ≡ a
      it r e same =
          let ids : id ≡ job_id =
            sym (find_row-key key id db.jobs a found) ∙ (==_iff a.job_id job_id).0 same in
          cc

  reclaim_expired-Becomes :
      (now : ℕ) → Becomes (reclaims now) a (find_row key id (reclaim_expired now db).1.jobs)
  unfolding reclaim_expired
  reclaim_expired-Becomes now =
      rw
        (
          find_row-update_where key (expired now) (requeued_row now) (λ r. refl) id
              (update_where (expired_spent now) (spent_row now) db.jobs),
          find_row-update_where key (expired_spent now) (spent_row now) (λ r. refl) id db.jobs,
          found,
        )
        (elim (Bool-cases (expired_spent now a)) [
          | inl e ↦ rw e (spent_row now a, refl, spent now refl e)
          | inr e ↦ elim (Bool-cases (expired now a)) [
            | inl x ↦ rw e (rw x (requeued_row now a, refl, requeued now refl x))
            | inr x ↦ rw e (rw x (a, refl, untouched))
          ]
        ])

  -- A call changes the row of a job in the listed ways only, and never drops it.
  pub apply-Becomes : (c : Call) → Becomes c a (find_row key id (apply c db).jobs)
  unfolding apply enqueue expire_stale_paused wake_due_paused complete release yield_slice heartbeat
  apply-Becomes (enqueues job_id now) =
      update_where-Becomes id db.jobs (enqueues job_id now) a found (job_is job_id)
        (enqueue_row now) (λ r. refl) (enqueued job_id now refl)
  apply-Becomes (leases pg worker secs now) = lease_next-Becomes pg worker secs now
  apply-Becomes (reclaims now) = reclaim_expired-Becomes now
  apply-Becomes (expires hours now) =
      update_where-Becomes id db.jobs (expires hours now) a found (stale hours now) (stale_row now)
        (λ r. refl) (staled hours now refl)
  apply-Becomes (wakes now) =
      update_where-Becomes id db.jobs (wakes now) a found (wakeable now) (wake_row now) (λ r. refl)
        (woken now refl)
  apply-Becomes (completes job_id now) =
      update_where-Becomes id db.jobs (completes job_id now) a found (job_is job_id)
        (complete_row now) (λ r. refl) (completed job_id now refl)
  apply-Becomes (releases job_id now) =
      update_where-Becomes id db.jobs (releases job_id now) a found (job_is job_id)
        (release_row now) (λ r. refl) (released job_id now refl)
  apply-Becomes (yields job_id now) =
      update_where-Becomes id db.jobs (yields job_id now) a found (job_is job_id) (yield_row now)
        (λ r. refl) (yielded job_id now refl)
  apply-Becomes (fails job_id reason now) = fail-Becomes job_id reason now
  apply-Becomes (beats job_id worker secs now) =
      update_where-Becomes id db.jobs (beats job_id worker secs now) a found (held_by job_id worker)
        (beat_row secs now) (λ r. refl) (beaten job_id worker secs now refl)

module _ (db : Db) (unique : HasUniqueIds db) where
  updated :
      (p : Row → Bool) (f : Row → Row)
      → ((r : Row) → key (f r) ≡ key r)
      → HasUniqueKeys key (update_where p f db.jobs)
  updated p f same = update_where-HasUniqueKeys key p f same db.jobs unique

  leased-HasUniqueIds :
      (pg : Bool) (worker : Text) (secs now : ℕ) → HasUniqueIds (lease_next pg worker secs now db).1
  unfolding lease_next
  leased-HasUniqueIds pg worker secs now =
      elim (Option-cases (first_by older (leasable now) db.jobs)) [
        | inl e ↦ rw e unique
        | inr (j, e) ↦ rw e (updated (job_is j.job_id) (lease_row pg worker secs now) (λ r. refl))
      ]

  failed-HasUniqueIds :
      (job_id : ℕ) (reason : Text) (now : ℕ) → HasUniqueIds (fail job_id reason now db).1
  unfolding fail
  failed-HasUniqueIds job_id reason now = elim (Option-cases (find_row key job_id db.jobs)) [
    | inl e ↦ rw e unique
    | inr (r, e) ↦ elim (Bool-cases (ltb (attempts_of r) (or_three r.max_attempts))) [
      | inl more ↦ rw e (
          rw more (
            updated (job_is job_id) (retry_row reason (now + backoff (attempts_of r)) now)
              (λ x. refl)))
      | inr out ↦ rw e (rw out (updated (job_is job_id) (failed_row reason now) (λ x. refl)))
    ]
  ]

  pub apply-HasUniqueIds : (c : Call) → HasUniqueIds (apply c db)
  unfolding apply enqueue reclaim_expired expire_stale_paused wake_due_paused complete release
      yield_slice heartbeat
  apply-HasUniqueIds (enqueues job_id now) = updated (job_is job_id) (enqueue_row now) (λ r. refl)
  apply-HasUniqueIds (leases pg worker secs now) = leased-HasUniqueIds pg worker secs now
  apply-HasUniqueIds (reclaims now) =
      update_where-HasUniqueKeys key (expired now) (requeued_row now) (λ r. refl)
        (update_where (expired_spent now) (spent_row now) db.jobs)
        (updated (expired_spent now) (spent_row now) (λ r. refl))
  apply-HasUniqueIds (expires hours now) = updated (stale hours now) (stale_row now) (λ r. refl)
  apply-HasUniqueIds (wakes now) = updated (wakeable now) (wake_row now) (λ r. refl)
  apply-HasUniqueIds (completes job_id now) = updated (job_is job_id) (complete_row now) (λ r. refl)
  apply-HasUniqueIds (releases job_id now) = updated (job_is job_id) (release_row now) (λ r. refl)
  apply-HasUniqueIds (yields job_id now) = updated (job_is job_id) (yield_row now) (λ r. refl)
  apply-HasUniqueIds (fails job_id reason now) = failed-HasUniqueIds job_id reason now
  apply-HasUniqueIds (beats job_id worker secs now) =
      updated (held_by job_id worker) (beat_row secs now) (λ r. refl)

-- A property of the row that each listed call keeps holds after the whole history.
pub run-keeps {ℓ} :
    {P : Row → Type ℓ} {Q : Call → Type 0}
    → ((c : Call) (a b : Row) → Q c → Change c a b → P a → P b)
    → (id : ℕ) (cs : List Call) (db : Db) → All Q cs
    → HasUniqueIds db
    → (a : Row) → find_row key id db.jobs ≡ some a
    → P a
    → (b : Row) × (find_row key id (run cs db).jobs ≡ some b) × P b
unfolding run
run-keeps keeps id [] db q unique a found p = (a, found, p)
run-keeps keeps id (c ∷ cs) db q unique a found p =
    let (b, at, change) = apply-Becomes id db unique a found c in
    run-keeps keeps id cs (apply c db) q.1 (apply-HasUniqueIds db unique c) b at
      (keeps c a b q.0 change p)
