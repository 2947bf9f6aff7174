-- ===== src/Jobs/Manager.antt =====
-- The manager's calls and the audit trail.
use lead_engine.Prelude.{
  ℕ, ◌≡◌, refl, ◌∙◌, inl, inr, true, false, Option, none, some, List, [], ◌∷◌, ◌++◌, arith, ◌==◌,
  Text, Bool-cases, Option-cases, All, All-append, text,
}
use lead_engine.Sql.{update_where, count_where, All-of}
use lead_engine.Sql.Keyed.{
  find_row, has_key, has_key-find_row, has_key-append_of, has_key_absent, has_key-update_where,
  find_row-update_where, update_where-HasUniqueKeys, append-HasUniqueKeys, find_row-append_present,
  find_row-append_absent, update_found,
}
use lead_engine.Jobs.Transitions.{State, state_eq, allows, queued, failed, paused, resuming}
use lead_engine.Jobs.{
  Row, key, Event, Db, Others, alone, event, updated, log_transition, Result, ok, err, new_row,
  create_job, current, at_state, moved_row, write_transition, transition, and_then, set_resume_at,
  resume_at_row, pause, mark_failed, resume,
}
use lead_engine.Jobs.Audit.{
  IsValid, Keeps, none_yet, history_absent, matched, written, written-IsAudited,
}

known_after :
    (jobs jobs' : List Row) (es : List Event)
    → ((k : ℕ) → has_key key k jobs ≡ true → has_key key k jobs' ≡ true)
    → All (λ (e : Event). has_key key e.job_id jobs ≡ true) es
    → All (λ (e : Event). has_key key e.job_id jobs' ≡ true) es
known_after jobs jobs' es keep h = All-of es (λ e q. keep e.job_id q) h

-- Others keep the trail between the statements of a call, nobody commits between the UPDATE of a
-- transition and its INSERT, and the INSERT succeeds.
pub record IsOrderly (o : Others) : Type 0 where
  pub keeps_transition : Keeps o.before_transition
  pub keeps_update : Keeps o.before_update
  pub keeps_resume_at : Keeps o.before_resume_at
  pub nothing : (db : Db) → o.before_insert db ≡ db
  pub is_logged : o.inserts ≡ true

module _ (job_id : ℕ) (from to : State) (reason : Option Text) (now : ℕ) (o : Others) where
  written-IsValid :
      (db : Db) (v : IsValid db)
      → allows from to ≡ true
      → (count_where (at_state job_id from) db.jobs == 0) ≡ false
      → IsValid (written job_id from to reason now db)
  written-IsValid db v edge some_rows =
      let (a, at, m) = matched job_id from db v.unique some_rows in
      let keep =
        has_key-update_where key (at_state job_id from) (moved_row to reason now) (λ r. refl) in
      record {
        audited = written-IsAudited job_id from to reason now db v.unique edge some_rows v.audited;
        unique =
            update_where-HasUniqueKeys key (at_state job_id from) (moved_row to reason now)
              (λ r. refl) db.jobs v.unique;
        known =
            All-append _ db.events (event job_id from to reason now ∷ [])
              (known_after db.jobs _ db.events (λ k h. keep k db.jobs ∙ h) v.known)
              (keep job_id db.jobs ∙ has_key-find_row key job_id db.jobs a at, tt);
      }

  write_transition-IsValid :
      (db : Db)
      → IsValid db
      → allows from to ≡ true
      → IsOrderly o
      → IsValid (write_transition job_id from to reason now o db).1
  unfolding write_transition log_transition
  write_transition-IsValid db v edge quiet =
      elim (Bool-cases (count_where (at_state job_id from) db.jobs == 0)) [
        | inl e ↦ rw e v
        | inr e ↦
            rw (e, quiet.is_logged, quiet.nothing (updated job_id from to reason now db))
              (written-IsValid db v edge e)
      ]

transition-IsValid :
    (job_id : ℕ) (to : State) (reason : Option Text) (now : ℕ) (o : Others) (db : Db)
    → IsOrderly o
    → IsValid db
    → IsValid (transition job_id to reason now o db).1
unfolding transition
transition-IsValid job_id to reason now o db quiet v = elim (Option-cases (current job_id db)) [
  | inl e ↦ rw e v
  | inr (from, e) ↦ elim (Bool-cases (allows from to)) [
    | inl edge ↦
        rw (e, edge)
          (write_transition-IsValid job_id from to reason now o (o.before_update db)
            (quiet.keeps_update db v) edge quiet)
    | inr edge ↦ rw (e, edge) v
  ]
]

set_resume_at-IsValid :
    (job_id at : ℕ) (db : Db) → IsValid db → IsValid (set_resume_at job_id at db)
unfolding set_resume_at
set_resume_at-IsValid job_id at db v = record {
  audited = λ k r found. elim (Option-cases (find_row key k db.jobs)) [
    | inl e ↦ absurd (lost k r found e)
    | inr (a, e) ↦ rw (same_state k r a found e) (v.audited k a e)
  ];
  unique =
      update_where-HasUniqueKeys key (λ r. r.job_id == job_id) (resume_at_row at) (λ r. refl)
        db.jobs v.unique;
  known =
      known_after db.jobs _ db.events
        (λ k h.
          has_key-update_where key (λ r. r.job_id == job_id) (resume_at_row at) (λ r. refl) k
            db.jobs
          ∙ h)
        v.known;
}
  where
    jobs' : List Row
    jobs' = update_where (λ r. r.job_id == job_id) (resume_at_row at) db.jobs

    after :
        (k : ℕ)
        → find_row key k jobs'
          ≡ update_found (λ r. r.job_id == job_id) (resume_at_row at) (find_row key k db.jobs)
    after k =
        find_row-update_where key (λ r. r.job_id == job_id) (resume_at_row at) (λ r. refl) k db.jobs

    lost : (k : ℕ) (r : Row) → find_row key k jobs' ≡ some r → find_row key k db.jobs ≡ none → ⊥
    lost k r found e = ground (arith, after k)

    same_state :
        (k : ℕ) (r a : Row)
        → find_row key k jobs' ≡ some r
        → find_row key k db.jobs ≡ some a
        → r.state ≡ a.state
    same_state k r a found e = ground (arith, after k)

create_job-IsValid :
    (job_id : ℕ) (icp_id params : Text) (now : ℕ) (db : Db)
    → IsValid db
    → IsValid (create_job job_id icp_id params now db).1
unfolding create_job
create_job-IsValid job_id icp_id params now db v = elim (Bool-cases (has_key key job_id db.jobs)) [
  | inl e ↦ rw e v
  | inr e ↦ rw e (record {
    audited = λ k r found. elim (Option-cases (find_row key k db.jobs)) [
      | inr (a, q) ↦ rw (old_row k r a found q) (v.audited k a q)
      | inl q ↦
          rw
            (
              new_state k r found q,
              history_absent db.jobs k [] db.events (has_key_absent key k db.jobs q) v.known,
            )
            none_yet
    ];
    unique = append-HasUniqueKeys key db.jobs (new_row job_id icp_id params now) v.unique e;
    known =
        known_after db.jobs _ db.events
          (λ k h. has_key-append_of key k db.jobs (new_row job_id icp_id params now ∷ []) h)
          v.known;
  })
]
  where
    more : List Row
    more = db.jobs ++ new_row job_id icp_id params now ∷ []

    old_row :
        (k : ℕ) (r a : Row) → find_row key k more ≡ some r → find_row key k db.jobs ≡ some a → r ≡ a
    old_row k r a found q =
        ground
          (arith, find_row-append_present key k db.jobs (new_row job_id icp_id params now ∷ []) a q)

    new_state :
        (k : ℕ) (r : Row)
        → find_row key k more ≡ some r
        → find_row key k db.jobs ≡ none
        → r.state ≡ queued
    new_state k r found q =
        ground (arith, find_row-append_absent key k db.jobs (new_row job_id icp_id params now) q)

pause-IsValid :
    (job_id : ℕ) (reason : Text) (at now : ℕ) (o : Others) (db : Db)
    → IsOrderly o
    → IsValid db
    → IsValid (pause job_id reason at now o db).1
unfolding pause
pause-IsValid job_id reason at now o db quiet v =
    settled (transition job_id paused (some reason) now o db)
      (transition-IsValid job_id paused (some reason) now o db quiet v)
  where
    settled :
        (out : Result State × Db)
        → IsValid out.1
        → IsValid (and_then out (λ d. set_resume_at job_id at (o.before_resume_at d))).1
    settled (err e, d) h = h
    settled (ok s, d) h =
        set_resume_at-IsValid job_id at (o.before_resume_at d) (quiet.keeps_resume_at d h)

resume-IsValid :
    (job_id now : ℕ) (o : Others) (db : Db)
    → IsOrderly o
    → IsValid db
    → IsValid (resume job_id now o db).1
unfolding resume
resume-IsValid job_id now o db quiet v = elim (Option-cases (current job_id db)) [
  | inl e ↦ rw e v
  | inr (s, e) ↦ elim (Bool-cases (state_eq s paused)) [
    | inl p ↦
        rw (e, p)
          (transition-IsValid job_id resuming (some (text "scheduler retry")) now o
            (o.before_transition db) quiet (quiet.keeps_transition db v))
    | inr p ↦ rw (e, p) v
  ]
]

-- A call of the manager, with what others commit while it runs.
pub data Call : Type 0 where
  creates : ℕ → Text → Text → ℕ → Call
  transits : ℕ → State → Option Text → ℕ → Others → Call
  pauses : ℕ → Text → ℕ → ℕ → Others → Call
  fails : ℕ → Text → ℕ → Others → Call
  resumes : ℕ → ℕ → Others → Call

abbrev pub apply : Call → Db → Db
apply (creates job_id icp_id params now) db = (create_job job_id icp_id params now db).1
apply (transits job_id to reason now o) db = (transition job_id to reason now o db).1
apply (pauses job_id reason at now o) db = (pause job_id reason at now o db).1
apply (fails job_id reason now o) db = (mark_failed job_id reason now o db).1
apply (resumes job_id now o) db = (resume job_id now o db).1

abbrev pub others : Call → Others
others (creates job_id icp_id params now) = alone
others (transits job_id to reason now o) = o
others (pauses job_id reason at now o) = o
others (fails job_id reason now o) = o
others (resumes job_id now o) = o

-- The events of each job lead from QUEUED to its row's state along TRANSITIONS after a call of the
-- manager, returned or refused, if they did before it, if others keep that between the call's
-- statements, if nobody commits between the UPDATE of a transition and its INSERT, and if the
-- INSERT succeeds.
pub apply-IsValid : (c : Call) (db : Db) → IsOrderly (others c) → IsValid db → IsValid (apply c db)
apply-IsValid (creates job_id icp_id params now) db quiet v =
    create_job-IsValid job_id icp_id params now db v
apply-IsValid (transits job_id to reason now o) db quiet v =
    transition-IsValid job_id to reason now o db quiet v
apply-IsValid (pauses job_id reason at now o) db quiet v =
    pause-IsValid job_id reason at now o db quiet v
apply-IsValid (fails job_id reason now o) db quiet v =
    unfold mark_failed in transition-IsValid job_id failed (some reason) now o db quiet v
apply-IsValid (resumes job_id now o) db quiet v = resume-IsValid job_id now o db quiet v
