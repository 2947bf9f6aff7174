-- ===== src/Jobs/Events.antt =====
-- The table job_events, also where a statement fails halfway through a call.
use lead_engine.Prelude.{
  ℕ, ◌≡◌, inl, inr, true, Option, some, [], ◌∷◌, ◌==◌, Text, text, Bool-cases, Option-cases, All,
  All-append,
}
use lead_engine.Sql.{count_where}
use lead_engine.Sql.Keyed.{has_key}
use lead_engine.Jobs.Transitions.{State, state_eq, allows, failed, paused, resuming}
use lead_engine.Jobs.{
  key, Event, Db, Others, event, updated, Result, ok, err, create_job, current, at_state,
  log_transition, write_transition, transition, and_then, set_resume_at, pause, mark_failed, resume,
}
use lead_engine.Jobs.Manager.{Call, creates, transits, pauses, fails, resumes, apply, others}

-- Each event is of an edge of TRANSITIONS.
abbrev pub HasLegalEvents : Db → Type 0
HasLegalEvents db = All (λ (e : Event). allows e.from_state e.to_state ≡ true) db.events

abbrev Preserves : (Db → Db) → Type 0
Preserves f = (db : Db) → HasLegalEvents db → HasLegalEvents (f db)

-- What others commit in the middle of a call adds no other event; the INSERT may fail.
pub record AreLegal (o : Others) : Type 0 where
  pub on_transition : Preserves o.before_transition
  pub on_update : Preserves o.before_update
  pub on_insert : Preserves o.before_insert
  pub on_resume_at : Preserves o.before_resume_at

module _ (job_id : ℕ) (to : State) (reason : Option Text) (now : ℕ) (o : Others)
    (legal : AreLegal o) where
  log_transition-HasLegalEvents :
      (from : State) (db : Db)
      → allows from to ≡ true
      → HasLegalEvents db
      → HasLegalEvents (log_transition job_id from to reason now o.inserts db).1
  unfolding log_transition
  log_transition-HasLegalEvents from db edge h = elim (Bool-cases o.inserts) [
    | inl e ↦ rw e (All-append _ db.events (event job_id from to reason now ∷ []) h (edge, tt))
    | inr e ↦ rw e h
  ]

  write_transition-HasLegalEvents :
      (from : State) (db : Db)
      → allows from to ≡ true
      → HasLegalEvents db
      → HasLegalEvents (write_transition job_id from to reason now o db).1
  unfolding write_transition
  write_transition-HasLegalEvents from db edge h =
      elim (Bool-cases (count_where (at_state job_id from) db.jobs == 0)) [
        | inl e ↦ rw e h
        | inr e ↦ rw e (
            log_transition-HasLegalEvents from
              (o.before_insert (updated job_id from to reason now db)) edge
              (legal.on_insert (updated job_id from to reason now db) h))
      ]

  transition-HasLegalEvents :
      (db : Db) → HasLegalEvents db → HasLegalEvents (transition job_id to reason now o db).1
  unfolding transition
  transition-HasLegalEvents db h = elim (Option-cases (current job_id db)) [
    | inl e ↦ rw e h
    | inr (from, e) ↦ elim (Bool-cases (allows from to)) [
      | inl edge ↦
          rw (e, edge)
            (write_transition-HasLegalEvents from (o.before_update db) edge (legal.on_update db h))
      | inr edge ↦ rw (e, edge) h
    ]
  ]

pause-HasLegalEvents :
    (job_id : ℕ) (reason : Text) (at now : ℕ) (o : Others) (db : Db)
    → AreLegal o
    → HasLegalEvents db
    → HasLegalEvents (pause job_id reason at now o db).1
unfolding pause
pause-HasLegalEvents job_id reason at now o db legal h =
    settled (transition job_id paused (some reason) now o db)
      (transition-HasLegalEvents job_id paused (some reason) now o legal db h)
  where
    settled :
        (out : Result State × Db)
        → HasLegalEvents out.1
        → HasLegalEvents (and_then out (λ d. set_resume_at job_id at (o.before_resume_at d))).1
    settled (err e, d) k = k
    settled (ok s, d) k = unfold set_resume_at in legal.on_resume_at d k

resume-HasLegalEvents :
    (job_id now : ℕ) (o : Others) (db : Db)
    → AreLegal o
    → HasLegalEvents db
    → HasLegalEvents (resume job_id now o db).1
unfolding resume
resume-HasLegalEvents job_id now o db legal h = elim (Option-cases (current job_id db)) [
  | inl e ↦ rw e h
  | inr (s, e) ↦ elim (Bool-cases (state_eq s paused)) [
    | inl p ↦
        rw (e, p)
          (transition-HasLegalEvents job_id resuming (some (text "scheduler retry")) now o legal
            (o.before_transition db) (legal.on_transition db h))
    | inr p ↦ rw (e, p) h
  ]
]

create_job-HasLegalEvents :
    (job_id : ℕ) (icp_id params : Text) (now : ℕ) (db : Db)
    → HasLegalEvents db
    → HasLegalEvents (create_job job_id icp_id params now db).1
unfolding create_job
create_job-HasLegalEvents job_id icp_id params now db h =
    elim (Bool-cases (has_key key job_id db.jobs)) [ inl e ↦ rw e h | inr e ↦ rw e h ]

-- Whatever a call of the manager returns or raises, also where an INSERT fails after its UPDATE or
-- others commit between any two statements of the call, each event in job_events is of an edge of
-- TRANSITIONS, if that held before and others add no event that is not.
pub apply-HasLegalEvents :
    (c : Call) (db : Db) → AreLegal (others c) → HasLegalEvents db → HasLegalEvents (apply c db)
apply-HasLegalEvents (creates job_id icp_id params now) db legal h =
    create_job-HasLegalEvents job_id icp_id params now db h
apply-HasLegalEvents (transits job_id to reason now o) db legal h =
    transition-HasLegalEvents job_id to reason now o legal db h
apply-HasLegalEvents (pauses job_id reason at now o) db legal h =
    pause-HasLegalEvents job_id reason at now o db legal h
apply-HasLegalEvents (fails job_id reason now o) db legal h =
    unfold mark_failed in transition-HasLegalEvents job_id failed (some reason) now o legal db h
apply-HasLegalEvents (resumes job_id now o) db legal h =
    resume-HasLegalEvents job_id now o db legal h
