-- ===== src/Examples/Moves.antt =====
-- Runs of lead_engine/jobs.py: a job that another connection cancels, a restart, an audit trail.
use lead_engine.Prelude.{false, ℕ, ◌≡◌, ◌≢◌, refl, none, some, List, [], ◌∷◌, arith, text}
use lead_engine.Sql.Keyed.{find_row, has_key}
use lead_engine.Jobs.Transitions.{State, queued, running, discovering, cancelled, allows}
use lead_engine.Jobs.{Row, Event, Db, key, ok, new_row, transition, Others, alone, event}
use lead_engine.Jobs.Audit.{IsValid, HasUniqueIds, Trail, none_yet, then_to}
use lead_engine.Jobs.Manager.{transits, apply, IsOrderly, apply-IsValid}
use lead_engine.Jobs.Events.{HasLegalEvents, apply-HasLegalEvents}
use lead_engine.Jobs.Finality.{transition_final}

abbrev queued_job : Row
queued_job = new_row 1 (text "icp") (text "{}") 10

abbrev fresh_db : Db
fresh_db = record { jobs = queued_job ∷ []; events = [] }

fresh_db-HasUniqueIds : HasUniqueIds fresh_db
unfolding has_key
fresh_db-HasUniqueIds = (refl, tt)

fresh_state : (job_id : ℕ) (r : Row) → find_row key job_id fresh_db.jobs ≡ some r → r.state ≡ queued
unfolding find_row
fresh_state job_id r h = ground arith

fresh_db-IsValid : IsValid fresh_db
fresh_db-IsValid = record {
  audited = λ job_id r h. rw (fresh_state job_id r h) none_yet;
  unique = fresh_db-HasUniqueIds;
  known = tt;
}

alone-IsOrderly : IsOrderly alone
alone-IsOrderly = record {
  keeps_transition = λ db v. v;
  keeps_update = λ db v. v;
  keeps_resume_at = λ db v. v;
  nothing = λ db. refl;
  is_logged = refl;
}

apply-IsValid_example : IsValid (apply (transits 1 running none 20 alone) fresh_db)
apply-IsValid_example =
    apply-IsValid (transits 1 running none 20 alone) fresh_db alone-IsOrderly fresh_db-IsValid

-- The job is moved, but its event is never written.
abbrev broken_insert : Others
broken_insert = record alone { inserts = false }

apply-HasLegalEvents_example :
    HasLegalEvents (apply (transits 1 running none 20 broken_insert) fresh_db)
apply-HasLegalEvents_example =
    apply-HasLegalEvents (transits 1 running none 20 broken_insert) fresh_db
      (record {
        on_transition = λ db h. h;
        on_update = λ db h. h;
        on_insert = λ db h. h;
        on_resume_at = λ db h. h;
      })
      tt

-- Another connection cancels the job after this one has read it as QUEUED.
abbrev cancelling_it : Db → Db
cancelling_it db = record db { jobs = record queued_job { state = cancelled } ∷ [] }

abbrev cancelled_meanwhile : Others
cancelled_meanwhile = record alone { before_update = cancelling_it }

cancelled_row :
    find_row key 1 (cancelling_it fresh_db).jobs ≡ some (record queued_job { state = cancelled })
unfolding find_row
cancelled_row = refl

cancelled-HasUniqueIds : HasUniqueIds (cancelling_it fresh_db)
unfolding has_key
cancelled-HasUniqueIds = (refl, tt)

transition_final_example :
    (transition 1 running none 20 cancelled_meanwhile fresh_db).0 ≢ ok running
transition_final_example =
    transition_final 1 running none 20 cancelled_meanwhile fresh_db cancelled-HasUniqueIds
      (record queued_job { state = cancelled }) cancelled_row refl running

abbrev moved_from : State → State → Event
moved_from from to = event 1 from to none 20

abbrev to_running : List Event
to_running = moved_from queued running ∷ []

to_running-Trail : Trail queued to_running running
unfolding allows
to_running-Trail = then_to (moved_from queued running) none_yet refl refl

to_phase-Trail : Trail queued (moved_from running discovering ∷ to_running) discovering
unfolding allows
to_phase-Trail = then_to (moved_from running discovering) to_running-Trail refl refl

abbrev running_job : Row
running_job = record queued_job { state = running }

abbrev running_db : Db
running_db = record { jobs = running_job ∷ []; events = [] }
