-- ===== src/Queue/Attempts.antt =====
-- The attempt budget of lead_engine/queue.py.
use lead_engine.Prelude.{ℕ, ◌≤◌, ◌≡◌, Bool, true, some, List, [], ◌∷◌, arith, All, or_else}
use lead_engine.Sql.Keyed.{find_row}
use lead_engine.Jobs.{Row, Db, key}
use lead_engine.Jobs.Audit.{HasUniqueIds}
use lead_engine.Queue.{attempts_of, cap_of, counted, leasable}
use lead_engine.Queue.Histories.{
  Call, run, Change, untouched, enqueued, leased, spent, requeued, staled, woken, completed,
  released, yielded, retried, gave_up, beaten, run-keeps,
}

abbrev pub IsWithinBudget : Row → Type 0
IsWithinBudget r = attempts_of r ≤ cap_of r

abbrev IsAny : Call → Type 0
IsAny c = Unit

counted_within :
    (pg : Bool) (now : ℕ) (r : Row)
    → leasable now r ≡ true
    → or_else (counted pg r.attempts) 0 ≤ cap_of r
counted_within pg now r h = ground arith

Change-IsWithinBudget :
    (c : Call) (a b : Row) → IsAny c → Change c a b → IsWithinBudget a → IsWithinBudget b
Change-IsWithinBudget c a _ q (leased pg worker secs now e m) h = counted_within pg now a m
Change-IsWithinBudget c a _ q (yielded job_id now e m) h = omega arith
Change-IsWithinBudget c a _ q untouched h = h
Change-IsWithinBudget c a _ q (enqueued job_id now e m) h = h
Change-IsWithinBudget c a _ q (spent now e m) h = h
Change-IsWithinBudget c a _ q (requeued now e m) h = h
Change-IsWithinBudget c a _ q (staled hours now e m) h = h
Change-IsWithinBudget c a _ q (woken now e m) h = h
Change-IsWithinBudget c a _ q (completed job_id now e m) h = h
Change-IsWithinBudget c a _ q (released job_id now e m) h = h
Change-IsWithinBudget c a _ q (retried job_id reason now e m) h = h
Change-IsWithinBudget c a _ q (gave_up job_id reason now e m) h = h
Change-IsWithinBudget c a _ q (beaten job_id worker secs now e m) h = h

All-IsAny : (cs : List Call) → All IsAny cs
All-IsAny [] = tt
All-IsAny (c ∷ cs) = (tt, All-IsAny cs)

-- Whatever calls of the queue are made, a job that is within its attempt budget stays in the table
-- and within that budget; an empty attempts column counts as 0 and an empty cap as 3. Job ids are
-- unique at the start.
pub run-IsWithinBudget :
    (id : ℕ) (cs : List Call) (db : Db) (a : Row)
    → HasUniqueIds db
    → find_row key id db.jobs ≡ some a
    → IsWithinBudget a
    → (b : Row) × (find_row key id (run cs db).jobs ≡ some b) × IsWithinBudget b
run-IsWithinBudget id cs db a unique found h =
    run-keeps Change-IsWithinBudget id cs db (All-IsAny cs) unique a found h
