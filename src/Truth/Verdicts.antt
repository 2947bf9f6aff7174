-- ===== src/Truth/Verdicts.antt =====
-- verify_fact and resolve_conflict of lead_engine/truth.py.
use lead_engine.Prelude.{
  ℕ, ◌+◌, max, Bool, true, false, not, ◌&&◌, ◌||◌, Option, none, some, ◌==◌, if◌then◌else◌, or_else,
  any, Text,
}
use lead_engine.Sql.{update_where}
use lead_engine.Sql.Keyed.{find_row}
use lead_engine.Truth.Rows.{
  verified, stale, email_verify, resolved_auto, resolved_human, Fact, Conflict, Store, Context,
  conflict_key, lifetime, opposes,
}
use lead_engine.Truth.Recording.{has_source}
use lead_engine.Truth.{
  fact_missing, conflict_missing, not_a_side, open_conflict, Result, ok, err, marked, set_fact,
  has_open_conflict, get_fact, Origin, add_source,
}

-- The outcome of a check of a fact.
pub data Outcome : Type 0 where
  confirmed refuted undecided : Outcome

abbrev pub is_confirmed : Outcome → Bool
is_confirmed confirmed = true
is_confirmed _ = false

module _ (policy : Text → Option ℕ) (ctx : Context) where
  abbrev pub confirmed_fact : Option ℕ → Fact → ℕ → Fact → Fact
  confirmed_fact confidence former now f = record f {
    status = verified;
    confidence = or_else confidence (max 85 former.confidence);
    expires_at = some (now + lifetime policy former.field);
    updated_at = now;
  }

  abbrev pub refuted_fact : ℕ → Fact → Fact
  refuted_fact now f = record f { status = stale; confidence = 10; updated_at = now }

  abbrev pub checked_fact : Outcome → Option ℕ → Fact → ℕ → Store → Store
  checked_fact confirmed confidence f now s = set_fact f.fact_id (confirmed_fact confidence f now) s
  checked_fact refuted confidence f now s = set_fact f.fact_id (refuted_fact now) s
  checked_fact undecided confidence f now s = s

  abbrev pub check_found :
      ℕ → Outcome → Option ℕ → Origin → ℕ → Store → Option Fact → Result (Option Fact) × Store
  check_found id outcome confidence o now s none = (err fact_missing, s)
  check_found id outcome confidence o now s (some f) =
      let after = checked_fact outcome confidence f now (
        if has_source o
        then add_source f.fact_id (record o { kind = email_verify; query = none }) now s
        else s) in
      if is_confirmed outcome && has_open_conflict f.fact_id s
      then (err open_conflict, s)
      else (ok (get_fact ctx id after), after)

  unfoldable pub verify_fact :
      ℕ → Outcome → Option ℕ → Origin → ℕ → Store → Result (Option Fact) × Store
  verify_fact id outcome confidence o now s =
      check_found id outcome confidence o now s (get_fact ctx id s)

abbrev pub resolved : ℕ → Bool → Option Text → Option Text → ℕ → Conflict → Conflict
resolved winner automatic remark by now c = record c {
  resolution = if automatic then resolved_auto else resolved_human;
  remark = remark;
  resolved_by = by;
  resolved_at = some now;
  winner = some winner;
}

abbrev pub won : ℕ → Fact → Fact
won now f = record f { status = verified; confidence = max 85 f.confidence; updated_at = now }

abbrev pub loser_of : ℕ → Conflict → ℕ
loser_of winner c = if winner == c.fact_a then c.fact_b else c.fact_a

-- OPEN conflicts of the winner but this one.
abbrev pub opposes_still : ℕ → ℕ → Conflict → Bool
opposes_still conflict_id winner c = opposes winner c && not (c.conflict_id == conflict_id)

abbrev pub close : ℕ → ℕ → Bool → Option Text → Option Text → ℕ → Store → Store
close id winner automatic remark by now s = record s {
  conflicts =
      update_where (λ c. c.conflict_id == id) (resolved winner automatic remark by now) s.conflicts;
}

-- The writes of `resolve_conflict`, on a conflict that was found.
unfoldable pub settle : Conflict → ℕ → Bool → Option Text → Option Text → ℕ → Store → Store
settle c winner automatic remark by now s =
    let closed = close c.conflict_id winner automatic remark by now s in
    let winning =
      if any (opposes_still c.conflict_id winner) closed.conflicts
      then closed
      else set_fact winner (won now) closed in
    set_fact (loser_of winner c) (marked stale now) winning

abbrev pub resolve_found :
    ℕ → Bool → Option Text → Option Text → ℕ → Store → Option Conflict → Result (Unit {0}) × Store
resolve_found winner automatic remark by now s none = (err conflict_missing, s)
resolve_found winner automatic remark by now s (some c) =
    if winner == c.fact_a || winner == c.fact_b
    then (ok tt, settle c winner automatic remark by now s)
    else (err not_a_side, s)

unfoldable pub resolve_conflict :
    ℕ → ℕ → Bool → Option Text → Option Text → ℕ → Store → Result (Unit {0}) × Store
resolve_conflict id winner automatic remark by now s =
    resolve_found winner automatic remark by now s (find_row conflict_key id s.conflicts)
