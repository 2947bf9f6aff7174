-- ===== src/Relay/Limits.antt =====
-- How often the handler runs on an event, over every history of passes and crashes.
use lead_engine.Prelude.{
  ℕ, ◌+◌, ◌≤◌, ◌<◌, ◌≡◌, ==_iff, Bool, true, false, Option, none, some, List, [], ◌∷◌, arith, ◌==◌,
  leb, inl, inr, Text, Bool-cases, Option-cases, length,
}
use lead_engine.Sql.Keyed.{find_row}
use lead_engine.Relay.{
  OutboxRow, Events, outbox_key, is_consumed, count_attempt, on_failure, note_run, deliver, marked,
  Stop, never, after_attempt, after_dispatch, dispatch, dispatch_all, pending, tick,
}
use lead_engine.Relay.Passes.{
  attempts_at, runs_of, returns_of, IsStored, IsBounded, count_attempt-IsBounded,
  count_attempt-ready, mark_published-IsBounded,
}
use lead_engine.Relay.Runs.{
  returned-IsBounded, forgotten-IsBounded, dead-IsBounded, noted-IsBounded,
}

-- The attempt of the event at hand has been counted.
abbrev IsReady : ℕ → OutboxRow → Events → Type 0
IsReady id e s =
    (e.event_id == id) ≡ true → is_consumed id s ≡ false → runs_of id s < attempts_at id s

module _ (id max : ℕ) (e : OutboxRow) (s : Events) (h : IsBounded id max s)
    (ready : IsReady id e s) where
  module _ (open_now : is_consumed e.event_id s ≡ false) where
    failed-IsBounded :
        (error : Text) → IsBounded id max (on_failure max e error (note_run e.event_id false s))
    unfolding on_failure
    failed-IsBounded error = elim (Option-cases (find_row outbox_key e.event_id s.outbox)) [
      | inl absent ↦ elim (Bool-cases (e.event_id == id)) [
        | inl m ↦ absurd (lost m absent)
        | inr m ↦ rw absent (noted-IsBounded id max s h e ready open_now false m)
      ]
      | inr (row, found) ↦ elim (Bool-cases (leb max row.publish_attempts)) [
        | inl out ↦
            rw found
              (rw out (dead-IsBounded id max s h e ready open_now error row.publish_attempts))
        | inr more ↦
            rw found
              (rw more (forgotten-IsBounded id max s h e ready open_now (below row found more)))
      ]
    ]
      where
        lost : (e.event_id == id) ≡ true → find_row outbox_key e.event_id s.outbox ≡ none → ⊥
        lost m absent =
            let (a, found) = h.stored in
            let same = (==_iff e.event_id id).0 m in clash a (rw same at absent) found
          where
            clash :
                (a : OutboxRow)
                → find_row outbox_key id s.outbox ≡ none
                → find_row outbox_key id s.outbox ≡ some a
                → ⊥
            clash a p q = cc

        below :
            (row : OutboxRow)
            → find_row outbox_key e.event_id s.outbox ≡ some row
            → leb max row.publish_attempts ≡ false
            → (e.event_id == id) ≡ true
            → runs_of id s + 1 < max
        below row found more m =
            let same = (==_iff e.event_id id).0 m in
            let fewer = rw (rw same at found) at (ready m (rw same at open_now)) in ground arith

  deliver-IsBounded :
      (handler : OutboxRow → ℕ → Option Text) → IsBounded id max (deliver handler max e s).1
  unfolding deliver
  deliver-IsBounded handler = elim (Bool-cases (is_consumed e.event_id s)) [
    | inl done ↦ rw done h
    | inr open_now ↦ elim (Option-cases (handler e (length s.calls))) [
      | inl ok ↦ rw open_now (rw ok (returned-IsBounded id max s h e ready open_now))
      | inr (error, raised) ↦ rw open_now (rw raised (failed-IsBounded open_now error))
    ]
  ]

module _ (handler : OutboxRow → ℕ → Option Text) (id max : ℕ) where
  counted_now :
      (e : OutboxRow) (s : Events) → IsBounded id max s → IsReady id e (count_attempt e.event_id s)
  counted_now e s h m q =
      let same = (==_iff e.event_id id).0 m in
      rw same (count_attempt-ready id max s h (rw same at q))

  dispatch-IsBounded :
      (stop : Stop) (now : ℕ) (e : OutboxRow) (s : Events)
      → IsBounded id max s
      → IsBounded id max (dispatch handler max stop now e s).1
  unfolding dispatch
  dispatch-IsBounded stop now e s h =
      let begun = count_attempt-IsBounded id max s h e.event_id in
      let ended =
        deliver-IsBounded id max e (count_attempt e.event_id s) begun (counted_now e s h) handler in
      elim stop as (λ x. IsBounded id max (dispatch handler max x now e s).1) [
        | never ↦ settled (deliver handler max e (count_attempt e.event_id s)) ended
        | after_attempt ↦ begun
        | after_dispatch ↦ ended
      ]
    where
      settled :
          (out : Bool × Events)
          → IsBounded id max out.1
          → IsBounded id max (marked now e.event_id out).1
      settled (true, after) k = mark_published-IsBounded id max after k e.event_id now
      settled (false, after) k = k

  dispatch_all-IsBounded :
      (now : ℕ) (rows : List OutboxRow) (s : Events)
      → IsBounded id max s
      → IsBounded id max (dispatch_all handler max now rows s).1
  unfolding dispatch_all
  dispatch_all-IsBounded now [] s h = h
  dispatch_all-IsBounded now (e ∷ rows) s h =
      dispatch_all-IsBounded now rows (dispatch handler max never now e s).1
        (dispatch-IsBounded never now e s h)

-- What happens to the tables: whole passes, and single rounds, cut short or not, on any event.
pub data Pass : Type 0 where
  ticks : ℕ → ℕ → Pass
  stops : Stop → ℕ → OutboxRow → Pass

module _ (handler : OutboxRow → ℕ → Option Text) (max : ℕ) where
  unfoldable pub apply : Pass → Events → Events
  apply (ticks batch_size now) s = (tick handler max batch_size now s).1
  apply (stops stop now e) s = (dispatch handler max stop now e s).1

  unfoldable pub run : List Pass → Events → Events
  run [] s = s
  run (p ∷ passes) s = run passes (apply p s)

  apply-IsBounded :
      (id : ℕ) (p : Pass) (s : Events) → IsBounded id max s → IsBounded id max (apply p s)
  unfolding apply tick
  apply-IsBounded id (ticks batch_size now) s h =
      dispatch_all-IsBounded handler id max now (pending batch_size s) s h
  apply-IsBounded id (stops stop now e) s h = dispatch-IsBounded handler id max stop now e s h

  run-IsBounded :
      (id : ℕ) (passes : List Pass) (s : Events)
      → IsBounded id max s
      → IsBounded id max (run passes s)
  unfolding run
  run-IsBounded id [] s h = h
  run-IsBounded id (p ∷ passes) s h = run-IsBounded id passes (apply p s) (apply-IsBounded id p s h)

-- What the consumer promises of an event after any passes.
pub record IsLimited (id max : ℕ) (s : Events) : Type 0 where
  pub runs : runs_of id s ≤ max
  pub returns : returns_of id s ≤ 1
  pub parked : runs_of id s ≡ max → is_consumed id s ≡ true

-- From an event in the outbox that the consumer has not seen, with max_attempts above 0, whatever the
-- handler does and however passes and rounds cut short follow each other: the handler runs on the event
-- at most max_attempts times and returns at most once, and after max_attempts runs the event is
-- consumed. A round may be cut short before the consumer is called or after it has finished.
pub run-IsLimited :
    (handler : OutboxRow → ℕ → Option Text) (max id : ℕ) (passes : List Pass) (s : Events)
    → 0 < max
    → IsStored id s
    → is_consumed id s ≡ false
    → runs_of id s ≡ 0
    → returns_of id s ≡ 0
    → IsLimited id max (run handler max passes s)
run-IsLimited handler max id passes s positive stored unseen no_runs no_returns =
    let h = run-IsBounded handler max id passes s (record {
      stored = stored;
      runs = omega arith;
      returns = omega arith;
      counted = λ q. omega arith;
      room = λ q. omega arith;
      unreturned = λ q. no_returns;
    }) in
    record {
      runs = h.runs;
      returns = h.returns;
      parked = λ all. elim (Bool-cases (is_consumed id (run handler max passes s))) [
        | inl e ↦ e
        | inr e ↦ absurd (omega (arith, h.room e))
      ];
    }
