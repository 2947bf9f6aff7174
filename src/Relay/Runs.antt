-- ===== src/Relay/Runs.antt =====
-- What a run of the handler does to the inbox row of one event.
use lead_engine.Prelude.{
  ℕ, ◌+◌, ◌<◌, ◌≡◌, ==_iff, Bool, true, false, arith, ◌==◌, inl, inr, Text, Bool-cases,
}
use lead_engine.Sql.{delete_where, count_where}
use lead_engine.Relay.{
  OutboxRow, Events, processed, dead_lettered, is_consumed, consumption, forget, park_dead,
  note_run, record_processed,
}
use lead_engine.Relay.Passes.{
  has_key-append_one, has_key-delete_where, attempts_at, runs_of, IsBounded,
}

module _ (id max : ℕ) (s : Events) (h : IsBounded id max s) where
  -- A run of the handler on the event, once its attempt has been counted.
  module _ (e : OutboxRow)
      (ready : (e.event_id == id) ≡ true
        → is_consumed id s ≡ false
        → runs_of id s < attempts_at id s)
      (open_now : is_consumed e.event_id s ≡ false) where
    pub returned-IsBounded :
        IsBounded id max (record_processed e.event_id (note_run e.event_id true s))
    unfolding count_where
    returned-IsBounded =
        let kept = has_key-append_one id s.consumptions (consumption e.event_id processed) in
        elim (Bool-cases (e.event_id == id)) [
          | inl m ↦
              let open_at = rw ((==_iff e.event_id id).0 m) at open_now in
              record {
                stored = h.stored;
                runs = ground (arith, h.room open_at);
                returns = ground (arith, h.unreturned open_at);
                counted = λ q. absurd (ground arith);
                room = λ q. absurd (ground arith);
                unreturned = λ q. absurd (ground arith);
              }
          | inr m ↦ record {
            stored = h.stored;
            runs = ground (arith, h.runs);
            returns = ground (arith, h.returns);
            counted = λ q. ground (arith, h.counted (ground arith));
            room = λ q. ground (arith, h.room (ground arith));
            unreturned = λ q. ground (arith, h.unreturned (ground arith));
          }
        ]

    -- The inbox row stays deleted.
    pub forgotten-IsBounded :
        ((e.event_id == id) ≡ true → runs_of id s + 1 < max)
        → IsBounded id max (forget e.event_id (note_run e.event_id false s))
    unfolding count_where
    forgotten-IsBounded more =
        let kept = has_key-delete_where id e.event_id s.consumptions in
        elim (Bool-cases (e.event_id == id)) [
          | inl m ↦
              let open_at = rw ((==_iff e.event_id id).0 m) at open_now in
              record {
                stored = h.stored;
                runs = ground (arith, h.room open_at);
                returns = ground (arith, h.unreturned open_at);
                counted = λ q. ground (arith, ready m open_at);
                room = λ q. ground (arith, more m);
                unreturned = λ q. ground (arith, h.unreturned open_at);
              }
          | inr m ↦ record {
            stored = h.stored;
            runs = ground (arith, h.runs);
            returns = ground (arith, h.returns);
            counted = λ q. ground (arith, h.counted (ground arith));
            room = λ q. ground (arith, h.room (ground arith));
            unreturned = λ q. ground (arith, h.unreturned (ground arith));
          }
        ]

    pub dead-IsBounded :
        (error : Text) (n : ℕ)
        → IsBounded id max (park_dead e error n (forget e.event_id (note_run e.event_id false s)))
    unfolding count_where
    dead-IsBounded error n =
        let rest = delete_where (λ c. c.consumed_id == e.event_id) s.consumptions in
        let kept = has_key-append_one id rest (consumption e.event_id dead_lettered) in
        let gone = has_key-delete_where id e.event_id s.consumptions in
        elim (Bool-cases (e.event_id == id)) [
          | inl m ↦
              let open_at = rw ((==_iff e.event_id id).0 m) at open_now in
              record {
                stored = h.stored;
                runs = ground (arith, h.room open_at);
                returns = ground (arith, h.unreturned open_at);
                counted = λ q. absurd (ground arith);
                room = λ q. absurd (ground arith);
                unreturned = λ q. absurd (ground arith);
              }
          | inr m ↦ record {
            stored = h.stored;
            runs = ground (arith, h.runs);
            returns = ground (arith, h.returns);
            counted = λ q. ground (arith, h.counted (ground arith));
            room = λ q. ground (arith, h.room (ground arith));
            unreturned = λ q. ground (arith, h.unreturned (ground arith));
          }
        ]

    -- A run on another event that leaves its inbox row alone.
    pub noted-IsBounded :
        (returned : Bool)
        → (e.event_id == id) ≡ false
        → IsBounded id max (note_run e.event_id returned s)
    unfolding count_where
    noted-IsBounded returned m = record {
      stored = h.stored;
      runs = ground (arith, h.runs);
      returns = ground (arith, h.returns);
      counted = λ q. ground (arith, h.counted q);
      room = λ q. ground (arith, h.room q);
      unreturned = λ q. ground (arith, h.unreturned q);
    }
