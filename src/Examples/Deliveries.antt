-- ===== src/Examples/Deliveries.antt =====
-- Runs of infrastructure/events/relay.py with a handler that always raises.
use lead_engine.Prelude.{ℕ, ◌≡◌, refl, false, Option, none, some, List, [], ◌∷◌, arith, Text, text}
use lead_engine.Sql.{count_where}
use lead_engine.Sql.Keyed.{find_row, has_key}
use lead_engine.Relay.{OutboxRow, Events, is_consumed, after_attempt}
use lead_engine.Relay.Passes.{IsStored, runs_of, returns_of}
use lead_engine.Relay.Limits.{Pass, ticks, stops, run, IsLimited, run-IsLimited}

abbrev raising : OutboxRow → ℕ → Option Text
raising e n = some (text "down")

abbrev event : OutboxRow
event = record {
  event_id = 3;
  event_type = text "lead.approved";
  payload = text "{}";
  created_at = 10;
  published_at = none;
  publish_attempts = 0;
}

abbrev one_event : Events
one_event = record { outbox = event ∷ []; consumptions = []; dead_letters = []; calls = [] }

one_event-IsStored : IsStored 3 one_event
unfolding find_row
one_event-IsStored = (event, refl)

unseen : is_consumed 3 one_event ≡ false
unfolding has_key
unseen = refl

never_run : runs_of 3 one_event ≡ 0
unfolding count_where
never_run = refl

never_returned : returns_of 3 one_event ≡ 0
unfolding count_where
never_returned = refl

abbrev some_passes : List Pass
some_passes = ticks 100 20 ∷ stops after_attempt 30 event ∷ ticks 100 40 ∷ ticks 100 50 ∷ []

run-IsLimited_example : IsLimited 3 2 (run raising 2 some_passes one_event)
run-IsLimited_example =
    run-IsLimited raising 2 3 some_passes one_event (omega arith) one_event-IsStored unseen
      never_run never_returned
