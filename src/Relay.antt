-- ===== src/Relay.antt =====
-- infrastructure/events/relay.py: the outbox relay and the idempotent consumer behind it. The
-- handler's answer to its n-th call is a parameter: none where it returns, else the text of what it
-- raises. `calls` notes each run of the handler and whether it returned.
pub mod Passes
pub mod Runs
pub mod Limits
use lead_engine.Prelude.{
  ℕ, ◌+◌, ◌≡◌, Bool, true, false, not, ◌&&◌, Option, none, some, List, [], ◌∷◌, ◌++◌, ◌==◌, ltb,
  leb, length, take, if◌then◌else◌, Text,
}
use lead_engine.Sql.{update_where, count_where, select_where, delete_where}
use lead_engine.Sql.Keyed.{find_row, has_key}

pub record OutboxRow : Type 0 where
  pub event_id : ℕ
  pub event_type : Text
  pub payload : Text
  pub created_at : ℕ
  pub published_at : Option ℕ
  pub publish_attempts : ℕ

pub data ConsumptionResult : Type 0 where
  processed dead_lettered : ConsumptionResult

-- A row of events.event_consumptions of this consumer.
pub record Consumption : Type 0 where
  pub consumed_id : ℕ
  pub result : ConsumptionResult

pub record DeadLetter : Type 0 where
  pub dead_id : ℕ
  pub dead_type : Text
  pub dead_payload : Text
  pub error : Text
  pub attempts : ℕ

pub record Events : Type 0 where
  pub outbox : List OutboxRow
  pub consumptions : List Consumption
  pub dead_letters : List DeadLetter
  pub calls : List (ℕ × Bool)

abbrev pub outbox_key : OutboxRow → ℕ
outbox_key e = e.event_id

abbrev pub consumed_key : Consumption → ℕ
consumed_key c = c.consumed_id

abbrev pub is_consumed : ℕ → Events → Bool
is_consumed id s = has_key consumed_key id s.consumptions

abbrev pub attempt_row : OutboxRow → OutboxRow
attempt_row e = record e { publish_attempts = e.publish_attempts + 1 }

-- UPDATE events.outbox SET publish_attempts = publish_attempts + 1
unfoldable pub count_attempt : ℕ → Events → Events
count_attempt id s = record s { outbox = update_where (λ e. e.event_id == id) attempt_row s.outbox }

abbrev pub is_unpublished : OutboxRow → Bool
is_unpublished e = is_none e.published_at
  where
    is_none : Option ℕ → Bool
    is_none none = true
    is_none (some t) = false

abbrev pub published_row : ℕ → OutboxRow → OutboxRow
published_row now e = record e { published_at = some now }

unfoldable pub mark_published : ℕ → ℕ → Events → Events
mark_published id now s = record s {
  outbox = update_where (λ e. e.event_id == id && is_unpublished e) (published_row now) s.outbox;
}

abbrev pub consumption : ℕ → ConsumptionResult → Consumption
consumption id result = record { consumed_id = id; result = result }

abbrev pub dead_letter : OutboxRow → Text → ℕ → DeadLetter
dead_letter e error attempts = record {
  dead_id = e.event_id;
  dead_type = e.event_type;
  dead_payload = e.payload;
  error = error;
  attempts = attempts;
}

-- The inbox row, deleted for a retry.
abbrev pub forget : ℕ → Events → Events
forget id s = record s { consumptions = delete_where (λ c. c.consumed_id == id) s.consumptions }

abbrev pub park_dead : OutboxRow → Text → ℕ → Events → Events
park_dead e error attempts s = record s {
  dead_letters = s.dead_letters ++ dead_letter e error attempts ∷ [];
  consumptions = s.consumptions ++ consumption e.event_id dead_lettered ∷ [];
}

-- `_on_failure`. An event that is no longer in the outbox makes it raise, and nothing is written.
abbrev failed_at : ℕ → OutboxRow → Text → Events → Option OutboxRow → Events
failed_at max_attempts e error s none = s
failed_at max_attempts e error s (some row) =
    if leb max_attempts row.publish_attempts
    then park_dead e error row.publish_attempts (forget e.event_id s)
    else forget e.event_id s

unfoldable pub on_failure : ℕ → OutboxRow → Text → Events → Events
on_failure max_attempts e error s =
    failed_at max_attempts e error s (find_row outbox_key e.event_id s.outbox)

abbrev pub note_run : ℕ → Bool → Events → Events
note_run id returned s = record s { calls = (id, returned) ∷ s.calls }

abbrev pub record_processed : ℕ → Events → Events
record_processed id s = record s { consumptions = s.consumptions ++ consumption id processed ∷ [] }

abbrev handled : ℕ → OutboxRow → Events → Option Text → Bool × Events
handled max_attempts e s none = (true, record_processed e.event_id (note_run e.event_id true s))
handled max_attempts e s (some error) =
    (false, on_failure max_attempts e error (note_run e.event_id false s))

abbrev pub marked : ℕ → ℕ → Bool × Events → ℕ × Events
marked now id (true, s) = (1, mark_published id now s)
marked now id (false, s) = (0, s)

-- Where a round stops: nowhere, or the process dies after the transaction that counts the attempt or
-- after the consumer has finished, before the event is marked.
pub data Stop : Type 0 where
  never after_attempt after_dispatch : Stop

module _ (handler : OutboxRow → ℕ → Option Text) (max_attempts : ℕ) where
  -- IdempotentConsumer.__call__: false where it raises.
  unfoldable pub deliver : OutboxRow → Events → Bool × Events
  deliver e s =
      if is_consumed e.event_id s
      then (true, s)
      else handled max_attempts e s (handler e (length s.calls))

  -- One round of the loop of `tick`: how many events were dispatched, and the tables.
  unfoldable pub dispatch : Stop → ℕ → OutboxRow → Events → ℕ × Events
  dispatch never now e s = marked now e.event_id (deliver e (count_attempt e.event_id s))
  dispatch after_attempt now e s = (0, count_attempt e.event_id s)
  dispatch after_dispatch now e s = (0, (deliver e (count_attempt e.event_id s)).1)

  unfoldable pub dispatch_all : ℕ → List OutboxRow → Events → ℕ × Events
  dispatch_all now [] s = (0, s)
  dispatch_all now (e ∷ rows) s =
      let (n, after) = dispatch never now e s in
      let (rest, last) = dispatch_all now rows after in (n + rest, last)

-- ORDER BY created_at
unfoldable pub insert_by_time : OutboxRow → List OutboxRow → List OutboxRow
insert_by_time e [] = e ∷ []
insert_by_time e (x ∷ rows) =
    let rest = insert_by_time e rows in
    if ltb x.created_at e.created_at then x ∷ rest else e ∷ x ∷ rows

unfoldable pub sort_by_time : List OutboxRow → List OutboxRow
sort_by_time [] = []
sort_by_time (e ∷ rows) = insert_by_time e (sort_by_time rows)

unfoldable pub pending : ℕ → Events → List OutboxRow
pending batch_size s = take batch_size (sort_by_time (select_where is_unpublished s.outbox))

module _ (handler : OutboxRow → ℕ → Option Text) (max_attempts : ℕ) where
  unfoldable pub tick : ℕ → ℕ → Events → ℕ × Events
  tick batch_size now s = dispatch_all handler max_attempts now (pending batch_size s) s
