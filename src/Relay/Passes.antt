-- ===== src/Relay/Passes.antt =====
-- What a delivery does to the inbox row of one event.
use lead_engine.Prelude.{
  ℕ, ◌+◌, ◌≤◌, ◌<◌, ◌≡◌, refl, ==_iff, Bool, true, false, Option, none, some, List, [], ◌∷◌, ◌++◌,
  arith, ◌==◌, ◌&&◌, inl, inr, if◌then◌else◌, Bool-cases,
}
use lead_engine.Sql.{delete_where, count_where}
use lead_engine.Sql.Keyed.{find_row, find_row-key, has_key, update_found, find_row-update_where}
use lead_engine.Relay.{
  OutboxRow, Consumption, Events, outbox_key, consumed_key, is_consumed, attempt_row, count_attempt,
  is_unpublished, published_row, mark_published,
}

pub has_key-append_one :
    (id : ℕ) (rows : List Consumption) (c : Consumption)
    → has_key consumed_key id (rows ++ c ∷ [])
      ≡ (if has_key consumed_key id rows then true else c.consumed_id == id)
unfolding has_key
has_key-append_one id [] c = ground arith
has_key-append_one id (x ∷ rows) c = ground (arith, has_key-append_one id rows c)

pub has_key-delete_where :
    (id other : ℕ) (rows : List Consumption)
    → has_key consumed_key id (delete_where (λ c. c.consumed_id == other) rows)
      ≡ (if id == other then false else has_key consumed_key id rows)
unfolding has_key delete_where
has_key-delete_where id other [] = ground arith
has_key-delete_where id other (x ∷ rows) = ground (arith, has_key-delete_where id other rows)

abbrev attempts_in : Option OutboxRow → ℕ
attempts_in none = 0
attempts_in (some e) = e.publish_attempts

abbrev pub attempts_at : ℕ → Events → ℕ
attempts_at id s = attempts_in (find_row outbox_key id s.outbox)

abbrev pub IsStored : ℕ → Events → Type 0
IsStored id s = (e : OutboxRow) × (find_row outbox_key id s.outbox ≡ some e)

-- How often the handler has run on the event, and how often it returned.
abbrev pub runs_of : ℕ → Events → ℕ
runs_of id s = count_where (λ c. c.0 == id) s.calls

abbrev is_return : ℕ → ℕ × Bool → Bool
is_return id (k, returned) = if returned then k == id else false

abbrev pub returns_of : ℕ → Events → ℕ
returns_of id s = count_where (is_return id) s.calls

-- What holds of an event after any passes: the handler ran on it at most `max` times and returned
-- at most once, and while it is not consumed, each run was counted as an attempt, there is room for
-- another run, and none returned.
pub record IsBounded (id max : ℕ) (s : Events) : Type 0 where
  pub stored : IsStored id s
  pub runs : runs_of id s ≤ max
  pub returns : returns_of id s ≤ 1
  pub counted : is_consumed id s ≡ false → runs_of id s ≤ attempts_at id s
  pub room : is_consumed id s ≡ false → runs_of id s < max
  pub unreturned : is_consumed id s ≡ false → returns_of id s ≡ 0

module _ (id : ℕ) (s : Events) (a : OutboxRow)
    (found : find_row outbox_key id s.outbox ≡ some a) where
  attempted :
      (k : ℕ)
      → find_row outbox_key id (count_attempt k s).outbox
        ≡ update_found (λ e. e.event_id == k) attempt_row (some a)
  unfolding count_attempt
  attempted k =
      rw
        (find_row-update_where outbox_key (λ e. e.event_id == k) attempt_row (λ r. refl) id
          s.outbox)
        (rw found refl)

  marked_as :
      (k now : ℕ)
      → find_row outbox_key id (mark_published k now s).outbox
        ≡ update_found (λ e. e.event_id == k && is_unpublished e) (published_row now) (some a)
  unfolding mark_published
  marked_as k now =
      rw
        (find_row-update_where outbox_key (λ e. e.event_id == k && is_unpublished e)
          (published_row now) (λ r. refl) id s.outbox)
        (rw found refl)

module _ (id max : ℕ) (s : Events) (h : IsBounded id max s) where
  pub count_attempt-IsBounded : (k : ℕ) → IsBounded id max (count_attempt k s)
  count_attempt-IsBounded k =
      let (a, found) = h.stored in
      let at = attempted id s a found k in
      elim (Bool-cases (a.event_id == k)) [
        | inl e ↦ more a found (attempt_row a) (rw e at at) (omega arith)
        | inr e ↦ more a found a (rw e at at) (omega arith)
      ]
    where
      more :
          (a : OutboxRow)
          → find_row outbox_key id s.outbox ≡ some a
          → (b : OutboxRow) → find_row outbox_key id (count_attempt k s).outbox ≡ some b
          → a.publish_attempts ≤ b.publish_attempts
          → IsBounded id max (count_attempt k s)
      more a found b at grown = record {
        stored = (b, at);
        runs = unfold count_attempt in h.runs;
        returns = unfold count_attempt in h.returns;
        counted = λ q. rw at (below a found b grown (rw found at (h.counted (same q))));
        room = λ q. unfold count_attempt in h.room (same q);
        unreturned = λ q. unfold count_attempt in h.unreturned (same q);
      }
        where
          same : is_consumed id (count_attempt k s) ≡ false → is_consumed id s ≡ false
          same q = unfold count_attempt in q

          below :
              (a : OutboxRow)
              → find_row outbox_key id s.outbox ≡ some a
              → (b : OutboxRow) → a.publish_attempts ≤ b.publish_attempts
              → runs_of id s ≤ a.publish_attempts
              → runs_of id (count_attempt k s) ≤ b.publish_attempts
          below a found b grown r = unfold count_attempt in omega arith

  pub count_attempt-ready :
      is_consumed id (count_attempt id s) ≡ false
      → runs_of id (count_attempt id s) < attempts_at id (count_attempt id s)
  count_attempt-ready q =
      let (a, found) = h.stored in
      let at = attempted id s a found id in
      rw at (
        rw ((==_iff a.event_id id).1 (find_row-key outbox_key id s.outbox a found))
          (counted a (rw found at (h.counted (unfold count_attempt in q)))))
    where
      counted :
          (a : OutboxRow)
          → runs_of id s ≤ a.publish_attempts
          → runs_of id (count_attempt id s) < a.publish_attempts + 1
      counted a r = unfold count_attempt in omega arith

  pub mark_published-IsBounded : (k now : ℕ) → IsBounded id max (mark_published k now s)
  mark_published-IsBounded k now =
      let (a, found) = h.stored in
      let at = marked_as id s a found k now in
      elim (Bool-cases (a.event_id == k && is_unpublished a)) [
        | inl e ↦ same a found (published_row now a) (rw e at at) refl
        | inr e ↦ same a found a (rw e at at) refl
      ]
    where
      same :
          (a : OutboxRow)
          → find_row outbox_key id s.outbox ≡ some a
          → (b : OutboxRow) → find_row outbox_key id (mark_published k now s).outbox ≡ some b
          → b.publish_attempts ≡ a.publish_attempts
          → IsBounded id max (mark_published k now s)
      same a found b at kept = record {
        stored = (b, at);
        runs = unfold mark_published in h.runs;
        returns = unfold mark_published in h.returns;
        counted = λ q. rw at (
            rw kept
              (unfold mark_published in (rw found at (h.counted (unfold mark_published in q)))));
        room = λ q. unfold mark_published in h.room q;
        unreturned = λ q. unfold mark_published in h.unreturned q;
      }
