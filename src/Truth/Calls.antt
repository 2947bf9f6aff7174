-- ===== src/Truth/Calls.antt =====
-- No history of calls of lead_engine/truth.py makes a fact VERIFIED while a conflict on it is OPEN.
use lead_engine.Prelude.{
  ℕ, ◌<◌, ◌≡◌, refl, inl, inr, Bool, true, false, ◌&&◌, ◌||◌, Option, none, some, List, [], ◌∷◌,
  arith, ◌==◌, ==_iff, any, All, Text, Bool-cases,
}
use lead_engine.Sql.{update_where, select_one, All-update_where}
use lead_engine.Sql.Keyed.{find_row}
use lead_engine.Truth.Rows.{
  stale, verified, Fact, Conflict, Store, Context, email_verify, fact_key, conflict_key, is_open,
  opposes, org_of, same_value,
}
use lead_engine.Truth.{Origin, marked, set_fact, has_open_conflict, add_source, get_fact}
use lead_engine.Truth.Recording.{
  Observation, has_source, recorded, recorded_in, recorded_value, record_fact, stored_value,
}
use lead_engine.Truth.Verdicts.{
  Outcome, confirmed, refuted, undecided, confirmed_fact, refuted_fact, checked_fact, check_found,
  is_confirmed, verify_fact, resolved, won, loser_of, opposes_still, close, settle, resolve_found,
  resolve_conflict,
}
use lead_engine.Truth.Reading.{write_stale, apply_freshness, has_lapsed}
use lead_engine.Truth.Histories.{Call, records, verifies, resolves, reads, apply, run, empty_store}
use lead_engine.Truth.Honesty.{
  IsDoubtful, IsAdmitted, IsSound, doubting-IsSound, unopposed-IsSound, is_doubtful,
}
use lead_engine.Truth.Keeping.{add_source-IsSound, insert-IsSound, freshen-IsSound, known_found}

module _ (hostname : Text → Text) (policy : Text → Option ℕ) (ctx : Context) where
  recorded-IsSound :
      (org value : Text) (o : Observation) (now : ℕ) (s : Store) (found : Option Fact)
      → ((f : Fact) → found ≡ some f → f.fact_id < s.next_fact)
      → IsSound s
      → IsSound (recorded hostname policy ctx org value o now s found).1
  recorded-IsSound org value o now s none known h =
      insert-IsSound hostname policy ctx org value o now s h
  recorded-IsSound org value o now s (some f) known h =
      freshen-IsSound hostname policy ctx org o now f s h (known f refl)

  recorded_in-IsSound :
      (org : Option Text) (value : Text) (o : Observation) (now : ℕ) (s : Store)
      → IsSound s
      → IsSound (recorded_in hostname policy ctx org value o now s).1
  recorded_in-IsSound none value o now s h = h
  recorded_in-IsSound (some org) value o now s h =
      recorded-IsSound org value o now s
        (select_one (same_value ctx o.topic.kind o.topic.subject o.topic.field value) s.facts)
        (λ f e. known_found hostname policy ctx _ s.next_fact s.facts f h.fresh e) h

  recorded_value-IsSound :
      (value : Text) (o : Observation) (now : ℕ) (s : Store)
      → IsSound s
      → IsSound (recorded_value hostname policy ctx value o now s).1
  recorded_value-IsSound [] o now s h = h
  recorded_value-IsSound (c ∷ v) o now s h =
      elim (Bool-cases (has_source o.origin || o.is_inferred)) [
        | inl e ↦ rw e (recorded_in-IsSound (org_of ctx) (c ∷ v) o now s h)
        | inr e ↦ rw e h
      ]

module _ (policy : Text → Option ℕ) (ctx : Context) where
  checked-IsSound :
      (outcome : Outcome) (confidence : Option ℕ) (f : Fact) (now : ℕ) (s : Store)
      → (outcome ≡ confirmed → has_open_conflict f.fact_id s ≡ false)
      → IsSound s
      → IsSound (checked_fact policy ctx outcome confidence f now s)
  checked-IsSound confirmed confidence f now s free h =
      unopposed-IsSound f.fact_id (confirmed_fact policy ctx confidence f now) (λ x. refl) s h
        (free refl)
  checked-IsSound refuted confidence f now s free h =
      doubting-IsSound f.fact_id (refuted_fact policy ctx now) (λ x. refl) s h (λ x. refl)
  checked-IsSound undecided confidence f now s free h = h

  found-IsSound :
      (id : ℕ) (outcome : Outcome) (confidence : Option ℕ) (o : Origin) (now : ℕ) (s : Store)
      (found : Option Fact)
      → IsSound s
      → IsSound (check_found policy ctx id outcome confidence o now s found).1
  found-IsSound id outcome confidence o now s none h = h
  found-IsSound id outcome confidence o now s (some f) h =
      elim (Bool-cases (is_confirmed outcome && has_open_conflict f.fact_id s)) [
        | inl e ↦ rw e h
        | inr e ↦ elim (Bool-cases (has_source o)) [
          | inl src ↦
              rw (e, src)
                (checked-IsSound outcome confidence f now _
                  (λ q. unfold add_source has_open_conflict in unfold has_open_conflict in free q e)
                  (add_source-IsSound f.fact_id (record o { kind = email_verify; query = none }) now
                    s h))
          | inr bare ↦ rw (e, bare) (checked-IsSound outcome confidence f now s (λ q. free q e) h)
        ]
      ]
    where
      free :
          outcome ≡ confirmed
          → (is_confirmed outcome && has_open_conflict f.fact_id s) ≡ false
          → has_open_conflict f.fact_id s ≡ false
      free q e = rw q at e

is_closed :
    (winner : ℕ) (automatic : Bool) (remark by : Option Text) (now : ℕ) (c : Conflict)
    → is_open (resolved winner automatic remark by now c) ≡ false
is_closed winner true remark by now c = refl
is_closed winner false remark by now c = refl

-- Closing a conflict opens none.
close-IsSound :
    (id winner : ℕ) (automatic : Bool) (remark by : Option Text) (now : ℕ) (s : Store)
    → IsSound s
    → IsSound (close id winner automatic remark by now s)
close-IsSound id winner automatic remark by now s h = record {
  admitted =
      All-update_where (IsAdmitted s.facts) (λ c. c.conflict_id == id)
        (resolved winner automatic remark by now) s.conflicts
        (λ c m q o. absurd (clash c (is_closed winner automatic remark by now c) o)) h.admitted;
  known =
      All-update_where (λ (c : Conflict). (c.fact_a < s.next_fact) × (c.fact_b < s.next_fact))
        (λ c. c.conflict_id == id) (resolved winner automatic remark by now) s.conflicts
        (λ c m q. q) h.known;
  fresh = h.fresh;
}
  where
    clash :
        (c : Conflict)
        → is_open (resolved winner automatic remark by now c) ≡ false
        → is_open (resolved winner automatic remark by now c) ≡ true
        → ⊥
    clash c e o = cc

-- What `resolve_conflict` asks of the other conflicts is that none is OPEN once this one is closed.
still_open :
    (id winner : ℕ) (automatic : Bool) (remark by : Option Text) (now : ℕ) (cs : List Conflict)
    → any
        (opposes_still id winner)
        (update_where (λ c. c.conflict_id == id) (resolved winner automatic remark by now) cs)
      ≡ false
    → any
        (opposes winner)
        (update_where (λ c. c.conflict_id == id) (resolved winner automatic remark by now) cs)
      ≡ false
unfolding any update_where
still_open id winner automatic remark by now [] h = refl
still_open id winner automatic remark by now (c ∷ cs) h = elim (Bool-cases (c.conflict_id == id)) [
  | inl m ↦ ground (
    arith,
    is_closed winner automatic remark by now c,
    still_open id winner automatic remark by now cs,
  )
  | inr m ↦ ground (arith, m, still_open id winner automatic remark by now cs)
]

settle-IsSound :
    (c : Conflict) (winner : ℕ) (automatic : Bool) (remark by : Option Text) (now : ℕ) (s : Store)
    → IsSound s
    → IsSound (settle c winner automatic remark by now s)
unfolding settle
settle-IsSound c winner automatic remark by now s h =
    let closed = close c.conflict_id winner automatic remark by now s in
    let h' = close-IsSound c.conflict_id winner automatic remark by now s h in
    elim (Bool-cases (any (opposes_still c.conflict_id winner) closed.conflicts)) [
      | inl e ↦ rw e (
          doubting-IsSound (loser_of winner c) (marked stale now) (λ f. refl) closed h' (λ f. refl))
      | inr e ↦ rw e (
          doubting-IsSound (loser_of winner c) (marked stale now) (λ f. refl)
            (set_fact winner (won now) closed)
            (unopposed-IsSound winner (won now) (λ f. refl) closed h'
              (unfold has_open_conflict in
                still_open c.conflict_id winner automatic remark by now s.conflicts e))
            (λ f. refl))
    ]

resolve_found-IsSound :
    (winner : ℕ) (automatic : Bool) (remark by : Option Text) (now : ℕ) (s : Store)
    (found : Option Conflict)
    → IsSound s
    → IsSound (resolve_found winner automatic remark by now s found).1
resolve_found-IsSound winner automatic remark by now s none h = h
resolve_found-IsSound winner automatic remark by now s (some c) h =
    elim (Bool-cases (winner == c.fact_a || winner == c.fact_b)) [
      | inl side ↦ rw side (settle-IsSound c winner automatic remark by now s h)
      | inr other ↦ rw other h
    ]

write_stale-IsSound :
    (now : ℕ) (fs : List Fact) (s : Store) → IsSound s → IsSound (write_stale now fs s)
unfolding write_stale
write_stale-IsSound now [] s h = h
write_stale-IsSound now (f ∷ fs) s h = elim (Bool-cases (has_lapsed now f)) [
  | inl e ↦ rw e (
      write_stale-IsSound now fs (set_fact f.fact_id (marked stale now) s)
        (doubting-IsSound f.fact_id (marked stale now) (λ x. refl) s h (λ x. refl)))
  | inr e ↦ rw e (write_stale-IsSound now fs s h)
]

module _ (hostname : Text → Text) (policy : Text → Option ℕ) where
  apply-IsSound : (c : Call) (s : Store) → IsSound s → IsSound (apply hostname policy c s)
  unfolding apply record_fact verify_fact resolve_conflict apply_freshness
  apply-IsSound (records ctx o now) s h =
      recorded_value-IsSound hostname policy ctx (stored_value o.raw_value) o now s h
  apply-IsSound (verifies ctx id outcome confidence o now) s h =
      found-IsSound policy ctx id outcome confidence o now s (get_fact ctx id s) h
  apply-IsSound (resolves id winner automatic remark by now) s h =
      resolve_found-IsSound winner automatic remark by now s (find_row conflict_key id s.conflicts)
        h
  apply-IsSound (reads ctx kind subject now) s h = write_stale-IsSound now _ s h

  run-IsSound : (cs : List Call) (s : Store) → IsSound s → IsSound (run hostname policy cs s)
  unfolding run
  run-IsSound [] s h = h
  run-IsSound (c ∷ cs) s h = run-IsSound cs (apply hostname policy c s) (apply-IsSound c s h)

empty-IsSound : IsSound empty_store
empty-IsSound = record { admitted = tt; known = tt; fresh = tt }

doubt_of :
    (id : ℕ) (facts : List Fact) (f : Fact)
    → find_row fact_key id facts ≡ some f
    → IsDoubtful id facts
    → is_doubtful f.status ≡ true
unfolding find_row
doubt_of id [] f e h = absurd (cc)
doubt_of id (x ∷ facts) f e h = ground (arith, h.0, doubt_of id facts f)

opposed_doubt :
    (id : ℕ) (facts : List Fact) (f : Fact) (cs : List Conflict)
    → find_row fact_key id facts ≡ some f
    → All (IsAdmitted facts) cs
    → any (opposes id) cs ≡ true
    → is_doubtful f.status ≡ true
unfolding any
opposed_doubt id facts f [] e h q = absurd (cc)
opposed_doubt id facts f (c ∷ cs) e h q = elim (Bool-cases (opposes id c)) [
  | inr m ↦ opposed_doubt id facts f cs e h.1 (ground arith)
  | inl m ↦ elim (Bool-cases (c.fact_a == id)) [
    | inl a ↦ doubt_of id facts f e (rw (← (==_iff c.fact_a id).0 a) ((h.0 (ground arith)).0))
    | inr b ↦
        doubt_of id facts f e
          (rw (← (==_iff c.fact_b id).0 (ground arith)) ((h.0 (ground arith)).1))
  ]
]

-- After any history of recorded observations, checks, resolutions and reads, by whatever callers and
-- however often a conflict is resolved again, a fact that is VERIFIED has no OPEN conflict.
pub run-has_open_conflict :
    (hostname : Text → Text) (policy : Text → Option ℕ) (cs : List Call) (id : ℕ) (f : Fact)
    → find_row fact_key id (run hostname policy cs empty_store).facts ≡ some f
    → f.status ≡ verified
    → has_open_conflict id (run hostname policy cs empty_store) ≡ false
unfolding has_open_conflict
run-has_open_conflict hostname policy cs id f found status =
    let s = run hostname policy cs empty_store in
    let h = run-IsSound hostname policy cs empty_store empty-IsSound in
    elim (Bool-cases (any (opposes id) s.conflicts)) [
      | inr e ↦ e
      | inl e ↦ absurd (clash (opposed_doubt id s.facts f s.conflicts found h.admitted e))
    ]
  where
    clash : is_doubtful f.status ≡ true → ⊥
    clash q = ground (arith, status)
