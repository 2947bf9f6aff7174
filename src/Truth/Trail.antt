-- ===== src/Truth/Trail.antt =====
-- Facts are never overwritten: no call of lead_engine/truth.py drops a row or changes what it says.
use lead_engine.Prelude.{
  ℕ, ◌≡◌, refl, inl, inr, Bool, true, false, ◌&&◌, ◌||◌, Option, none, some, List, [], ◌∷◌, arith,
  ◌==◌, if◌then◌else◌, any, Text, Bool-cases,
}
use lead_engine.Sql.{select_one}
use lead_engine.Sql.Keyed.{find_row, find_row-update_where, find_row-append_present}
use lead_engine.Truth.Rows.{
  Status, conflicted, stale, Fact, Conflict, Store, Context, fact_key, conflict_key, is_fresh,
  org_of, same_value, email_verify,
}
use lead_engine.Truth.{
  Topic, Origin, marked, set_fact, has_open_conflict, add_source, oppose, is_opposed,
  open_conflict_on, oppose_all, detect_conflicts, recompute_status, get_fact,
}
use lead_engine.Truth.Recording.{
  Observation, origin_of_new, has_source, inserted, insert_fact, freshened, freshen, settled,
  recorded, recorded_in, recorded_value, record_fact, stored_value,
}
use lead_engine.Truth.Verdicts.{
  Outcome, confirmed, refuted, undecided, is_confirmed, confirmed_fact, refuted_fact, checked_fact,
  check_found, verify_fact, won, loser_of, opposes_still, close, settle, resolve_found,
  resolve_conflict,
}
use lead_engine.Truth.Reading.{write_stale, apply_freshness, has_lapsed}
use lead_engine.Truth.Histories.{Call, records, verifies, resolves, reads, apply, run}

-- What a fact says, and of whom: all but its status, confidence and dates.
pub record SaysSame (a b : Fact) : Type 0 where
  pub organization : b.organization_id ≡ a.organization_id
  pub kind : b.subject_kind ≡ a.subject_kind
  pub subject : b.subject_id ≡ a.subject_id
  pub field : b.field ≡ a.field
  pub value : b.value ≡ a.value
  pub created : b.created_at ≡ a.created_at

SaysSame-refl : (a : Fact) → SaysSame a a
SaysSame-refl a = ground arith

SaysSame-trans : {a b c : Fact} → SaysSame a b → SaysSame b c → SaysSame a c
SaysSame-trans h k = ground arith

abbrev Keeps : Store → Store → Type 0
Keeps s s' =
    (id : ℕ) (f : Fact)
    → find_row fact_key id s.facts ≡ some f
    → (g : Fact) × (find_row fact_key id s'.facts ≡ some g) × SaysSame f g

Keeps-refl : (s : Store) → Keeps s s
Keeps-refl s id f e = (f, e, SaysSame-refl f)

Keeps-trans : (a b c : Store) → Keeps a b → Keeps b c → Keeps a c
Keeps-trans a b c h k id f e =
    let (g, at, same) = h id f e in
    let (g', at', same') = k id g at in (g', at', SaysSame-trans same same')

set_fact-Keeps :
    (x : ℕ) (g : Fact → Fact) (s : Store)
    → ((f : Fact) → (g f).fact_id ≡ f.fact_id)
    → ((f : Fact) → SaysSame f (g f))
    → Keeps s (set_fact x g s)
unfolding set_fact
set_fact-Keeps x g s key same id f e =
    rw (find_row-update_where fact_key (λ y. y.fact_id == x) g key id s.facts, e)
      (elim (Bool-cases (f.fact_id == x)) [
        | inl m ↦ rw m (g f, refl, same f)
        | inr m ↦ rw m (f, refl, SaysSame-refl f)
      ])

says :
    (a b : Fact)
    → b.organization_id ≡ a.organization_id
    → b.subject_kind ≡ a.subject_kind
    → b.subject_id ≡ a.subject_id
    → b.field ≡ a.field
    → b.value ≡ a.value
    → b.created_at ≡ a.created_at
    → SaysSame a b
says a b o k s f v c = record {
  organization = o;
  kind = k;
  subject = s;
  field = f;
  value = v;
  created = c;
}

marked-Keeps : (x : ℕ) (st : Status) (now : ℕ) (s : Store) → Keeps s (set_fact x (marked st now) s)
marked-Keeps x st now s =
    set_fact-Keeps x (marked st now) s (λ f. refl)
      (λ f. says f (marked st now f) refl refl refl refl refl refl)

add_source-Keeps : (id : ℕ) (o : Origin) (now : ℕ) (s : Store) → Keeps s (add_source id o now s)
unfolding add_source
add_source-Keeps id o now s k f e = (f, e, SaysSame-refl f)

open_conflict_on-Keeps :
    (ctx : Context) (org : Option Text) (t : Topic) (a b now : ℕ) (s : Store)
    → Keeps s (open_conflict_on ctx org t a b now s)
unfolding open_conflict_on
open_conflict_on-Keeps ctx org t a b now s = elim (Bool-cases (is_opposed ctx t a b s)) [
  | inl e ↦ rw e (Keeps-refl s)
  | inr e ↦ rw e both
]
  where
    both : Keeps s (oppose org t a b now s)
    both k f e =
        let one = record s {
          conflicts = (oppose org t a b now s).conflicts;
          next_conflict = (oppose org t a b now s).next_conflict;
        } in
        unfold set_fact in
        Keeps-trans s (set_fact a (marked conflicted now) s)
          (set_fact b (marked conflicted now) (set_fact a (marked conflicted now) s))
          (marked-Keeps a conflicted now s)
          (marked-Keeps b conflicted now (set_fact a (marked conflicted now) s)) k f e

if-Keeps : (b : Bool) (s s' : Store) → Keeps s s' → Keeps s (if b then s' else s)
if-Keeps true s s' h = h
if-Keeps false s s' h = Keeps-refl s

oppose_all-Keeps :
    (ctx : Context) (org : Option Text) (t : Topic) (id now : ℕ) (others : List Fact) (s : Store)
    → Keeps s (oppose_all ctx org t id now others s)
unfolding oppose_all
oppose_all-Keeps ctx org t id now [] s = Keeps-refl s
oppose_all-Keeps ctx org t id now (f ∷ others) s =
    let opened = open_conflict_on ctx org t f.fact_id id now s in
    let next = if is_fresh now f then opened else s in
    Keeps-trans s next (oppose_all ctx org t id now others next)
      (if-Keeps (is_fresh now f) s opened (open_conflict_on-Keeps ctx org t f.fact_id id now s))
      (oppose_all-Keeps ctx org t id now others next)

detect-Keeps :
    (ctx : Context) (org : Option Text) (t : Topic) (id now : ℕ) (s : Store)
    → Keeps s (detect_conflicts ctx org t id now s)
unfolding detect_conflicts
detect-Keeps ctx org t id now s = oppose_all-Keeps ctx org t id now _ s

module _ (hostname : Text → Text) (policy : Text → Option ℕ) (ctx : Context) where
  freshened-Keeps :
      (r : Status × Option ℕ) (o : Observation) (id former now : ℕ) (s : Store)
      → Keeps s (set_fact id (freshened hostname policy ctx r o former now) s)
  freshened-Keeps (st, c) o id former now s =
      set_fact-Keeps id (freshened hostname policy ctx (st, c) o former now) s (λ f. refl)
        (λ f. says f _ refl refl refl refl refl refl)

  settled-Keeps :
      (r : Status × Option ℕ) (id now : ℕ) (s : Store)
      → Keeps s (set_fact id (settled hostname policy ctx r now) s)
  settled-Keeps (st, c) id now s =
      set_fact-Keeps id (settled hostname policy ctx (st, c) now) s (λ f. refl)
        (λ f. says f _ refl refl refl refl refl refl)

  freshen-Keeps :
      (org : Text) (o : Observation) (now : ℕ) (f : Fact) (s : Store)
      → Keeps s (freshen hostname policy ctx org o now f s)
  unfolding freshen
  freshen-Keeps org o now f s =
      let sourced = if has_source o.origin then add_source f.fact_id o.origin now s else s in
      let checked = detect_conflicts ctx (some org) o.topic f.fact_id now sourced in
      Keeps-trans s sourced (freshen hostname policy ctx org o now f s)
        (if-Keeps (has_source o.origin) s (add_source f.fact_id o.origin now s)
          (add_source-Keeps f.fact_id o.origin now s))
        (Keeps-trans sourced checked (freshen hostname policy ctx org o now f s)
          (detect-Keeps ctx (some org) o.topic f.fact_id now sourced)
          (freshened-Keeps (recompute_status hostname f.fact_id checked) o f.fact_id f.confidence
            now checked))

  inserted-Keeps :
      (org value : Text) (o : Observation) (now : ℕ) (s : Store)
      → Keeps s (inserted hostname policy ctx s.next_fact org value o now s)
  inserted-Keeps org value o now s id f e =
      (f, find_row-append_present fact_key id s.facts _ f e, SaysSame-refl f)

  insert-Keeps :
      (org value : Text) (o : Observation) (now : ℕ) (s : Store)
      → Keeps s (insert_fact hostname policy ctx org value o now s)
  unfolding insert_fact
  insert-Keeps org value o now s =
      let id = s.next_fact in
      let one = inserted hostname policy ctx id org value o now s in
      let two = add_source id (origin_of_new o.origin) now one in
      let three = detect_conflicts ctx (some org) o.topic id now two in
      Keeps-trans s one (insert_fact hostname policy ctx org value o now s)
        (inserted-Keeps org value o now s)
        (Keeps-trans one two (insert_fact hostname policy ctx org value o now s)
          (add_source-Keeps id (origin_of_new o.origin) now one)
          (Keeps-trans two three (insert_fact hostname policy ctx org value o now s)
            (detect-Keeps ctx (some org) o.topic id now two)
            (settled-Keeps (recompute_status hostname id three) id now three)))

  recorded-Keeps :
      (org value : Text) (o : Observation) (now : ℕ) (s : Store) (found : Option Fact)
      → Keeps s (recorded hostname policy ctx org value o now s found).1
  recorded-Keeps org value o now s none = insert-Keeps org value o now s
  recorded-Keeps org value o now s (some f) = freshen-Keeps org o now f s

  recorded_in-Keeps :
      (org : Option Text) (value : Text) (o : Observation) (now : ℕ) (s : Store)
      → Keeps s (recorded_in hostname policy ctx org value o now s).1
  recorded_in-Keeps none value o now s = Keeps-refl s
  recorded_in-Keeps (some org) value o now s =
      recorded-Keeps org value o now s
        (select_one (same_value ctx o.topic.kind o.topic.subject o.topic.field value) s.facts)

  recorded_value-Keeps :
      (value : Text) (o : Observation) (now : ℕ) (s : Store)
      → Keeps s (recorded_value hostname policy ctx value o now s).1
  recorded_value-Keeps [] o now s id f e = Keeps-refl s id f e
  recorded_value-Keeps (c ∷ v) o now s id f e =
      elim (Bool-cases (has_source o.origin || o.is_inferred)) [
        | inl q ↦ rw q (recorded_in-Keeps (org_of ctx) (c ∷ v) o now s id f e)
        | inr q ↦ rw q (Keeps-refl s id f e)
      ]

module _ (policy : Text → Option ℕ) (ctx : Context) where
  checked-Keeps :
      (outcome : Outcome) (confidence : Option ℕ) (f : Fact) (now : ℕ) (s : Store)
      → Keeps s (checked_fact policy ctx outcome confidence f now s)
  checked-Keeps confirmed confidence f now s =
      set_fact-Keeps f.fact_id (confirmed_fact policy ctx confidence f now) s (λ x. refl)
        (λ x. says x _ refl refl refl refl refl refl)
  checked-Keeps refuted confidence f now s =
      set_fact-Keeps f.fact_id (refuted_fact policy ctx now) s (λ x. refl)
        (λ x. says x _ refl refl refl refl refl refl)
  checked-Keeps undecided confidence f now s = Keeps-refl s

  found-Keeps :
      (x : ℕ) (outcome : Outcome) (confidence : Option ℕ) (o : Origin) (now : ℕ) (s : Store)
      (found : Option Fact)
      → Keeps s (check_found policy ctx x outcome confidence o now s found).1
  found-Keeps x outcome confidence o now s none id f e = Keeps-refl s id f e
  found-Keeps x outcome confidence o now s (some y) id f e =
      let sent = record o { kind = email_verify; query = none } in
      let sourced = if has_source o then add_source y.fact_id sent now s else s in
      let kept =
        Keeps-trans s sourced (checked_fact policy ctx outcome confidence y now sourced)
          (if-Keeps (has_source o) s (add_source y.fact_id sent now s)
            (add_source-Keeps y.fact_id sent now s))
          (checked-Keeps outcome confidence y now sourced) in
      elim (Bool-cases (is_confirmed outcome && has_open_conflict y.fact_id s)) [
        | inl q ↦ rw q (Keeps-refl s id f e)
        | inr q ↦ rw q (kept id f e)
      ]

settle-Keeps :
    (c : Conflict) (winner : ℕ) (automatic : Bool) (remark by : Option Text) (now : ℕ) (s : Store)
    → Keeps s (settle c winner automatic remark by now s)
unfolding settle
settle-Keeps c winner automatic remark by now s =
    let closed = close c.conflict_id winner automatic remark by now s in
    let blocked = any (opposes_still c.conflict_id winner) closed.conflicts in
    let winning = if blocked then closed else set_fact winner (won now) closed in
    Keeps-trans s winning (settle c winner automatic remark by now s) (pick blocked)
      (marked-Keeps (loser_of winner c) stale now winning)
  where
    pick :
        (b : Bool)
        → Keeps s (
            if b
            then close c.conflict_id winner automatic remark by now s
            else set_fact winner (won now) (close c.conflict_id winner automatic remark by now s))
    pick true id f e = (f, e, SaysSame-refl f)
    pick false id f e =
        set_fact-Keeps winner (won now) (close c.conflict_id winner automatic remark by now s)
          (λ x. refl) (λ x. says x _ refl refl refl refl refl refl) id f e

resolve_found-Keeps :
    (winner : ℕ) (automatic : Bool) (remark by : Option Text) (now : ℕ) (s : Store)
    (found : Option Conflict)
    → Keeps s (resolve_found winner automatic remark by now s found).1
resolve_found-Keeps winner automatic remark by now s none id f e = Keeps-refl s id f e
resolve_found-Keeps winner automatic remark by now s (some c) id f e =
    elim (Bool-cases (winner == c.fact_a || winner == c.fact_b)) [
      | inl q ↦ rw q (settle-Keeps c winner automatic remark by now s id f e)
      | inr q ↦ rw q (Keeps-refl s id f e)
    ]

write_stale-Keeps : (now : ℕ) (fs : List Fact) (s : Store) → Keeps s (write_stale now fs s)
unfolding write_stale
write_stale-Keeps now [] s = Keeps-refl s
write_stale-Keeps now (f ∷ fs) s =
    let written = set_fact f.fact_id (marked stale now) s in
    let next = if has_lapsed now f then written else s in
    Keeps-trans s next (write_stale now fs next)
      (if-Keeps (has_lapsed now f) s written (marked-Keeps f.fact_id stale now s))
      (write_stale-Keeps now fs next)

module _ (hostname : Text → Text) (policy : Text → Option ℕ) where
  apply-Keeps : (c : Call) (s : Store) → Keeps s (apply hostname policy c s)
  unfolding apply record_fact verify_fact resolve_conflict apply_freshness
  apply-Keeps (records ctx o now) s =
      recorded_value-Keeps hostname policy ctx (stored_value o.raw_value) o now s
  apply-Keeps (verifies ctx x outcome confidence o now) s =
      found-Keeps policy ctx x outcome confidence o now s (get_fact ctx x s)
  apply-Keeps (resolves x winner automatic remark by now) s =
      resolve_found-Keeps winner automatic remark by now s (find_row conflict_key x s.conflicts)
  apply-Keeps (reads ctx kind subject now) s = write_stale-Keeps now _ s

  run-Keeps : (cs : List Call) (s : Store) → Keeps s (run hostname policy cs s)
  unfolding run
  run-Keeps [] s = Keeps-refl s
  run-Keeps (c ∷ cs) s =
      Keeps-trans s (apply hostname policy c s) (run hostname policy cs (apply hostname policy c s))
        (apply-Keeps c s) (run-Keeps cs (apply hostname policy c s))

-- Whatever calls follow, a fact row that is in the table stays in it under its id, with the
-- organization, subject, field, value and date of creation it was given.
pub run-SaysSame :
    (hostname : Text → Text) (policy : Text → Option ℕ) (cs : List Call) (s : Store) (id : ℕ)
    (f : Fact)
    → find_row fact_key id s.facts ≡ some f
    → (g : Fact) × (find_row fact_key id (run hostname policy cs s).facts ≡ some g) × SaysSame f g
run-SaysSame hostname policy cs s id f e = run-Keeps hostname policy cs s id f e
