-- ===== src/Jobs/Audit.antt =====
-- The audit trail of the manager: the rows of job_events tell how each job came to its state.
use lead_engine.Prelude.{
  ℕ, ◌≡◌, refl, sym, inl, inr, true, false, Option, none, some, List, [], ◌∷◌, ◌++◌, arith, ◌==◌,
  ==_iff, Text, if◌then◌else◌, Bool-cases, Option-cases, All,
}
use lead_engine.Sql.{update_where, count_where}
use lead_engine.Sql.Keyed.{
  find_row, find_row-key, has_key, HasUniqueKeys, find_row-update_where, update_found,
  count_where-find_row, count_found,
}
use lead_engine.Jobs.Transitions.{State, state_eq_sound, allows, queued}
use lead_engine.Jobs.{Row, key, Event, Db, at_state, moved_row, event, updated, logged}

-- The events lead from `s` to `t`, each from the state that the one before it reached, along edges of
-- TRANSITIONS.
pub data Trail (s : State) : List Event → State → Type 0 where
  none_yet : Trail s [] s
  then_to :
      {es : List Event} {t : State} (e : Event)
      → Trail s es t
      → e.from_state ≡ t
      → allows t e.to_state ≡ true
      → Trail s (e ∷ es) e.to_state

-- The events of one job, the latest first.
abbrev pub history : ℕ → List Event → List Event → List Event
history job_id acc [] = acc
history job_id acc (e ∷ es) = history job_id (if e.job_id == job_id then e ∷ acc else acc) es

history-append :
    (job_id : ℕ) (acc es : List Event) (e : Event)
    → history job_id acc (es ++ e ∷ [])
      ≡ (if e.job_id == job_id then e ∷ history job_id acc es else history job_id acc es)
history-append job_id acc [] e = refl
history-append job_id acc (x ∷ es) e =
    history-append job_id (if x.job_id == job_id then x ∷ acc else acc) es e

-- Each job's events lead from QUEUED to the state that its row has.
abbrev pub IsAudited : Db → Type 0
IsAudited db =
    (job_id : ℕ) (r : Row)
    → find_row key job_id db.jobs ≡ some r
    → Trail queued (history job_id [] db.events) r.state

abbrev pub HasUniqueIds : Db → Type 0
HasUniqueIds db = HasUniqueKeys key db.jobs

-- What holds of the two tables between calls.
pub record IsValid (db : Db) : Type 0 where
  pub audited : IsAudited db
  pub unique : HasUniqueIds db
  pub known : All (λ (e : Event). has_key key e.job_id db.jobs ≡ true) db.events

-- What other connections may commit after a call has read the state.
abbrev pub Keeps : (Db → Db) → Type 0
Keeps f = (db : Db) → IsValid db → IsValid (f db)

pub history_absent :
    (jobs : List Row) (job_id : ℕ) (acc es : List Event)
    → has_key key job_id jobs ≡ false
    → All (λ (e : Event). has_key key e.job_id jobs ≡ true) es
    → history job_id acc es ≡ acc
history_absent jobs job_id acc [] h k = refl
history_absent jobs job_id acc (e ∷ es) h k = elim (Bool-cases (e.job_id == job_id)) [
  | inl same ↦ absurd (clash (rw ((==_iff e.job_id job_id).0 same) at (k.0)))
  | inr other ↦ rw other (history_absent jobs job_id acc es h k.1)
]
  where
    clash : has_key key job_id jobs ≡ true → ⊥
    clash q = cc

module _ (job_id : ℕ) (from to : State) (reason : Option Text) (now : ℕ) where
  -- Both tables after a transition, where nobody else commits between its two statements.
  abbrev pub written : Db → Db
  written db = logged job_id from to reason now (updated job_id from to reason now db)

module _ (job_id : ℕ) (from : State) (db : Db) (unique : HasUniqueIds db) where
  -- The UPDATE matched, so the row is still in the state that was read.
  pub matched :
      (count_where (at_state job_id from) db.jobs == 0) ≡ false
      → (r : Row) × (find_row key job_id db.jobs ≡ some r) × (at_state job_id from r ≡ true)
  matched some_rows = elim (Option-cases (find_row key job_id db.jobs)) [
    | inl e ↦ absurd (none_found e)
    | inr (r, e) ↦ elim (Bool-cases (at_state job_id from r)) [
      | inl m ↦ (r, e, m)
      | inr m ↦ absurd (not_matched r e m)
    ]
  ]
    where
      counted :
          count_where (at_state job_id from) db.jobs
          ≡ count_found (at_state job_id from) (find_row key job_id db.jobs)
      counted =
          count_where-find_row key job_id (at_state job_id from) db.jobs (λ r h. ground arith)
            unique

      none_found : find_row key job_id db.jobs ≡ none → ⊥
      none_found e = ground (arith, counted)

      not_matched :
          (r : Row) → find_row key job_id db.jobs ≡ some r → at_state job_id from r ≡ false → ⊥
      not_matched r e m = ground (arith, counted)

module _ (job_id : ℕ) (from to : State) (reason : Option Text) (now : ℕ) (db : Db)
    (unique : HasUniqueIds db) where
  abbrev moving : Event
  moving = event job_id from to reason now

  pub written-IsAudited :
      allows from to ≡ true
      → (count_where (at_state job_id from) db.jobs == 0) ≡ false
      → IsAudited db
      → IsAudited (written job_id from to reason now db)
  written-IsAudited edge some_rows audited k r found =
      elim (Option-cases (find_row key k db.jobs)) [
        | inl e ↦ absurd (lost e)
        | inr (a, e) ↦ elim (Bool-cases (at_state job_id from a)) [
          | inl m ↦ moved a e m
          | inr m ↦ untouched a e m
        ]
      ]
    where
      after :
          find_row key k (update_where (at_state job_id from) (moved_row to reason now) db.jobs)
          ≡ update_found (at_state job_id from) (moved_row to reason now) (find_row key k db.jobs)
      after =
          find_row-update_where key (at_state job_id from) (moved_row to reason now) (λ _. refl) k
            db.jobs

      lost : find_row key k db.jobs ≡ none → ⊥
      lost e = ground (arith, after)

      moved :
          (a : Row)
          → find_row key k db.jobs ≡ some a
          → at_state job_id from a ≡ true
          → Trail queued (history k [] (db.events ++ moving ∷ [])) r.state
      moved a e m =
          let ids : (job_id == k) ≡ true = ground (arith, find_row-key key k db.jobs a e) in
          let state : r.state ≡ to = ground (arith, after) in
          let from_is : from ≡ a.state = sym (state_eq_sound a.state from (ground arith)) in
          rw (history-append k [] db.events moving, ids, state)
            (then_to moving (audited k a e) from_is (rw (← from_is) edge))

      untouched :
          (a : Row)
          → find_row key k db.jobs ≡ some a
          → at_state job_id from a ≡ false
          → Trail queued (history k [] (db.events ++ moving ∷ [])) r.state
      untouched a e m =
          let (b, at, hit) = matched job_id from db unique some_rows in
          let ids : (job_id == k) ≡ false = ground arith in
          let row : r ≡ a = ground (arith, after) in
          rw (history-append k [] db.events moving, ids, row) (audited k a e)
