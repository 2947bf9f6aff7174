-- ===== src/Jobs/Finality.antt =====
-- What a transition that succeeds has done, and the states that none leaves.
use lead_engine.Prelude.{
  ℕ, ◌≡◌, ◌≢◌, sym, ap, ◌∙◌, inl, inr, Bool, true, false, Option, some, List, ◌∷◌, arith, ◌==◌,
  Text, Bool-cases, Option-cases,
}
use lead_engine.Sql.{count_where}
use lead_engine.Sql.Keyed.{find_row}
use lead_engine.Jobs.Transitions.{
  State, state_eq_sound, allows, completed, failed, cancelled, queued, is_phase, running,
}
use lead_engine.Jobs.{
  Row, key, Event, Db, Error, ok, err, current, at_state, write_transition, transition, Others,
  updated, logged, log_transition,
}
use lead_engine.Jobs.Audit.{Trail, then_to, HasUniqueIds, matched}

abbrev pub is_final : State → Bool
is_final completed = true
is_final failed = true
is_final cancelled = true
is_final _ = false

-- The row, as it was when the UPDATE ran, moved along an edge, and one event tells of it. `db` is
-- what the transition read.
pub record Moved (job_id : ℕ) (to : State) (reason : Option Text) (now : ℕ) (o : Others)
    (db after : Db) : Type 0 where
  pub row : Row
  pub was_stored : find_row key job_id (o.before_update db).jobs ≡ some row
  pub edge : allows row.state to ≡ true
  pub result :
      after
      ≡ logged job_id row.state to reason now
          (o.before_insert (updated job_id row.state to reason now (o.before_update db)))

err-ne-ok {ℓ} : {A : Type ℓ} {x : Error} {a : A} → err x ≡ ok a → ⊥
err-ne-ok h = cc

some_eq {ℓ} : {A : Type ℓ} {a b : A} → some a ≡ some b → a ≡ b
some_eq h = cc

module _ (job_id : ℕ) (to : State) (reason : Option Text) (now : ℕ) (o : Others) (db : Db)
    (unique : HasUniqueIds (o.before_update db)) where
  write_transition-Moved :
      (from s : State)
      → allows from to ≡ true
      → (write_transition job_id from to reason now o (o.before_update db)).0 ≡ ok s
      → Moved job_id to reason now o db
          (write_transition job_id from to reason now o (o.before_update db)).1
  unfolding write_transition log_transition
  write_transition-Moved from s edge h =
      elim (Bool-cases (count_where (at_state job_id from) (o.before_update db).jobs == 0)) [
        | inl e ↦ absurd (err-ne-ok (rw e at h))
        | inr e ↦ elim (Bool-cases o.inserts) [
          | inr f ↦ absurd (err-ne-ok (rw (e, f) at h))
          | inl l ↦
              let (a, at, m) = matched job_id from (o.before_update db) unique e in
              let same : a.state ≡ from = state_eq_sound a.state from (ground arith) in
              rw (e, l)
                (record {
                  row = a;
                  was_stored = at;
                  edge = rw same edge;
                  result = ap (after_log o.before_insert (o.before_update db)) (sym same);
                })
        ]
      ]
    where
      after_log : (Db → Db) → Db → State → Db
      after_log f seen s = logged job_id s to reason now (f (updated job_id s to reason now seen))

  pub transition-Moved :
      (s : State)
      → (transition job_id to reason now o db).0 ≡ ok s
      → Moved job_id to reason now o db (transition job_id to reason now o db).1
  unfolding transition
  transition-Moved s h = elim (Option-cases (current job_id db)) [
    | inl e ↦ absurd (err-ne-ok (rw e at h))
    | inr (from, e) ↦ elim (Bool-cases (allows from to)) [
      | inl edge ↦ rw (e, edge) (write_transition-Moved from s edge (rw (e, edge) at h))
      | inr edge ↦ absurd (err-ne-ok (rw (e, edge) at h))
    ]
  ]

  final_edge : (s : State) → is_final s ≡ true → allows s to ≡ true → ⊥
  unfolding allows
  final_edge s f e = ground arith

  -- COMPLETED, FAILED and CANCELLED are final: a transition whose job is in such a state when its
  -- UPDATE runs raises, also where the job was still live when it was read. Job ids are unique
  -- when the UPDATE runs.
  pub transition_final :
      (r : Row)
      → find_row key job_id (o.before_update db).jobs ≡ some r
      → is_final r.state ≡ true
      → (s : State) → (transition job_id to reason now o db).0 ≢ ok s
  transition_final r found final s h =
      let moved = transition-Moved s h in
      let it : r ≡ moved.row = some_eq (sym found ∙ moved.was_stored) in
      final_edge moved.row.state (rw (← it) final) moved.edge

-- The graph lets a job that is in any research phase be COMPLETED over RUNNING, with no
-- READY_FOR_REVIEW on its way.
pub phase_skips_review :
    (phase : State) (es : List Event) (e e' : Event)
    → is_phase phase ≡ true
    → Trail queued es phase
    → e.from_state ≡ phase
    → e.to_state ≡ running
    → e'.from_state ≡ running
    → e'.to_state ≡ completed
    → Trail queued (e' ∷ e ∷ es) e'.to_state
unfolding allows
phase_skips_review phase es e e' p trail f t f' t' =
    then_to e' (then_to e trail f (ground arith)) (f' ∙ sym t) (ground arith)
