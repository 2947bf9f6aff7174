-- ===== src/Truth/Keeping.antt =====
-- record_fact keeps the fact store sound.
use lead_engine.Prelude.{
  ℕ, ◌<◌, ◌≡◌, refl, inl, inr, Bool, Option, some, List, [], ◌∷◌, arith, ◌==◌, ==_iff, All,
  All-both, All-append, Text, Bool-cases,
}
use lead_engine.Sql.{update_where, select_one, All-update_where, All-of, All-select_where}
use lead_engine.Truth.Rows.{conflicted, Fact, Store, Context, is_fresh, is_rival}
use lead_engine.Truth.{
  Topic, Origin, marked, set_fact, add_source, new_conflict, oppose, is_opposed, open_conflict_on,
  oppose_all, detect_conflicts,
}
use lead_engine.Truth.Recording.{
  Observation, origin_of_new, has_source, inserted, insert_fact, freshened, freshen, settled,
}
use lead_engine.Truth.Honesty.{
  IsDoubtful, IsAdmitted, IsSound, recomputed-IsSound, update-IsDoubtful,
}

pub add_source-IsSound :
    (id : ℕ) (o : Origin) (now : ℕ) (s : Store) → IsSound s → IsSound (add_source id o now s)
unfolding add_source
add_source-IsSound id o now s h = record { admitted = h.admitted; known = h.known; fresh = h.fresh }

-- After a row is marked it is in doubt.
marked-IsDoubtful :
    (id now : ℕ) (facts : List Fact)
    → IsDoubtful id (update_where (λ f. f.fact_id == id) (marked conflicted now) facts)
unfolding update_where
marked-IsDoubtful id now [] = tt
marked-IsDoubtful id now (f ∷ facts) = elim (Bool-cases (f.fact_id == id)) [
  | inl m ↦ rw m (λ q. refl, marked-IsDoubtful id now facts)
  | inr m ↦ rw m (λ q. absurd (cc), marked-IsDoubtful id now facts)
]

module _ (org : Option Text) (t : Topic) (a b now : ℕ) (s : Store) (h : IsSound s)
    (a_known : a < s.next_fact) (b_known : b < s.next_fact) where
  abbrev mark_both : List Fact → List Fact
  mark_both facts =
      update_where (λ f. f.fact_id == b) (marked conflicted now)
        (update_where (λ f. f.fact_id == a) (marked conflicted now) facts)

  both-IsDoubtful : (y : ℕ) → IsDoubtful y s.facts → IsDoubtful y (mark_both s.facts)
  both-IsDoubtful y d =
      update-IsDoubtful b y (marked conflicted now) (λ f. refl) _ (λ _ f. refl)
        (update-IsDoubtful a y (marked conflicted now) (λ f. refl) s.facts (λ _ f. refl) d)

  oppose-IsSound : IsSound (oppose org t a b now s)
  unfolding set_fact
  oppose-IsSound = record {
    admitted =
        All-append (IsAdmitted (mark_both s.facts)) s.conflicts
          (new_conflict s.next_conflict org t a b ∷ [])
          (All-of s.conflicts
            (λ c q o. (both-IsDoubtful c.fact_a (q o).0, both-IsDoubtful c.fact_b (q o).1))
            h.admitted)
          (
            λ o. (
              update-IsDoubtful b a (marked conflicted now) (λ f. refl) _ (λ _ f. refl)
                  (marked-IsDoubtful a now s.facts),
              marked-IsDoubtful b now _,
            ),
            tt,
          );
    known = All-append _ s.conflicts _ h.known ((a_known, b_known), tt);
    fresh =
        All-update_where (λ (f : Fact). f.fact_id < s.next_fact) (λ f. f.fact_id == b)
          (marked conflicted now) _ (λ f m q. q)
          (All-update_where (λ (f : Fact). f.fact_id < s.next_fact) (λ f. f.fact_id == a)
            (marked conflicted now) s.facts (λ f m q. q) h.fresh);
  }

open_conflict_on-IsSound :
    (ctx : Context) (org : Option Text) (t : Topic) (a b now : ℕ) (s : Store)
    → IsSound s
    → a < s.next_fact
    → b < s.next_fact
    → IsSound (open_conflict_on ctx org t a b now s)
      × ((open_conflict_on ctx org t a b now s).next_fact ≡ s.next_fact)
unfolding open_conflict_on set_fact
open_conflict_on-IsSound ctx org t a b now s h ka kb = elim (Bool-cases (is_opposed ctx t a b s)) [
  | inl e ↦ rw e (h, refl)
  | inr e ↦ rw e (unfold set_fact in oppose-IsSound org t a b now s h ka kb, refl)
]

oppose_all-IsSound :
    (ctx : Context) (org : Option Text) (t : Topic) (id now : ℕ) (others : List Fact) (s : Store)
    → IsSound s
    → id < s.next_fact
    → All (λ (f : Fact). f.fact_id < s.next_fact) others
    → IsSound (oppose_all ctx org t id now others s)
unfolding oppose_all
oppose_all-IsSound ctx org t id now [] s h known all_known = h
oppose_all-IsSound ctx org t id now (f ∷ others) s h known all_known =
    elim (Bool-cases (is_fresh now f)) [
      | inl e ↦
          let (h', n) = open_conflict_on-IsSound ctx org t f.fact_id id now s h all_known.0 known in
          rw e (
            oppose_all-IsSound ctx org t id now others
              (open_conflict_on ctx org t f.fact_id id now s) h' (rw n known)
              (All-of others (λ x q. rw n q) all_known.1))
      | inr e ↦ rw e (oppose_all-IsSound ctx org t id now others s h known all_known.1)
    ]

pub detect-IsSound :
    (ctx : Context) (org : Option Text) (t : Topic) (id now : ℕ) (s : Store)
    → IsSound s
    → id < s.next_fact
    → IsSound (detect_conflicts ctx org t id now s)
unfolding detect_conflicts
detect-IsSound ctx org t id now s h known = oppose_all-IsSound ctx org t id now _ s h known (
    All-select_where (λ f. f.fact_id < s.next_fact) (is_rival ctx t.kind t.subject t.field id)
      s.facts h.fresh)

-- A new row, under an id that no conflict names yet.
module _ (hostname : Text → Text) (policy : Text → Option ℕ) (ctx : Context) where
  inserted-IsSound :
      (org value : Text) (o : Observation) (now : ℕ) (s : Store)
      → IsSound s
      → IsSound (inserted hostname policy ctx s.next_fact org value o now s)
  inserted-IsSound org value o now s h = record {
    admitted =
        All-both s.conflicts
          (λ c q k o'. (
            All-append _ s.facts _ (q o').0
                ((λ m. absurd (omega (arith, k.0, (==_iff s.next_fact c.fact_a).0 m))), tt),
            All-append _ s.facts _ (q o').1
                ((λ m. absurd (omega (arith, k.1, (==_iff s.next_fact c.fact_b).0 m))), tt),
          ))
          h.admitted h.known;
    known = All-of s.conflicts (λ c k. (omega (arith, k.0), omega (arith, k.1))) h.known;
    fresh =
        All-append _ s.facts _ (All-of s.facts (λ f q. omega (arith, q)) h.fresh) (omega arith, tt);
  }

  pub insert-IsSound :
      (org value : Text) (o : Observation) (now : ℕ) (s : Store)
      → IsSound s
      → IsSound (insert_fact hostname policy ctx org value o now s)
  unfolding insert_fact
  insert-IsSound org value o now s h =
      let id = s.next_fact in
      let one = inserted hostname policy ctx id org value o now s in
      let two = add_source id (origin_of_new o.origin) now one in
      let three = detect_conflicts ctx (some org) o.topic id now two in
      recomputed-IsSound hostname id (λ r. settled hostname policy ctx r now) three (λ r f. refl)
        (λ r f. refl)
        (detect-IsSound ctx (some org) o.topic id now two
          (add_source-IsSound id (origin_of_new o.origin) now one
            (inserted-IsSound org value o now s h))
          (unfold add_source in omega arith))

  pub known_found :
      (p : Fact → Bool) (n : ℕ) (facts : List Fact) (f : Fact)
      → All (λ (x : Fact). x.fact_id < n) facts
      → select_one p facts ≡ some f
      → f.fact_id < n
  unfolding select_one
  known_found p n [] f h e = absurd (cc)
  known_found p n (x ∷ facts) f h e = ground (arith, h.0, known_found p n facts f h.1)

  pub freshen-IsSound :
      (org : Text) (o : Observation) (now : ℕ) (f : Fact) (s : Store)
      → IsSound s
      → f.fact_id < s.next_fact
      → IsSound (freshen hostname policy ctx org o now f s)
  unfolding freshen
  freshen-IsSound org o now f s h known = elim (Bool-cases (has_source o.origin)) [
    | inl e ↦ rw e (
        recomputed-IsSound hostname f.fact_id
          (λ r. freshened hostname policy ctx r o f.confidence now) _ (λ r x. refl) (λ r x. refl)
          (detect-IsSound ctx (some org) o.topic f.fact_id now _
            (add_source-IsSound f.fact_id o.origin now s h) (unfold add_source in known)))
    | inr e ↦ rw e (
        recomputed-IsSound hostname f.fact_id
          (λ r. freshened hostname policy ctx r o f.confidence now) _ (λ r x. refl) (λ r x. refl)
          (detect-IsSound ctx (some org) o.topic f.fact_id now s h known))
  ]
