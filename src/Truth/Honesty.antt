-- ===== src/Truth/Honesty.antt =====
-- The invariant of the fact store: a fact with an OPEN conflict says so.
use lead_engine.Prelude.{
  ℕ, ◌<◌, ◌≡◌, refl, ◌⊎◌, inl, inr, Bool, true, false, Option, none, List, [], ◌∷◌, arith, ◌==◌,
  any, All, All-both, Text, Bool-cases, Option-cases,
}
use lead_engine.Sql.{update_where, All-update_where, All-of}
use lead_engine.Sql.Keyed.{find_row}
use lead_engine.Truth.Rows.{
  Status, conflicted, stale, Fact, Conflict, Store, fact_key, is_open, opposes,
}
use lead_engine.Truth.{set_fact, has_open_conflict, recompute_status}

abbrev pub is_doubtful : Status → Bool
is_doubtful conflicted = true
is_doubtful stale = true
is_doubtful _ = false

-- Each row with the id says that it is in doubt.
abbrev pub IsDoubtful : ℕ → List Fact → Type 0
IsDoubtful id facts = All (λ f. (f.fact_id == id) ≡ true → is_doubtful f.status ≡ true) facts

abbrev pub IsAdmitted : List Fact → Conflict → Type 0
IsAdmitted facts c = is_open c ≡ true → IsDoubtful c.fact_a facts × IsDoubtful c.fact_b facts

-- Both facts of each OPEN conflict are CONFLICTED or STALE, and ids are below the counter.
pub record IsSound (s : Store) : Type 0 where
  pub admitted : All (IsAdmitted s.facts) s.conflicts
  pub known : All (λ c. (c.fact_a < s.next_fact) × (c.fact_b < s.next_fact)) s.conflicts
  pub fresh : All (λ f. f.fact_id < s.next_fact) s.facts

module _ (x y : ℕ) (g : Fact → Fact) (same : (f : Fact) → (g f).fact_id ≡ f.fact_id) where
  -- An update of other rows, or one that leaves doubt, leaves the rows with the id in doubt.
  pub update-IsDoubtful :
      (facts : List Fact)
      → ((x == y) ≡ true → (f : Fact) → is_doubtful (g f).status ≡ true)
      → IsDoubtful y facts
      → IsDoubtful y (update_where (λ f. f.fact_id == x) g facts)
  unfolding update_where
  update-IsDoubtful [] leaves h = tt
  update-IsDoubtful (f ∷ facts) leaves h = elim (Bool-cases (f.fact_id == x)) [
    | inl m ↦ rw m (λ q. leaves (ground (arith, same f)) f, update-IsDoubtful facts leaves h.1)
    | inr m ↦ rw m (h.0, update-IsDoubtful facts leaves h.1)
  ]

not_opposed :
    (id : ℕ) (cs : List Conflict) → any (opposes id) cs ≡ false → All (λ c. opposes id c ≡ false) cs
unfolding any
not_opposed id [] h = tt
not_opposed id (c ∷ cs) h = (ground arith, not_opposed id cs (ground arith))

module _ (id : ℕ) (g : Fact → Fact) (same : (f : Fact) → (g f).fact_id ≡ f.fact_id) (s : Store)
    (h : IsSound s) where
  kept_fresh : All (λ f. f.fact_id < s.next_fact) (update_where (λ f. f.fact_id == id) g s.facts)
  kept_fresh =
      All-update_where (λ (f : Fact). f.fact_id < s.next_fact) (λ f. f.fact_id == id) g s.facts
        (λ f m q. omega (arith, same f)) h.fresh

  pub doubting-IsSound : ((f : Fact) → is_doubtful (g f).status ≡ true) → IsSound (set_fact id g s)
  unfolding set_fact
  doubting-IsSound leaves = record {
    admitted =
        All-of s.conflicts
          (λ c q o. (
            update-IsDoubtful id c.fact_a g same s.facts (λ _. leaves) (q o).0,
            update-IsDoubtful id c.fact_b g same s.facts (λ _. leaves) (q o).1,
          ))
          h.admitted;
    known = h.known;
    fresh = kept_fresh;
  }

  -- Without an OPEN conflict, a fact may say anything.
  pub unopposed-IsSound : has_open_conflict id s ≡ false → IsSound (set_fact id g s)
  unfolding set_fact has_open_conflict
  unopposed-IsSound free = record {
    admitted =
        All-both s.conflicts
          (λ c q n o. (
            update-IsDoubtful id c.fact_a g same s.facts (λ m. absurd (clash c n o (inl m)))
                (q o).0,
            update-IsDoubtful id c.fact_b g same s.facts (λ m. absurd (clash c n o (inr m)))
                (q o).1,
          ))
          h.admitted (not_opposed id s.conflicts free);
    known = h.known;
    fresh = kept_fresh;
  }
    where
      clash :
          (c : Conflict)
          → opposes id c ≡ false
          → is_open c ≡ true
          → ((id == c.fact_a) ≡ true) ⊎ ((id == c.fact_b) ≡ true)
          → ⊥
      clash c n o (inl m) = ground (arith)
      clash c n o (inr m) = ground (arith)

absent-update :
    (id : ℕ) (g : Fact → Fact) (facts : List Fact)
    → find_row fact_key id facts ≡ none
    → update_where (λ f. f.fact_id == id) g facts ≡ facts
unfolding find_row update_where
absent-update id g [] h = refl
absent-update id g (f ∷ facts) h = ground (arith, absent-update id g facts)

-- Writing a computed status keeps the store sound.
pub recomputed-IsSound :
    (hostname : Text → Text) (id : ℕ) (g : Status × Option ℕ → Fact → Fact) (s : Store)
    → ((r : Status × Option ℕ) (f : Fact) → (g r f).fact_id ≡ f.fact_id)
    → ((r : Status × Option ℕ) (f : Fact) → (g r f).status ≡ r.0)
    → IsSound s
    → IsSound (set_fact id (g (recompute_status hostname id s)) s)
recomputed-IsSound hostname id g s same says h = elim (Bool-cases (has_open_conflict id s)) [
  | inr free ↦
      unopposed-IsSound id (g (recompute_status hostname id s))
        (same (recompute_status hostname id s)) s h free
  | inl opposed ↦ elim (Option-cases (find_row fact_key id s.facts)) [
    | inl e ↦
        unfold set_fact in rw (absent-update id (g (recompute_status hostname id s)) s.facts e) h
    | inr (f, e) ↦
        doubting-IsSound id (g (recompute_status hostname id s))
          (same (recompute_status hostname id s)) s h
          (λ x.
            rw (says (recompute_status hostname id s) x)
              (unfold recompute_status in rw e (rw opposed refl)))
  ]
]
