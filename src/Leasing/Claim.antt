-- ===== src/Leasing/Claim.antt =====
-- claim_next: which job is claimed, and what the claim leaves in its row.
use mathlib.Core.Path.{subst}
use lead_engine.Prelude.{
  ◌↔◌, ℕ, ◌≡◌, refl, sym, ◌∙◌, inl, inr, true, false, none, some, List, arith, ◌==◌, Text,
  Option-cases, All, ==_iff,
}
use lead_engine.Sql.{update_where}
use lead_engine.Sql.Keyed.{find_row, find_row-update_where}
use lead_engine.Sql.Ordered.{
  first_by, first_by-holds, first_by_of_none, first_by-none, first_by-IsFirst, IsFirst,
  find_row-first_by,
}
use lead_engine.Job.{Job, key}
use lead_engine.Leasing.Rows.{before, claimable, claim_row}
use lead_engine.Leasing.{claim_next}
use lead_engine.Leasing.Histories.{HasUniqueIds}

none-ne-some {ℓ} : {A : Type ℓ} {a : A} → ¬ (none ≡ some a)
none-ne-some h = cc

pub some_eq {ℓ} : {A : Type ℓ} {a b : A} → some a ≡ some b → a ≡ b
some_eq h = cc

before_irrefl : (a : Job) → before a a ≡ false
before_irrefl a = ground arith

before_asymm : (a b : Job) → before a b ≡ true → before b a ≡ false
before_asymm a b h = ground arith

before_trans : (a b c : Job) → before a b ≡ false → before b c ≡ false → before a c ≡ false
before_trans a b c h k = ground arith

-- What a claim that returns `k` did: it took a claimable job that no claimable one stands before,
-- and wrote `k` over it.
pub record Claimed (queues : List Text) (worker : Text) (secs token now : ℕ) (jobs : List Job)
    (k : Job) (after : List Job) : Type 0 where
  pub job : Job
  pub was_stored : find_row key k.id jobs ≡ some job
  pub was_claimable : claimable queues job ≡ true
  pub was_first : IsFirst before (claimable queues) job jobs
  pub row : k ≡ claim_row worker secs token now job
  pub is_stored : find_row key k.id after ≡ some k

module _ (queues : List Text) (worker : Text) (secs token now : ℕ) (jobs : List Job) where
  found-Claimed :
      HasUniqueIds jobs
      → (j : Job) → first_by before (claimable queues) jobs ≡ some j
      → Claimed queues worker secs token now jobs
          (claim_row worker secs token now j)
          (update_where (λ r. r.id == j.id) (claim_row worker secs token now) jobs)
  found-Claimed unique j e =
      let at = find_row-first_by key before (claimable queues) jobs j unique e in
      record {
        job = j;
        was_stored = at;
        was_claimable = first_by-holds before (claimable queues) jobs j e;
        was_first =
            first_by-IsFirst before (claimable queues) before_irrefl before_asymm before_trans jobs
              j e;
        row = refl;
        is_stored =
            find_row-update_where key (λ r. r.id == j.id) (claim_row worker secs token now)
              (λ r. refl) j.id jobs
            ∙ rw at (rw ((==_iff j.id j.id).1 refl));
      }

  pub claim_next-Claimed :
      (k : Job)
      → HasUniqueIds jobs
      → (claim_next queues worker secs token now jobs).0 ≡ some k
      → Claimed queues worker secs token now jobs k (claim_next queues worker secs token now jobs).1
  unfolding claim_next
  claim_next-Claimed k unique h = elim (Option-cases (first_by before (claimable queues) jobs)) [
    | inl e ↦ absurd (none-ne-some (rw e at h))
    | inr (j, e) ↦
        let it : claim_row worker secs token now j ≡ k = some_eq (rw e at h) in
        rw e (
          subst
            (λ x.
              Claimed queues worker secs token now jobs x
                (update_where (λ r. r.id == j.id) (claim_row worker secs token now) jobs))
            it (found-Claimed unique j e))
  ]

  -- A claim returns nothing exactly when no job is claimable.
  pub claim_next-none :
      ((claim_next queues worker secs token now jobs).0 ≡ none)
      ↔ All (λ j. claimable queues j ≡ false) jobs
  unfolding claim_next
  claim_next-none = (
    λ h. elim (Option-cases (first_by before (claimable queues) jobs)) [
      | inl e ↦ first_by-none before (claimable queues) jobs e
      | inr (j, e) ↦ absurd (none-ne-some (sym (rw e at h)))
    ],
    λ h. rw (first_by_of_none before (claimable queues) jobs h),
  )
