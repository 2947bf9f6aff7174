-- ===== src/Sql/Ordered.antt =====
-- ORDER BY … LIMIT 1.
use mathlib.Core.Path.{subst}
use lead_engine.Sql.Keyed.{find_row, has_key, HasUniqueKeys}
use lead_engine.Prelude.{
  ℕ, ◌≡◌, refl, Bool, true, false, List, [], ◌∷◌, arith, if◌then◌else◌, Option, none, some, All,
  Bool-cases, Option-cases, inl, inr,
}

module _ {ℓ} {Row : Type ℓ} (before : Row → Row → Bool) (p : Row → Bool) where
  abbrev earlier : Row → Option Row → Option Row
  earlier r none = some r
  earlier r (some s) = if before s r then some s else some r

  -- Among rows that the order does not tell apart the database chooses; here the first one stored.
  unfoldable pub first_by : List Row → Option Row
  first_by [] = none
  first_by (r ∷ rows) = let rest = first_by rows in if p r then earlier r rest else rest

  pub first_by-holds : (rows : List Row) (r : Row) → first_by rows ≡ some r → p r ≡ true
  unfolding first_by
  first_by-holds [] r e = cc
  first_by-holds (s ∷ rows) r e = ground (arith, first_by-holds rows r)

  pub first_by-none : (rows : List Row) → first_by rows ≡ none → All (λ r. p r ≡ false) rows
  unfolding first_by
  first_by-none [] e = tt
  first_by-none (s ∷ rows) e = (ground arith, first_by-none rows (ground arith))

  pub first_by_of_none : (rows : List Row) → All (λ r. p r ≡ false) rows → first_by rows ≡ none
  unfolding first_by
  first_by_of_none [] h = refl
  first_by_of_none (s ∷ rows) h = rw (h.0, first_by_of_none rows h.1)

  -- No row that matches stands before `r`.
  abbrev pub IsFirst : Row → List Row → Type 0
  IsFirst r rows = All (λ s. p s ≡ true → before s r ≡ false) rows

  module _ (irrefl : (a : Row) → before a a ≡ false)
      (asymm : (a b : Row) → before a b ≡ true → before b a ≡ false)
      (negative_trans : (a b c : Row)
        → before a b ≡ false
        → before b c ≡ false
        → before a c ≡ false) where
    IsFirst-absent : (r : Row) (rows : List Row) → All (λ s. p s ≡ false) rows → IsFirst r rows
    IsFirst-absent r [] h = tt
    IsFirst-absent r (s ∷ rows) h = (λ q. cc (h.0), IsFirst-absent r rows h.1)

    IsFirst-trans :
        (r t : Row) (rows : List Row) → before t r ≡ false → IsFirst t rows → IsFirst r rows
    IsFirst-trans r t [] e h = tt
    IsFirst-trans r t (s ∷ rows) e h =
        (λ q. negative_trans s t r (h.0 q) e, IsFirst-trans r t rows e h.1)

    pub first_by-IsFirst : (rows : List Row) (r : Row) → first_by rows ≡ some r → IsFirst r rows
    unfolding first_by
    first_by-IsFirst [] r e = tt
    first_by-IsFirst (s ∷ rows) r e = elim (Bool-cases (p s)) [
      | inr q ↦ (λ h. cc, first_by-IsFirst rows r (rw q at e))
      | inl q ↦ elim (Option-cases (first_by rows)) [
        | inl absent ↦
            let same : s ≡ r = ground arith in
            (λ _. rw (← same) (irrefl s), IsFirst-absent r rows (first_by-none rows absent))
        | inr (t, found) ↦ elim (Bool-cases (before t s)) [
          | inl b ↦
              let same : t ≡ r = ground arith in
              (
                λ _. rw (← same) (asymm t s b),
                subst (λ x. IsFirst x rows) same (first_by-IsFirst rows t found),
              )
          | inr b ↦
              let same : s ≡ r = ground arith in
              (
                λ _. rw (← same) (irrefl s),
                IsFirst-trans r t rows (rw (← same) b) (first_by-IsFirst rows t found),
              )
        ]
      ]
    ]

module _ {ℓ} {Row : Type ℓ} (key : Row → ℕ) (before : Row → Row → Bool) (p : Row → Bool) where
  pub first_by-has_key :
      (rows : List Row) (r : Row)
      → first_by before p rows ≡ some r
      → has_key key (key r) rows ≡ true
  unfolding first_by has_key
  first_by-has_key [] r e = cc
  first_by-has_key (s ∷ rows) r e = ground (arith, first_by-has_key rows r)

  -- With unique keys, the row chosen is the one found by its key.
  pub find_row-first_by :
      (rows : List Row) (r : Row)
      → HasUniqueKeys key rows
      → first_by before p rows ≡ some r
      → find_row key (key r) rows ≡ some r
  unfolding first_by find_row
  find_row-first_by [] r u e = cc
  find_row-first_by (s ∷ rows) r u e =
      ground (arith, first_by-has_key rows r, find_row-first_by rows r u.1)
