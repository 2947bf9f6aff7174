-- ===== src/Sql.antt =====
-- The SQL statements of the program, on a table as the list of its rows in stored order: the
-- repositories send them to PostgreSQL as text, and each is one atomic step.
pub mod Keyed
pub mod Ordered
use lead_engine.Prelude.{
  ◌≢◌, ℕ, zero, suc, ◌+◌, ◌-◌, ◌≤◌, ◌<◌, ◌≡◌, refl, ap, Bool, true, false, List, [], ◌∷◌, arith,
  ◌==◌, if◌then◌else◌, length, Option, none, some, All, Bool-cases, inl, inr,
}

module _ {ℓ} {Row : Type ℓ} where
  -- UPDATE … SET f WHERE p.
  unfoldable pub update_where : (Row → Bool) → (Row → Row) → List Row → List Row
  update_where p f [] = []
  update_where p f (r ∷ rows) = (if p r then f r else r) ∷ update_where p f rows

  -- The rowcount of a statement, and `SELECT count(*)`.
  unfoldable pub count_where : (Row → Bool) → List Row → ℕ
  count_where p [] = 0
  count_where p (r ∷ rows) = (if p r then 1 else 0) + count_where p rows

  -- SELECT … WHERE p, and what RETURNING gives.
  unfoldable pub select_where : (Row → Bool) → List Row → List Row
  select_where p [] = []
  select_where p (r ∷ rows) = let rest = select_where p rows in if p r then r ∷ rest else rest

  -- DELETE … WHERE p leaves the other rows.
  unfoldable pub delete_where : (Row → Bool) → List Row → List Row
  delete_where p [] = []
  delete_where p (r ∷ rows) = let rest = delete_where p rows in if p r then rest else r ∷ rest

  -- SELECT … WHERE p with fetchone.
  unfoldable pub select_one : (Row → Bool) → List Row → Option Row
  select_one p [] = none
  select_one p (r ∷ rows) = if p r then some r else select_one p rows

  -- UPDATE … WHERE id IN (SELECT … WHERE p LIMIT n): which rows the limit keeps is the
  -- database's choice, here the first n in stored order.
  unfoldable pub update_first : ℕ → (Row → Bool) → (Row → Row) → List Row → List Row
  update_first zero p f rows = rows
  update_first (suc n) p f [] = []
  update_first (suc n) p f (r ∷ rows) =
      let hit = f r ∷ update_first n p f rows in
      let miss = r ∷ update_first (suc n) p f rows in if p r then hit else miss

  -- SELECT … WHERE p LIMIT n.
  unfoldable pub select_first : ℕ → (Row → Bool) → List Row → List Row
  select_first zero p rows = []
  select_first (suc n) p [] = []
  select_first (suc n) p (r ∷ rows) =
      let hit = r ∷ select_first n p rows in
      let miss = select_first (suc n) p rows in if p r then hit else miss

  pub update_where_none :
      (p : Row → Bool) (f : Row → Row) (rows : List Row)
      → count_where p rows ≡ 0
      → update_where p f rows ≡ rows
  unfolding update_where count_where
  update_where_none p f [] h = refl
  update_where_none p f (r ∷ rows) h = ground (arith, update_where_none p f rows)

  pub select_one-none :
      (p : Row → Bool) (rows : List Row) → count_where p rows ≡ 0 → select_one p rows ≡ none
  unfolding select_one count_where
  select_one-none p [] h = refl
  select_one-none p (r ∷ rows) h = ground (arith, select_one-none p rows)

  pub select_one-holds :
      (p : Row → Bool) (rows : List Row) (r : Row) → select_one p rows ≡ some r → p r ≡ true
  unfolding select_one
  select_one-holds p [] r h = cc
  select_one-holds p (s ∷ rows) r h = ground (arith, select_one-holds p rows r)

  pub count_where_pos :
      (p : Row → Bool) (rows : List Row) (r : Row)
      → select_one p rows ≡ some r
      → count_where p rows ≢ 0
  unfolding select_one count_where
  count_where_pos p [] r h = cc
  count_where_pos p (s ∷ rows) r h = ground (arith, count_where_pos p rows r)

  pub All-update_where {κ} :
      (P : Row → Type κ) (p : Row → Bool) (f : Row → Row) (rows : List Row)
      → ((r : Row) → p r ≡ true → P r → P (f r))
      → All P rows
      → All P (update_where p f rows)
  unfolding update_where
  All-update_where P p f [] keep h = h
  All-update_where P p f (r ∷ rows) keep h = elim (Bool-cases (p r)) [
    | inl e ↦ rw e (keep r e h.0, All-update_where P p f rows keep h.1)
    | inr e ↦ rw e (h.0, All-update_where P p f rows keep h.1)
  ]

  pub All-update_first {κ} :
      (P : Row → Type κ) (n : ℕ) (p : Row → Bool) (f : Row → Row) (rows : List Row)
      → ((r : Row) → p r ≡ true → P r → P (f r))
      → All P rows
      → All P (update_first n p f rows)
  unfolding update_first
  All-update_first P zero p f rows keep h = h
  All-update_first P (suc n) p f [] keep h = h
  All-update_first P (suc n) p f (r ∷ rows) keep h = elim (Bool-cases (p r)) [
    | inl e ↦ rw e (keep r e h.0, All-update_first P n p f rows keep h.1)
    | inr e ↦ rw e (h.0, All-update_first P (suc n) p f rows keep h.1)
  ]

  pub length-select_first :
      (n : ℕ) (p : Row → Bool) (rows : List Row) → length (select_first n p rows) ≤ n
  unfolding select_first
  length-select_first zero p rows = omega arith
  length-select_first (suc n) p [] = omega arith
  length-select_first (suc n) p (r ∷ rows) =
      ground (arith, length-select_first n p rows, length-select_first (suc n) p rows)

  -- A limit that was not reached has let every matching row through.
  pub All-update_first_short {κ μ} :
      (Q : Row → Type κ) (P : Row → Type μ) (n : ℕ) (p : Row → Bool) (f : Row → Row)
      (rows : List Row)
      → length (select_first n p rows) < n
      → ((r : Row) → Q r → p r ≡ true → P (f r))
      → ((r : Row) → Q r → p r ≡ false → P r)
      → All Q rows
      → All P (update_first n p f rows)
  unfolding update_first select_first
  All-update_first_short Q P zero p f rows short hit miss h = elim short [ ]
  All-update_first_short Q P (suc n) p f [] short hit miss h = tt
  All-update_first_short Q P (suc n) p f (r ∷ rows) short hit miss h = elim (Bool-cases (p r)) [
    | inl e ↦ rw e (hit r h.0 e, All-update_first_short Q P n p f rows (ground arith) hit miss h.1)
    | inr e ↦
        rw e (miss r h.0 e, All-update_first_short Q P (suc n) p f rows (ground arith) hit miss h.1)
  ]

  pub All-of {κ μ} :
      {Q : Row → Type κ} {P : Row → Type μ} (rows : List Row)
      → ((r : Row) → Q r → P r)
      → All Q rows
      → All P rows
  All-of [] f h = tt
  All-of (r ∷ rows) f h = (f r h.0, All-of rows f h.1)

pub All-select_where {ℓ κ} :
    {Row : Type ℓ} (P : Row → Type κ) (p : Row → Bool) (rows : List Row)
    → All P rows
    → All P (select_where p rows)
unfolding select_where
All-select_where P p [] h = tt
All-select_where P p (r ∷ rows) h = elim (Bool-cases (p r)) [
  | inl e ↦ rw e (h.0, All-select_where P p rows h.1)
  | inr e ↦ rw e (All-select_where P p rows h.1)
]
