-- ===== src/Sql/Keyed.antt =====
-- Tables with a primary key: one row at a time.
use lead_engine.Prelude.{
  ℕ, zero, suc, ◌≡◌, refl, Bool, true, false, List, [], ◌∷◌, ◌++◌, arith, ◌==◌, ◌⊎◌, inl, inr,
  if◌then◌else◌, Option, none, some, Bool-cases,
}
use lead_engine.Sql.{update_where, update_first, count_where}

module _ {ℓ} {Row : Type ℓ} (key : Row → ℕ) where
  unfoldable pub find_row : ℕ → List Row → Option Row
  find_row k [] = none
  find_row k (r ∷ rows) = if key r == k then some r else find_row k rows

  unfoldable pub has_key : ℕ → List Row → Bool
  has_key k [] = false
  has_key k (r ∷ rows) = if key r == k then true else has_key k rows

  -- PRIMARY KEY.
  abbrev pub HasUniqueKeys : List Row → Type 0
  HasUniqueKeys [] = Unit
  HasUniqueKeys (r ∷ rows) = (has_key (key r) rows ≡ false) × HasUniqueKeys rows

abbrev pub update_if {ℓ} : {Row : Type ℓ} → (Row → Bool) → (Row → Row) → Row → Row
update_if p f r = if p r then f r else r

abbrev pub update_found {ℓ} : {Row : Type ℓ} → (Row → Bool) → (Row → Row) → Option Row → Option Row
update_found p f none = none
update_found p f (some r) = some (update_if p f r)

abbrev pub count_found {ℓ} : {Row : Type ℓ} → (Row → Bool) → Option Row → ℕ
count_found p none = 0
count_found p (some r) = if p r then 1 else 0

module _ {ℓ} {Row : Type ℓ} (key : Row → ℕ) where
  pub find_row-key : (k : ℕ) (rows : List Row) (r : Row) → find_row key k rows ≡ some r → key r ≡ k
  unfolding find_row
  find_row-key k [] r e = cc
  find_row-key k (s ∷ rows) r e = ground (arith, find_row-key k rows r)

  pub has_key-find_row :
      (k : ℕ) (rows : List Row) (r : Row) → find_row key k rows ≡ some r → has_key key k rows ≡ true
  unfolding find_row has_key
  has_key-find_row k [] r e = cc
  has_key-find_row k (s ∷ rows) r e = ground (arith, has_key-find_row k rows r)

  pub find_row-append_present :
      (k : ℕ) (rows more : List Row) (r : Row)
      → find_row key k rows ≡ some r
      → find_row key k (rows ++ more) ≡ some r
  unfolding find_row
  find_row-append_present k [] more r e = cc
  find_row-append_present k (s ∷ rows) more r e =
      ground (arith, find_row-append_present k rows more r)

  count_where_absent :
      (k : ℕ) (p : Row → Bool) (rows : List Row)
      → ((r : Row) → p r ≡ true → key r ≡ k)
      → has_key key k rows ≡ false
      → count_where p rows ≡ 0
  unfolding has_key count_where
  count_where_absent k p [] only h = refl
  count_where_absent k p (r ∷ rows) only h =
      ground (arith, only r, count_where_absent k p rows only)

  -- The rowcount of a statement that names one key is read off the row with that key.
  pub count_where-find_row :
      (k : ℕ) (p : Row → Bool) (rows : List Row)
      → ((r : Row) → p r ≡ true → key r ≡ k)
      → HasUniqueKeys key rows
      → count_where p rows ≡ count_found p (find_row key k rows)
  unfolding find_row count_where
  count_where-find_row k p [] only u = refl
  count_where-find_row k p (r ∷ rows) only u = elim (Bool-cases (key r == k)) [
    | inl e ↦
        ground
          (arith, only r, count_where_absent (key r) p rows (λ s q. ground (arith, only s)) u.0)
    | inr e ↦ ground (arith, only r, count_where-find_row k p rows only u.1)
  ]

  module _ (p : Row → Bool) (f : Row → Row) (same : (r : Row) → key (f r) ≡ key r) where
    pub find_row-update_where :
        (k : ℕ) (rows : List Row)
        → find_row key k (update_where p f rows) ≡ update_found p f (find_row key k rows)
    unfolding find_row update_where
    find_row-update_where k [] = refl
    find_row-update_where k (r ∷ rows) = ground (arith, same r, find_row-update_where k rows)

    pub has_key-update_where :
        (k : ℕ) (rows : List Row) → has_key key k (update_where p f rows) ≡ has_key key k rows
    unfolding has_key update_where
    has_key-update_where k [] = refl
    has_key-update_where k (r ∷ rows) = ground (arith, same r, has_key-update_where k rows)

    pub update_where-HasUniqueKeys :
        (rows : List Row) → HasUniqueKeys key rows → HasUniqueKeys key (update_where p f rows)
    unfolding update_where
    update_where-HasUniqueKeys [] u = u
    update_where-HasUniqueKeys (r ∷ rows) u = (
      ground (arith, same r, has_key-update_where (key r) rows),
      update_where-HasUniqueKeys rows u.1,
    )

    -- What a limited update does to one row: nothing, or the change to a row that matches.
    pub find_row-update_first :
        (n k : ℕ) (rows : List Row)
        → (find_row key k (update_first n p f rows) ≡ find_row key k rows)
          ⊎ ((r : Row) × (find_row key k rows ≡ some r)
              × (p r ≡ true)
              × (find_row key k (update_first n p f rows) ≡ some (f r)))
    unfolding find_row update_first
    find_row-update_first zero k rows = inl refl
    find_row-update_first (suc n) k [] = inl refl
    find_row-update_first (suc n) k (r ∷ rows) = elim (Bool-cases (p r)) [
      | inl e ↦ elim (Bool-cases (key r == k)) [
        | inl q ↦ inr (r, ground arith, e, ground (arith, same r))
        | inr q ↦ ground (arith, same r, find_row-update_first n k rows)
      ]
      | inr e ↦ ground (arith, same r, find_row-update_first (suc n) k rows)
    ]

    has_key-update_first :
        (n k : ℕ) (rows : List Row) → has_key key k (update_first n p f rows) ≡ has_key key k rows
    unfolding has_key update_first
    has_key-update_first zero k rows = refl
    has_key-update_first (suc n) k [] = refl
    has_key-update_first (suc n) k (r ∷ rows) =
        ground (arith, same r, has_key-update_first n k rows, has_key-update_first (suc n) k rows)

    pub update_first-HasUniqueKeys :
        (n : ℕ) (rows : List Row)
        → HasUniqueKeys key rows
        → HasUniqueKeys key (update_first n p f rows)
    unfolding update_first
    update_first-HasUniqueKeys zero rows u = u
    update_first-HasUniqueKeys (suc n) [] u = u
    update_first-HasUniqueKeys (suc n) (r ∷ rows) u = elim (Bool-cases (p r)) [
      | inl e ↦ rw e (
        ground (arith, same r, has_key-update_first n (key r) rows),
        update_first-HasUniqueKeys n rows u.1,
      )
      | inr e ↦ rw e (
        ground (arith, has_key-update_first (suc n) (key r) rows),
        update_first-HasUniqueKeys (suc n) rows u.1,
      )
    ]

  has_key-append :
      (k : ℕ) (rows : List Row) (r : Row)
      → has_key key k rows ≡ false
      → (key r == k) ≡ false
      → has_key key k (rows ++ r ∷ []) ≡ false
  unfolding has_key
  has_key-append k [] r h e = ground arith
  has_key-append k (s ∷ rows) r h e = ground (arith, has_key-append k rows r)

  pub append-HasUniqueKeys :
      (rows : List Row) (r : Row)
      → HasUniqueKeys key rows
      → has_key key (key r) rows ≡ false
      → HasUniqueKeys key (rows ++ r ∷ [])
  unfolding has_key
  append-HasUniqueKeys [] r u h = (refl, tt)
  append-HasUniqueKeys (s ∷ rows) r u h = (
    has_key-append (key s) rows r u.0 (ground arith),
    append-HasUniqueKeys rows r u.1 (ground arith),
  )

  pub find_row-append_absent :
      (k : ℕ) (rows : List Row) (r : Row)
      → find_row key k rows ≡ none
      → find_row key k (rows ++ r ∷ []) ≡ (if key r == k then some r else none)
  unfolding find_row
  find_row-append_absent k [] r h = refl
  find_row-append_absent k (s ∷ rows) r h = ground (arith, find_row-append_absent k rows r)

  pub has_key_absent :
      (k : ℕ) (rows : List Row) → find_row key k rows ≡ none → has_key key k rows ≡ false
  unfolding find_row has_key
  has_key_absent k [] h = refl
  has_key_absent k (s ∷ rows) h = ground (arith, has_key_absent k rows)

  pub has_key-append_of :
      (k : ℕ) (rows more : List Row)
      → has_key key k rows ≡ true
      → has_key key k (rows ++ more) ≡ true
  unfolding has_key
  has_key-append_of k [] more h = cc
  has_key-append_of k (s ∷ rows) more h = ground (arith, has_key-append_of k rows more)
