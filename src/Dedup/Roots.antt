-- ===== src/Dedup/Roots.antt =====
-- The loop `find` of lead_engine/pipeline/dedup.py against a walk that changes nothing.
use lead_engine.Prelude.{
  ℕ, zero, suc, ◌≤◌, ◌<◌, ◌≡◌, refl, sym, ap, ◌∙◌, inl, inr, false, arith, ◌==◌, ==_iff,
  if◌then◌else◌, Bool-cases,
}
use lead_engine.Dedup.Forest.{halve, find_on, find}

-- No parent is above its child.
abbrev pub IsDown : (ℕ → ℕ) → Type 0
IsDown p = (i : ℕ) → p i ≤ i

unfoldable root_on : ℕ → ℕ → (ℕ → ℕ) → ℕ
root_on zero i p = i
root_on (suc fuel) i p = let next = root_on fuel (p i) p in if p i == i then i else next

-- The root of an index, by parents alone.
unfoldable pub root : ℕ → (ℕ → ℕ) → ℕ
unfolding root_on
root i p = root_on i i p

module _ (p : ℕ → ℕ) (down : IsDown p) where
  root_on-enough : (n m i : ℕ) → i ≤ n → i ≤ m → root_on n i p ≡ root_on m i p
  unfolding root_on
  root_on-enough zero zero i a b = refl
  root_on-enough zero (suc m) i a b = ground (arith, down i)
  root_on-enough (suc n) zero i a b = ground (arith, down i)
  root_on-enough (suc n) (suc m) i a b = elim (Bool-cases (p i == i)) [
    | inl e ↦ rw e refl
    | inr e ↦ rw e (root_on-enough n m (p i) (ground (arith, down i)) (ground (arith, down i)))
  ]

  pub root-fixed : (i : ℕ) → p i ≡ i → root i p ≡ i
  unfolding root root_on
  root-fixed zero e = refl
  root-fixed (suc i) e = ground (arith, e)

  -- A root is the root of its child.
  pub root_step : (i : ℕ) → root (p i) p ≡ root i p
  unfolding root root_on
  root_step zero = let e : p 0 ≡ 0 = omega (arith, down 0) in ap (λ k. root_on k k p) e
  root_step (suc i) = elim (Bool-cases (p (suc i) == suc i)) [
    | inl e ↦ ap (λ k. root_on k k p) ((==_iff (p (suc i)) (suc i)).0 e)
    | inr e ↦
        rw e (root_on-enough (p (suc i)) i (p (suc i)) (omega arith) (ground (arith, down (suc i))))
  ]

  -- Induction from a root down.
  pub climb {κ} :
      (P : ℕ → Type κ)
      → ((i : ℕ) → p i ≡ i → P i)
      → ((i : ℕ) → p i < i → P (p i) → P i)
      → (i : ℕ) → P i
  climb P at_root above i = go i i (omega arith)
    where
      go : (n i : ℕ) → i ≤ n → P i
      go zero i le = at_root i (omega (arith, le, down i))
      go (suc n) i le = elim (Bool-cases (p i == i)) [
        | inl e ↦ at_root i ((==_iff (p i) i).0 e)
        | inr e ↦ above i (ground (arith, e, down i)) (go n (p i) (ground (arith, e, down i, le)))
      ]

  pub root-IsRoot : (i : ℕ) → p (root i p) ≡ root i p
  root-IsRoot =
      climb (λ i. p (root i p) ≡ root i p) (λ i e. rw (root-fixed i e) e)
        (λ i lt h. ap p (sym (root_step i)) ∙ h ∙ root_step i)

  halve-IsDown : (i : ℕ) → IsDown (halve i p)
  halve-IsDown i j = elim (Bool-cases (j == i)) [
    | inl e ↦ rw e (omega (arith, down i, down (p i), (==_iff j i).0 e))
    | inr e ↦ rw e (down j)
  ]

module _ (p : ℕ → ℕ) (down : IsDown p) (i : ℕ) where
  abbrev halved : ℕ → ℕ
  halved = halve i p

  root-halve : (j : ℕ) → root j halved ≡ root j p
  root-halve = climb halved (halve-IsDown p down i) (λ j. root j halved ≡ root j p) at_root above
    where
      at_root : (j : ℕ) → halved j ≡ j → root j halved ≡ root j p
      at_root j e = elim (Bool-cases (j == i)) [
        | inl m ↦
            let q : p (p i) ≡ j = rw m at e in
            root-fixed halved (halve-IsDown p down i) j e
            ∙ sym (
                root-fixed p down j
                  (rw ((==_iff j i).0 m) (omega (arith, q, (==_iff j i).0 m, down i, down (p i)))))
        | inr m ↦
            root-fixed halved (halve-IsDown p down i) j e ∙ sym (root-fixed p down j (rw m at e))
      ]

      next : (j : ℕ) → root (halved j) p ≡ root j p
      next j = elim (Bool-cases (j == i)) [
        | inl m ↦ rw m (
            root_step p down (p i)
            ∙ root_step p down i
            ∙ ap (λ k. root k p) (sym ((==_iff j i).0 m)))
        | inr m ↦ rw m (root_step p down j)
      ]

      above :
          (j : ℕ)
          → halved j < j
          → root (halved j) halved ≡ root (halved j) p
          → root j halved ≡ root j p
      above j lt h = sym (root_step halved (halve-IsDown p down i) j) ∙ h ∙ next j

-- What `find` leaves of the forest.
pub record IsSameForest (p q : ℕ → ℕ) : Type 0 where
  pub is_down : IsDown q
  pub same_root : (j : ℕ) → root j q ≡ root j p

find_on-root :
    (fuel i : ℕ) (p : ℕ → ℕ)
    → IsDown p
    → i ≤ fuel
    → ((find_on fuel i p).0 ≡ root i p) × IsSameForest p (find_on fuel i p).1
unfolding find_on
find_on-root zero i p down le = (
  sym (root-fixed p down i (omega (arith, le, down i))),
  record { is_down = down; same_root = λ j. refl },
)
find_on-root (suc fuel) i p down le = elim (Bool-cases (p i == i)) [
  | inl e ↦ rw e (
    sym (root-fixed p down i ((==_iff (p i) i).0 e)),
    record { is_down = down; same_root = λ j. refl },
  )
  | inr e ↦
      let (at, same) =
        find_on-root fuel (halve i p i) (halve i p) (halve-IsDown p down i) (small e) in
      rw e (
        at ∙ root_step (halve i p) (halve-IsDown p down i) i ∙ root-halve p down i i,
        record {
          is_down = same.is_down;
          same_root = λ j. same.same_root j ∙ root-halve p down i j;
        },
      )
]
  where
    small : (p i == i) ≡ false → halve i p i ≤ fuel
    small e = elim (Bool-cases (i == i)) [
      | inl m ↦ rw m (ground (arith, e, le, down i, down (p i)))
      | inr m ↦ ground arith
    ]

-- `find` returns the root of its index in the forest as it was, and the halving of paths on the way
-- changes the root of no index and puts no parent above its child.
pub find-root :
    (i : ℕ) (p : ℕ → ℕ) → IsDown p → ((find i p).0 ≡ root i p) × IsSameForest p (find i p).1
unfolding find
find-root i p down = find_on-root i i p down (omega arith)

-- The loop of `find` ends: with the index as fuel, and with any more, it stops at an index that is its
-- own parent in the forest that it leaves.
pub find_on-ends :
    (fuel i : ℕ) (p : ℕ → ℕ)
    → IsDown p
    → i ≤ fuel
    → (find_on fuel i p).1 (find_on fuel i p).0 ≡ (find_on fuel i p).0
find_on-ends fuel i p down le =
    let (at, same) = find_on-root fuel i p down le in
    let q = (find_on fuel i p).1 in
    let here = at ∙ sym (same.same_root i) in ap q here ∙ root-IsRoot q same.is_down i ∙ sym here
