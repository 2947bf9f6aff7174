-- ===== src/Gateway/Booking.antt =====
-- Sums over the ledger: reserving an effect books nothing, completing one books its cost once.
use lead_engine.Prelude.{
  ℕ, ◌+◌, ◌≤◌, ◌<◌, ◌≡◌, refl, ◌∙◌, inl, inr, Bool, true, false, Option, some, List, [], ◌∷◌, ◌++◌,
  arith, ◌==◌, ==_iff, Text, Bool-cases, Option-cases, All, All-append, if◌then◌else◌, text_eq,
}
use lead_engine.Sql.{update_where, select_one, All-update_where, All-of}
use lead_engine.Sql.Keyed.{HasUniqueKeys, has_key, update_where-HasUniqueKeys, append-HasUniqueKeys}
use lead_engine.Gateway.Ledger.{
  Effect, Effects, FailureClass, key, is_succeeded, is_failed, reopened, new_effect, reserve,
  complete, completed, is_booked_to, booked,
}

-- What holds of the ledger between calls: ids are unique and below the counter, and an effect that
-- has not succeeded has cost nothing.
pub record IsValid (l : Effects) : Type 0 where
  pub unique : HasUniqueKeys key l.rows
  pub fresh : All (λ (e : Effect). e.id < l.next_id) l.rows
  pub unpaid : All (λ (e : Effect). is_succeeded e.status ≡ false → e.cost_cents ≡ 0) l.rows

booked-append :
    (o j : ℕ) (rows : List Effect) (e : Effect)
    → booked o j (rows ++ e ∷ [])
      ≡ booked o j rows + (if is_booked_to o j e then e.cost_cents else 0)
unfolding booked
booked-append o j [] e = omega arith
booked-append o j (x ∷ rows) e = omega (arith, booked-append o j rows e)

-- An update that changes no cost and no owner changes no sum.
booked-reopened :
    (o j id : ℕ) (rows : List Effect)
    → booked o j (update_where (λ e. e.id == id) reopened rows) ≡ booked o j rows
unfolding booked update_where
booked-reopened o j id [] = refl
booked-reopened o j id (e ∷ rows) = ground (arith, booked-reopened o j id rows)

-- The row with the id has cost nothing so far.
abbrev pub IsUnpaidAt : ℕ → List Effect → Type 0
IsUnpaidAt id rows = All (λ (e : Effect). (e.id == id) ≡ true → e.cost_cents ≡ 0) rows

booked-absent :
    (o j id : ℕ) (f : Effect → Effect) (rows : List Effect)
    → has_key key id rows ≡ false
    → booked o j (update_where (λ e. e.id == id) f rows) ≡ booked o j rows
unfolding booked update_where has_key
booked-absent o j id f [] h = refl
booked-absent o j id f (e ∷ rows) h = ground (arith, booked-absent o j id f rows)

-- Completing an effect that had cost nothing adds at most what is booked for it.
booked-completed :
    (o j id : ℕ) (ok : Bool) (cost : ℕ) (failure : Option FailureClass) (rows : List Effect)
    → HasUniqueKeys key rows
    → IsUnpaidAt id rows
    → booked o j (update_where (λ e. e.id == id) (completed ok cost failure) rows)
      ≤ booked o j rows + cost
unfolding booked update_where
booked-completed o j id ok cost failure [] u z = omega arith
booked-completed o j id ok cost failure (e ∷ rows) u z = elim (Bool-cases (e.id == id)) [
  | inl same ↦ ground (
    arith,
    booked-absent o j id (completed ok cost failure) rows (rw (← (==_iff e.id id).0 same) (u.0)),
    z.0 same,
  )
  | inr other ↦ ground (arith, booked-completed o j id ok cost failure rows u.1 z.1)
]

absent-IsUnpaidAt : (id : ℕ) (rows : List Effect) → has_key key id rows ≡ false → IsUnpaidAt id rows
unfolding has_key
absent-IsUnpaidAt id [] h = tt
absent-IsUnpaidAt id (e ∷ rows) h = (λ q. ground arith, absent-IsUnpaidAt id rows (ground arith))

has_key-select_one :
    (p : Effect → Bool) (rows : List Effect) (e : Effect)
    → select_one p rows ≡ some e
    → has_key key e.id rows ≡ true
unfolding has_key select_one
has_key-select_one p [] e h = cc
has_key-select_one p (x ∷ rows) e h = ground (arith, has_key-select_one p rows e)

-- Ids are unique, so a row found that has not succeeded makes its id an unpaid one.
found-IsUnpaidAt :
    (p : Effect → Bool) (rows : List Effect) (e : Effect)
    → HasUniqueKeys key rows
    → All (λ (x : Effect). is_succeeded x.status ≡ false → x.cost_cents ≡ 0) rows
    → select_one p rows ≡ some e
    → is_succeeded e.status ≡ false
    → IsUnpaidAt e.id rows
unfolding select_one
found-IsUnpaidAt p [] e u z h q = tt
found-IsUnpaidAt p (x ∷ rows) e u z h q = elim (Bool-cases (p x)) [
  | inl hit ↦
      let it : x ≡ e = ground arith in
      (λ _. z.0 (rw it q), absent-IsUnpaidAt e.id rows (rw (← it) (u.0)))
  | inr miss ↦
      let rest : select_one p rows ≡ some e = ground arith in
      (
        λ same.
            absurd
              (clash (rw ((==_iff x.id e.id).0 same) at (u.0)) (has_key-select_one p rows e rest)),
        found-IsUnpaidAt p rows e u.1 z.1 rest q,
      )
]
  where
    clash : has_key key e.id rows ≡ false → has_key key e.id rows ≡ true → ⊥
    clash a b = cc

fresh-has_key :
    (n : ℕ) (rows : List Effect) → All (λ (e : Effect). e.id < n) rows → has_key key n rows ≡ false
unfolding has_key
fresh-has_key n [] h = refl
fresh-has_key n (e ∷ rows) h = ground (arith, fresh-has_key n rows h.1)

-- No effect that has not succeeded has cost anything.
abbrev pub AreUnpaid : List Effect → Type 0
AreUnpaid rows = All (λ (x : Effect). is_succeeded x.status ≡ false → x.cost_cents ≡ 0) rows

reopened-AreUnpaid :
    (id : ℕ) (rows : List Effect)
    → IsUnpaidAt id rows
    → AreUnpaid rows
    → AreUnpaid (update_where (λ x. x.id == id) reopened rows)
unfolding update_where
reopened-AreUnpaid id [] a b = tt
reopened-AreUnpaid id (e ∷ rows) a b = elim (Bool-cases (e.id == id)) [
  | inl m ↦ rw m (λ _. a.0 m, reopened-AreUnpaid id rows a.1 b.1)
  | inr m ↦ rw m (b.0, reopened-AreUnpaid id rows a.1 b.1)
]

-- A reservation keeps the ledger valid, books nothing, and hands out an id that is unpaid unless its
-- effect has succeeded already.
pub record Reserves (o j : ℕ) (l : Effects) (out : ℕ × Bool × Effects) : Type 0 where
  pub valid : IsValid out.2
  pub same_sum : booked o j out.2.rows ≡ booked o j l.rows
  pub unpaid : out.1 ≡ false → IsUnpaidAt out.0 out.2.rows

module _ (o j org_id : ℕ) (job_id : Option ℕ) (k : Text) (l : Effects) (v : IsValid l) where
  reserve_new : Reserves o j l (
    l.next_id,
    false,
    record { rows = l.rows ++ new_effect l.next_id org_id job_id k ∷ []; next_id = l.next_id + 1 },
  )
  reserve_new =
      let unused = fresh-has_key l.next_id l.rows v.fresh in
      record {
        valid = record {
          unique =
              append-HasUniqueKeys key l.rows (new_effect l.next_id org_id job_id k) v.unique
                unused;
          fresh =
              All-append _ l.rows _ (All-of l.rows (λ e h. omega arith) v.fresh) (omega arith, tt);
          unpaid = All-append _ l.rows _ v.unpaid (λ _. refl, tt);
        };
        same_sum = booked-append o j l.rows (new_effect l.next_id org_id job_id k) ∙ ground arith;
        unpaid =
            λ _. All-append _ l.rows _ (absent-IsUnpaidAt l.next_id l.rows unused) (λ _. refl, tt);
      }

  reserve_again :
      (p : Effect → Bool) (e : Effect)
      → select_one p l.rows ≡ some e
      → is_failed e.status ≡ true
      → Reserves o j l
          (e.id, false, record l { rows = update_where (λ x. x.id == e.id) reopened l.rows })
  reserve_again p e h f =
      let unpaid = found-IsUnpaidAt p l.rows e v.unique v.unpaid h (ground arith) in
      record {
        valid = record {
          unique =
              update_where-HasUniqueKeys key (λ x. x.id == e.id) reopened (λ r. refl) l.rows
                v.unique;
          fresh = All-update_where _ (λ x. x.id == e.id) reopened l.rows (λ r _ q. q) v.fresh;
          unpaid = reopened-AreUnpaid e.id l.rows unpaid v.unpaid;
        };
        same_sum = booked-reopened o j e.id l.rows;
        unpaid = λ _. All-update_where _ (λ x. x.id == e.id) reopened l.rows (λ r _ q. q) unpaid;
      }

  found_row :
      (p : Effect → Bool) (e : Effect)
      → select_one p l.rows ≡ some e
      → is_failed e.status ≡ false
      → Reserves o j l (e.id, is_succeeded e.status, l)
  found_row p e h f = record {
    valid = v;
    same_sum = refl;
    unpaid = λ q. found-IsUnpaidAt p l.rows e v.unique v.unpaid h q;
  }

  pub reserve-Reserves : Reserves o j l (reserve org_id job_id k l)
  unfolding reserve
  reserve-Reserves = elim (Option-cases (select_one (λ e. text_eq e.idempotency_key k) l.rows)) [
    | inl h ↦ rw h reserve_new
    | inr (e, h) ↦ elim (Bool-cases (is_failed e.status)) [
      | inl f ↦ rw h (rw f (reserve_again (λ e. text_eq e.idempotency_key k) e h f))
      | inr f ↦ rw h (rw f (found_row (λ e. text_eq e.idempotency_key k) e h f))
    ]
  ]

-- A call that did not succeed is booked at no cost.
abbrev IsPriced : Bool → ℕ → Type 0
IsPriced ok cost = ok ≡ false → cost ≡ 0

completed-unpaid :
    (ok : Bool) (cost : ℕ) (failure : Option FailureClass) (e : Effect)
    → IsPriced ok cost
    → is_succeeded (completed ok cost failure e).status ≡ false
    → (completed ok cost failure e).cost_cents ≡ 0
completed-unpaid ok cost failure e h q = ground arith

module _ (o j id : ℕ) (ok : Bool) (cost : ℕ) (failure : Option FailureClass) (l : Effects)
    (v : IsValid l) where
  pub complete-IsValid : IsPriced ok cost → IsValid (complete id ok cost failure l)
  unfolding complete
  complete-IsValid priced = record {
    unique =
        update_where-HasUniqueKeys key (λ e. e.id == id) (completed ok cost failure) (λ r. refl)
          l.rows v.unique;
    fresh =
        All-update_where _ (λ e. e.id == id) (completed ok cost failure) l.rows (λ r _ q. q)
          v.fresh;
    unpaid =
        All-update_where _ (λ e. e.id == id) (completed ok cost failure) l.rows
          (λ r _ _. completed-unpaid ok cost failure r priced) v.unpaid;
  }

  pub booked-complete :
      IsUnpaidAt id l.rows
      → booked o j (complete id ok cost failure l).rows ≤ booked o j l.rows + cost
  unfolding complete
  booked-complete unpaid = booked-completed o j id ok cost failure l.rows v.unique unpaid
