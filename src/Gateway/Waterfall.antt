-- ===== src/Gateway/Waterfall.antt =====
-- The waterfall: what a request may cost its job, and which providers it reaches.
use lead_engine.Prelude.{
  ℕ, ◌+◌, ◌≤◌, ◌≡◌, refl, inl, inr, true, false, Option, none, some, List, [], ◌∷◌, arith, Text,
  Bool-cases, All, or_else,
}
use lead_engine.Gateway.Ledger.{
  Effects, FailureClass, capacity, reserve, complete, booked, spent_cents,
}
use lead_engine.Gateway.Booking.{
  IsValid, IsUnpaidAt, reserve-Reserves, complete-IsValid, booked-complete,
}
use lead_engine.Gateway.{
  Adapter, Request, idempotency_key, result_of, goes_on, over_budget, spent_at, waterfall, execute,
}

-- A provider does not charge more for a call that it answers than its registration says.
abbrev pub IsHonest : Adapter → Type 0
IsHonest a =
    (result_of a.reply).ok ≡ true → (result_of a.reply).cost_cents ≤ a.spec.cost_cents_per_call

module _ (digest : Text → Text) (r : Request) (j b : ℕ) (job : r.job_id ≡ some j)
    (budget : r.budget_cents ≡ some b) where
  abbrev SpentKnown : Option ℕ → Effects → Type 0
  SpentKnown spent l = (s : ℕ) → spent ≡ some s → booked r.org_id j l.rows ≤ s

  abbrev Keeps : Effects → Type 0
  Keeps l = IsValid l × (booked r.org_id j l.rows ≤ b)

  spent_at-SpentKnown :
      (cost : ℕ) (spent : Option ℕ) (l : Effects)
      → SpentKnown spent l
      → SpentKnown (spent_at r cost spent l) l
  unfolding spent_cents
  spent_at-SpentKnown cost none l h s e = ground (arith, job)
  spent_at-SpentKnown cost (some t) l h s e = ground (arith, h t refl, job)

  affordable :
      (cost : ℕ) (spent : Option ℕ) (l : Effects)
      → SpentKnown spent l
      → booked r.org_id j l.rows ≤ b
      → over_budget r.budget_cents cost (or_else (spent_at r cost spent l) 0) ≡ false
      → booked r.org_id j l.rows + cost ≤ b
  affordable cost spent l h under within = ground (
    arith,
    budget,
    spent_at-SpentKnown cost spent l h (or_else spent (spent_cents r.org_id r.job_id l)),
  )

  SpentKnown-le :
      (spent : Option ℕ) (l l' : Effects)
      → booked r.org_id j l'.rows ≤ booked r.org_id j l.rows
      → SpentKnown spent l
      → SpentKnown spent l'
  SpentKnown-le spent l l' less h s e = omega (arith, h s e)

  -- Booking no cost on an effect that has cost nothing.
  uncharged :
      (id : ℕ) (failure : Option FailureClass) (l : Effects)
      → Keeps l
      → IsUnpaidAt id l.rows
      → Keeps (complete id false 0 failure l)
        × (booked r.org_id j (complete id false 0 failure l).rows ≤ booked r.org_id j l.rows)
  uncharged id failure l k unpaid =
      let less = booked-complete r.org_id j id false 0 failure l k.0 unpaid in
      ((complete-IsValid r.org_id j id false 0 failure l k.0 (λ _. refl), omega arith), omega arith)

  charged :
      (id cost : ℕ) (l : Effects)
      → Keeps l
      → IsUnpaidAt id l.rows
      → booked r.org_id j l.rows + cost ≤ b
      → Keeps (complete id true cost none l)
  charged id cost l k unpaid room =
      let less = booked-complete r.org_id j id true cost none l k.0 unpaid in
      (complete-IsValid r.org_id j id true cost none l k.0 (λ q. cc), omega arith)

  waterfall-Keeps :
      (adapters : List Adapter) (spent : Option ℕ) (l : Effects)
      → All IsHonest adapters
      → SpentKnown spent l
      → Keeps l
      → Keeps (waterfall digest r adapters spent l).1
  unfolding waterfall
  waterfall-Keeps [] spent l honest known k = k
  waterfall-Keeps (a ∷ rest) spent l honest known k =
      let k' = idempotency_key digest r a.spec.provider_id in
      let held = (reserve r.org_id r.job_id k' l).2 in
      let id = (reserve r.org_id r.job_id k' l).0 in
      let cost = a.spec.cost_cents_per_call in
      let result = result_of a.reply in
      let res = reserve-Reserves r.org_id j r.org_id r.job_id k' l k.0 in
      let kept : Keeps held = (res.valid, omega (arith, res.same_sum, k.1)) in
      let seen = SpentKnown-le spent l held (omega (arith, res.same_sum)) known in
      elim (Bool-cases (reserve r.org_id r.job_id k' l).1) [
        | inl already ↦ rw already kept
        | inr fresh ↦
            let unpaid = res.unpaid fresh in
            let (failing, less) = uncharged id result.failure held kept unpaid in
            let spent' = spent_at r cost spent held in
            elim (Bool-cases (over_budget r.budget_cents cost (or_else spent' 0))) [
              | inl over ↦ rw fresh (rw over (uncharged id (some capacity) held kept unpaid).0)
              | inr within ↦ elim (Bool-cases result.ok) [
                | inl ok ↦ rw fresh (
                    rw within (
                      rw ok (
                        charged id result.cost_cents held kept unpaid (
                          omega
                            (arith, affordable cost spent held seen kept.1 within, honest.0 ok)))))
                | inr no_ok ↦ elim (Bool-cases (goes_on result.failure)) [
                  | inl on ↦ rw fresh (
                      rw within (
                        rw no_ok (
                          rw on (
                            waterfall-Keeps rest spent' (complete id false 0 result.failure held)
                              honest.1
                              (SpentKnown-le spent' held (complete id false 0 result.failure held)
                                less (spent_at-SpentKnown cost spent held seen))
                              failing))))
                  | inr stop ↦ rw fresh (rw within (rw no_ok (rw stop failing)))
                ]
              ]
            ]
      ]

-- If no provider charges more than its registered price, `execute` never books a job over its
-- budget: what was within the budget before stays within it, whichever providers fail or are
-- skipped. The ledger is valid at the start, and the request has a job and a budget.
pub execute-le-budget :
    (digest : Text → Text) (r : Request) (j b : ℕ) (adapters : List Adapter) (l : Effects)
    → r.job_id ≡ some j
    → r.budget_cents ≡ some b
    → All IsHonest adapters
    → IsValid l
    → booked r.org_id j l.rows ≤ b
    → booked r.org_id j (execute digest r adapters l).1.rows ≤ b
unfolding execute
execute-le-budget digest r j b adapters l job budget honest v under =
    (waterfall-Keeps digest r j b job budget adapters none l honest (λ s e. cc) (v, under)).1
