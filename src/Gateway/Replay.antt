-- ===== src/Gateway/Replay.antt =====
-- A request that is executed again: what the ledger makes of an effect that has succeeded.
use lead_engine.Prelude.{
  ℕ, ◌<◌, ◌≡◌, refl, sym, ap, ◌∙◌, inl, inr, Bool, true, false, Option, none, some, List, [], ◌∷◌,
  ◌++◌, arith, ◌==◌, ==_iff, Text, text_eq, text_eq_refl, any, Bool-cases, Option-cases, All,
  or_else,
}
use lead_engine.Sql.{update_where, select_one, All-of}
use lead_engine.Sql.Keyed.{HasUniqueKeys, has_key-find_row, find_row}
use lead_engine.Gateway.Ledger.{
  Effect, Effects, FailureClass, Status, key, is_succeeded, is_failed, reopened, completed, reserve,
  complete,
}
use lead_engine.Gateway.Booking.{IsValid, reserve-Reserves, complete-IsValid}
use lead_engine.Gateway.{
  Adapter, Request, ProviderResult, Outcome, idempotency_key, result_of, goes_on, over_budget,
  spent_at, settle, waterfall, execute,
}

module _ (p : Effect → Bool) where
  select_one-find_row :
      (rows : List Effect) (e : Effect)
      → HasUniqueKeys key rows
      → select_one p rows ≡ some e
      → find_row key e.id rows ≡ some e
  unfolding select_one find_row
  select_one-find_row [] e u h = cc
  select_one-find_row (x ∷ rows) e u h =
      ground (arith, select_one-find_row rows e u.1, has_key-find_row key e.id rows e)

  select_one-All :
      (P : Effect → Type 0) (rows : List Effect) (e : Effect)
      → All P rows
      → select_one p rows ≡ some e
      → P e
  unfolding select_one
  select_one-All P [] e a h = absurd (cc)
  select_one-All P (x ∷ rows) e a h = elim (Bool-cases (p x)) [
    | inl m ↦ let it : some x ≡ some e = rw m at h in rw (← some_eq it) (a.0)
    | inr m ↦ select_one-All P rows e a.1 (rw m at h)
  ]
    where
      some_eq : {x y : Effect} → some x ≡ some y → x ≡ y
      some_eq q = cc

  select_one-append :
      (rows more : List Effect) (e : Effect)
      → select_one p rows ≡ some e
      → select_one p (rows ++ more) ≡ some e
  unfolding select_one
  select_one-append [] more e h = cc
  select_one-append (x ∷ rows) more e h = ground (arith, select_one-append rows more e)

  -- A statement on another row leaves it.
  select_one-other :
      (i : ℕ) (f : Effect → Effect) (rows : List Effect) (e : Effect)
      → ((x : Effect) → p (f x) ≡ p x)
      → (e.id == i) ≡ false
      → select_one p rows ≡ some e
      → select_one p (update_where (λ x. x.id == i) f rows) ≡ some e
  unfolding select_one update_where
  select_one-other i f [] e same other h = cc
  select_one-other i f (x ∷ rows) e same other h =
      ground (arith, same x, select_one-other i f rows e same)

-- The effect is the one that the ledger finds for the key, and it has succeeded.
abbrev pub IsDone : Text → Effect → Effects → Type 0
IsDone k e l =
    IsValid l
    × (select_one (λ x. text_eq x.idempotency_key k) l.rows ≡ some e)
    × (is_succeeded e.status ≡ true)

module _ (k : Text) (e : Effect) where
  complete-IsDone :
      (id : ℕ) (failure : Option FailureClass) (l : Effects)
      → IsDone k e l
      → (e.id == id) ≡ false
      → IsDone k e (complete id false 0 failure l)
  unfolding complete
  complete-IsDone id failure l (v, at, done) other = (
    complete-IsValid 0 0 id false 0 failure l v (λ _. refl),
    select_one-other (λ x. text_eq x.idempotency_key k) id (completed false 0 failure) l.rows e
        (λ x. refl) other at,
    done,
  )

  module _ (org_id : ℕ) (job_id : Option ℕ) (k' : Text) (l : Effects) (h : IsDone k e l) where
    -- A reservation leaves it, and hands out no effect to call but another one.
    reserve-IsDone :
        IsDone k e (reserve org_id job_id k' l).2
        × ((reserve org_id job_id k' l).1 ≡ false
            → (e.id == (reserve org_id job_id k' l).0) ≡ false)
    unfolding reserve
    reserve-IsDone =
        let valid = (reserve-Reserves 0 0 org_id job_id k' l h.0).valid in
        elim (Option-cases (select_one (λ x. text_eq x.idempotency_key k') l.rows)) [
          | inl q ↦ rw q (
            (rw q at valid, select_one-append _ l.rows _ e h.1, h.2),
            λ _. ground (arith, select_one-All _ (λ x. x.id < l.next_id) l.rows e h.0.fresh h.1),
          )
          | inr (x, q) ↦ elim (Bool-cases (is_failed x.status)) [
            | inl f ↦
                rw (q, f)
                  (
                    (
                      rw (q, f) at valid,
                      select_one-other _ x.id reopened l.rows e (λ y. refl)
                          (apart x q (ground arith)) h.1,
                      h.2,
                    ),
                    λ _. apart x q (ground arith),
                  )
            | inr f ↦ rw (q, f) (h, λ u. apart x q u)
          ]
        ]
      where
        some_eq : {x y : Effect} → some x ≡ some y → x ≡ y
        some_eq q = cc

        clash : true ≡ false → ⊥
        clash q = cc

        apart :
            (x : Effect)
            → select_one (λ y. text_eq y.idempotency_key k') l.rows ≡ some x
            → is_succeeded x.status ≡ false
            → (e.id == x.id) ≡ false
        apart x q u = elim (Bool-cases (e.id == x.id)) [
          | inr m ↦ m
          | inl m ↦
              let ids : e.id ≡ x.id = (==_iff e.id x.id).0 m in
              let one = select_one-find_row _ l.rows e h.0.unique h.1 in
              let two = select_one-find_row _ l.rows x h.0.unique q in
              let same : e ≡ x = some_eq (sym one ∙ rw ids two) in
              absurd (clash (sym h.2 ∙ ap (λ (y : Effect). is_succeeded y.status) same ∙ u))
        ]

-- The provider is one of these.
abbrev pub is_among : List Adapter → Text → Bool
is_among adapters name = any (λ a. text_eq a.spec.provider_id name) adapters

is_among_first :
    (b : Adapter) (before : List Adapter) → is_among (b ∷ before) b.spec.provider_id ≡ true
unfolding any
is_among_first b before = rw (text_eq_refl b.spec.provider_id) refl

is_among_later :
    (b : Adapter) (before : List Adapter) (name : Text)
    → is_among before name ≡ true
    → is_among (b ∷ before) name ≡ true
unfolding any
is_among_later b before name q = ground arith

module _ (digest : Text → Text) (r : Request) (a : Adapter) (after : List Adapter)
    (e : Effect) where
  abbrev done_key : Text
  done_key = idempotency_key digest r a.spec.provider_id

  settle-calls :
      (P : Text → Type 0) (id : ℕ) (result : ProviderResult) (held : Effects) (rest : Outcome)
      → All P rest.2
      → All P (settle id result held rest).2
  unfolding settle
  settle-calls P id result held rest h = elim (Bool-cases result.ok) [
    | inl q ↦ rw q tt
    | inr q ↦ elim (Bool-cases (goes_on result.failure)) [
      | inl g ↦ rw (q, g) h
      | inr g ↦ rw (q, g) tt
    ]
  ]

  replayed :
      (spent : Option ℕ) (l : Effects)
      → IsDone done_key e l
      → All (λ name. is_among [] name ≡ true) (waterfall digest r (a ∷ after) spent l).2
  unfolding waterfall reserve
  replayed spent l h = elim (Bool-cases (is_failed e.status)) [
    | inl f ↦ absurd (both e.status h.2 f)
    | inr f ↦ rw (h.1, f, h.2) tt
  ]
    where
      both : (s : Status) → is_succeeded s ≡ true → is_failed s ≡ true → ⊥
      both s q f = ground arith

  waterfall-calls :
      (before : List Adapter) (spent : Option ℕ) (l : Effects)
      → IsDone done_key e l
      → All
          (λ name. is_among before name ≡ true)
          (waterfall digest r (before ++ a ∷ after) spent l).2
  unfolding waterfall
  waterfall-calls [] spent l h = replayed spent l h
  waterfall-calls (b ∷ before) spent l h =
      let out = reserve r.org_id r.job_id (idempotency_key digest r b.spec.provider_id) l in
      let (kept, other) =
        reserve-IsDone done_key e r.org_id r.job_id (idempotency_key digest r b.spec.provider_id) l
          h in
      let cost = b.spec.cost_cents_per_call in
      let spent' = spent_at r cost spent out.2 in
      let result = result_of b.reply in
      elim (Bool-cases out.1) [
        | inl y ↦ rw y tt
        | inr n ↦ elim (Bool-cases (over_budget r.budget_cents cost (or_else spent' 0))) [
          | inl o ↦ rw (n, o) tt
          | inr o ↦
              rw (n, o)
                (
                  is_among_first b before,
                  settle-calls _ out.0 result out.2 _ (
                      All-of _ (is_among_later b before) (
                        waterfall-calls before spent' (complete out.0 false 0 result.failure out.2)
                          (complete-IsDone done_key e out.0 result.failure out.2 kept (other n)))),
                )
        ]
      ]

-- Once the effect that a request has on the ledger for a provider has succeeded, executing the
-- request again calls only providers that come before that one, whatever they answer or fail with,
-- and whatever the budget is. The ledger is valid.
pub execute-replayed :
    (digest : Text → Text) (r : Request) (before : List Adapter) (a : Adapter)
    (after : List Adapter) (l : Effects) (e : Effect)
    → IsDone (idempotency_key digest r a.spec.provider_id) e l
    → All (λ name. is_among before name ≡ true) (execute digest r (before ++ a ∷ after) l).2
unfolding execute
execute-replayed digest r before a after l e h = waterfall-calls digest r a after e before none l h
