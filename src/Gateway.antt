-- ===== src/Gateway.antt =====
-- infrastructure/providers/gateway.py with contracts/providers/base.py: the waterfall of providers
-- behind the effect ledger. The SHA-256 digest is a parameter, the canonical JSON of the call's
-- arguments is a text, and effect ids are drawn from a counter.
pub mod Ledger
pub mod Booking
pub mod Waterfall
pub mod Replay
use lead_engine.Prelude.{
  ℕ, ◌+◌, ◌≡◌, Bool, true, false, not, ◌&&◌, ◌||◌, Option, none, some, List, [], ◌∷◌, ◌++◌, ◌==◌,
  ltb, leb, if◌then◌else◌, is_value, or_else, take, Text, text,
}
use Ledger.{
  Effect, Effects, FailureClass, transient, rate_limit, capacity, ambiguous, reserve, complete,
  spent_cents,
}

pub record ProviderSpec : Type 0 where
  pub provider_id : Text
  pub priority : ℕ
  pub cost_cents_per_call : ℕ

pub record ProviderResult : Type 0 where
  pub ok : Bool
  pub cached_effect : Option ℕ
  pub failure : Option FailureClass
  pub cost_cents : ℕ

-- What `adapter.call` does with the operation and its arguments: it returns, or raises an exception
-- that `classify_exception` sorts into a class.
pub data Reply : Type 0 where
  returned : ProviderResult → Reply
  raised : FailureClass → Reply

pub record Adapter : Type 0 where
  pub spec : ProviderSpec
  pub reply : Reply

-- What `sort` by priority does: equal priorities keep their order.
unfoldable pub insert_by_priority : Adapter → List Adapter → List Adapter
insert_by_priority a [] = a ∷ []
insert_by_priority a (b ∷ rest) =
    if ltb b.spec.priority a.spec.priority then b ∷ insert_by_priority a rest else a ∷ b ∷ rest

unfoldable pub sort_by_priority : List Adapter → List Adapter
sort_by_priority [] = []
sort_by_priority (a ∷ rest) = insert_by_priority a (sort_by_priority rest)

unfoldable pub register : Adapter → List Adapter → List Adapter
register a adapters = sort_by_priority (adapters ++ a ∷ [])

-- One call of `execute`; `canonical` is json.dumps of its params.
pub record Request : Type 0 where
  pub org_id : ℕ
  pub job_id : Option ℕ
  pub tenant : Text
  pub job : Option Text
  pub step : Option Text
  pub operation : Text
  pub canonical : Text
  pub budget_cents : Option ℕ

abbrev or_dash : Option Text → Text
or_dash none = text "-"
or_dash (some []) = text "-"
or_dash (some (c ∷ s)) = c ∷ s

module _ (digest : Text → Text) where
  unfoldable pub idempotency_key : Request → Text → Text
  idempotency_key r provider_id =
      take 32 (
        digest (
          r.tenant
          ++ text "|"
          ++ or_dash r.job
          ++ text "|"
          ++ or_dash r.step
          ++ text "|"
          ++ provider_id
          ++ text "|"
          ++ r.operation))
      ++ take 16 (digest r.canonical)

abbrev pub result_of : Reply → ProviderResult
result_of (returned r) = r
result_of (raised f) = record { ok = false; cached_effect = none; failure = some f; cost_cents = 0 }

-- TRANSIENT, RATE_LIMIT, CAPACITY and AMBIGUOUS go on to the next provider.
abbrev pub goes_on : Option FailureClass → Bool
goes_on (some transient) = true
goes_on (some rate_limit) = true
goes_on (some capacity) = true
goes_on (some ambiguous) = true
goes_on _ = false

abbrev pub failed_with : FailureClass → ProviderResult
failed_with f = record { ok = false; cached_effect = none; failure = some f; cost_cents = 0 }

abbrev pub cached : ℕ → ProviderResult
cached id = record { ok = true; cached_effect = some id; failure = none; cost_cents = 0 }

-- cost_cents_per_call > budget_cents - spent, where the difference may be negative
abbrev pub over_budget : Option ℕ → ℕ → ℕ → Bool
over_budget none cost spent = false
over_budget (some budget) cost spent = ltb 0 cost && ltb budget (spent + cost)

-- The result, the ledger, and the providers that were called, in order.
abbrev pub Outcome : Type 0
Outcome = ProviderResult × Effects × List Text

abbrev pub note_call : Text → Outcome → Outcome
note_call provider (r, effects, calls) = (r, effects, provider ∷ calls)

-- After a call: book it, and return or go on.
unfoldable pub settle : ℕ → ProviderResult → Effects → Outcome → Outcome
settle id result effects rest =
    if result.ok
    then (result, complete id true result.cost_cents none effects, [])
    else if goes_on result.failure
    then rest
    else (result, complete id false 0 result.failure effects, [])

-- `spent` is read from the ledger once, at the first provider that costs something.
abbrev pub is_paid : Option ℕ → ℕ → Bool
is_paid none cost = false
is_paid (some budget) cost = ltb 0 cost

abbrev pub spent_at : Request → ℕ → Option ℕ → Effects → Option ℕ
spent_at r cost spent held =
    if is_paid r.budget_cents cost
    then some (or_else spent (spent_cents r.org_id r.job_id held))
    else spent

module _ (digest : Text → Text) where
  pub waterfall : Request → List Adapter → Option ℕ → Effects → Outcome
  unfolding settle
  waterfall r [] spent effects = (failed_with capacity, effects, [])
  waterfall r (a ∷ rest) spent effects =
      let (id, already, held) =
        reserve r.org_id r.job_id (idempotency_key digest r a.spec.provider_id) effects in
      let cost = a.spec.cost_cents_per_call in
      let spent' = spent_at r cost spent held in
      let result = result_of a.reply in
      let next = waterfall r rest spent' (complete id false 0 result.failure held) in
      let called = note_call a.spec.provider_id (settle id result held next) in
      if already
      then (cached id, held, [])
      else if over_budget r.budget_cents cost (or_else spent' 0)
      then (failed_with capacity, complete id false 0 (some capacity) held, [])
      else called

  unfoldable pub execute : Request → List Adapter → Effects → Outcome
  unfolding waterfall
  execute r adapters effects = waterfall r adapters none effects
