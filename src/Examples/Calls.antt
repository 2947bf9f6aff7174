-- ===== src/Examples/Calls.antt =====
-- Calls of the provider gateway with two providers.
use lead_engine.Prelude.{
  ◌≤◌, ◌≡◌, refl, text_eq_refl, true, none, some, [], ◌∷◌, arith, Text, text, All,
}
use lead_engine.Sql.{select_one}
use lead_engine.Sql.Keyed.{has_key}
use lead_engine.Gateway.Ledger.{Effect, Effects, transient, succeeded, booked}
use lead_engine.Gateway.Booking.{IsValid}
use lead_engine.Gateway.{Adapter, Request, returned, raised, idempotency_key, execute}
use lead_engine.Gateway.Replay.{IsDone, is_among, execute-replayed}
use lead_engine.Gateway.Waterfall.{IsHonest, execute-le-budget}

-- In place of SHA-256.
abbrev digest : Text → Text
digest t = t

abbrev failing_provider : Adapter
failing_provider = record {
  spec = record { provider_id = text "a"; priority = 1; cost_cents_per_call = 5 };
  reply = raised transient;
}

abbrev paid_provider : Adapter
paid_provider = record {
  spec = record { provider_id = text "b"; priority = 2; cost_cents_per_call = 7 };
  reply = returned (record { ok = true; cached_effect = none; failure = none; cost_cents = 6 });
}

abbrev search : Request
search = record {
  org_id = 1;
  job_id = some 4;
  tenant = text "t";
  job = some (text "4");
  step = none;
  operation = text "search";
  canonical = text "{}";
  budget_cents = some 10;
}

abbrev no_effects : Effects
no_effects = record { rows = []; next_id = 0 }

no_effects-IsValid : IsValid no_effects
no_effects-IsValid = record { unique = tt; fresh = tt; unpaid = tt }

both-IsHonest : All IsHonest (failing_provider ∷ paid_provider ∷ [])
both-IsHonest = (λ h. cc, (λ h. omega arith, tt))

none_booked : booked 1 4 [] ≤ 10
unfolding booked
none_booked = omega arith

execute-le-budget_example :
    booked 1 4 (execute digest search (failing_provider ∷ paid_provider ∷ []) no_effects).1.rows
    ≤ 10
execute-le-budget_example =
    execute-le-budget digest search 4 10 (failing_provider ∷ paid_provider ∷ []) no_effects refl
      refl both-IsHonest no_effects-IsValid none_booked

-- What the first run of the request leaves of the call to the second provider.
abbrev done_effect : Effect
done_effect = record {
  id = 1;
  org_id = 1;
  job_id = some 4;
  idempotency_key = idempotency_key digest search (text "b");
  status = succeeded;
  cost_cents = 6;
}

abbrev done_ledger : Effects
done_ledger = record { rows = done_effect ∷ []; next_id = 2 }

done_effect-IsDone : IsDone (idempotency_key digest search (text "b")) done_effect done_ledger
unfolding select_one has_key
done_effect-IsDone = (
  record { unique = (refl, tt); fresh = (omega arith, tt); unpaid = (λ h. cc, tt) },
  rw (text_eq_refl (idempotency_key digest search (text "b"))) refl,
  refl,
)

execute-replayed_example :
    All
      (λ name. is_among (failing_provider ∷ []) name ≡ true)
      (execute digest search (failing_provider ∷ paid_provider ∷ []) done_ledger).2
execute-replayed_example =
    execute-replayed digest search (failing_provider ∷ []) paid_provider [] done_ledger done_effect
      done_effect-IsDone
