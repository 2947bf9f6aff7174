-- ===== src/Examples/Floods.antt =====
-- lead_engine/ratelimit.py with three tokens and one more each second, and five requests at once.
use lead_engine.Prelude.{ℕ, ◌+◌, ◌*◌, ◌≤◌, false, some, List, [], ◌∷◌, arith, text}
use lead_engine.Limiter.{Scope, Limits, Key, allowed_of, reset}
use lead_engine.Limiter.Bounds.{InOrder, allowed_of-le}

abbrev limits : Limits
limits = record {
  burst = 30;
  rate = 1;
  unit = 10;
  second = 10;
  behind_proxy = false;
  machine_token = [];
}

abbrev call : Scope
call = record {
  type = text "http";
  path = text "/api/jobs/7";
  method = text "GET";
  client = some (text "1.2.3.4");
  forwarded_for = [];
  authorization = [];
}

abbrev flood : List (Scope × ℕ)
flood = (call, 100) ∷ (call, 100) ∷ (call, 100) ∷ (call, 100) ∷ (call, 110) ∷ []

flood-InOrder : InOrder 100 flood 110
flood-InOrder =
    (omega arith, (omega arith, (omega arith, (omega arith, (omega arith, omega arith)))))

abbrev bucket : Key
bucket = (text "1.2.3.4", text "/api/jobs")

allowed_of-le_example : 10 * allowed_of limits bucket flood reset + 1 * 100 ≤ 30 + 1 * 110
allowed_of-le_example = allowed_of-le limits bucket flood 100 110 reset flood-InOrder
