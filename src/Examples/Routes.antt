-- ===== src/Examples/Routes.antt =====
-- lead_engine/router.py with a provider that is out of requests and one that answers.
use lead_engine.Prelude.{ℕ, ◌≡◌, Bool, true, false, none, some, [], ◌∷◌, arith, Text, text}
use lead_engine.Router.{answered, rate_limited, Adapter, World, Settings, Task, ask_on}
use lead_engine.Router.Registry.{active, Provider}
use lead_engine.Router.Loops.{ask_on-ends}

abbrev config : Settings
config = record {
  cooldown_default = 300;
  unavailable_cooldown = 60;
  rate_window = 60;
  max_calls = 100;
  ttl = 3600;
}

abbrev search : Task
search = record {
  task = text "web_search";
  job_id = none;
  org = none;
  cache_key = text "k";
  use_cache = true;
  prefer_provider = none;
}

abbrev limited_one : Adapter
limited_one = record {
  name = text "tavily";
  keys = 2;
  is_available = true;
  request = λ n. rate_limited none;
}

abbrev answering : Adapter
answering = record {
  name = text "brave";
  keys = 1;
  is_available = true;
  request = λ n. answered (record { payload = 7; units = 1; remaining = none });
}

abbrev provider : Text → ℕ → Provider
provider name priority = record {
  name = name;
  task = text "web_search";
  priority = priority;
  quota_limit = some 10;
  quota_used = 0;
  is_monthly = false;
  period_start = none;
  rpm_limit = 0;
  status = active;
  cooldown_until = none;
  env_key = none;
}

abbrev world : World
world = record {
  db = record {
    providers = provider (text "brave") 2 ∷ provider (text "tavily") 1 ∷ [];
    usage = [];
    requests = [];
  };
  key_index = λ name. 0;
  cache = [];
}

abbrev month : ℕ → ℕ
month t = 0

abbrev unset : Text → Bool
unset key = false

ask_on-ends_example :
    ask_on config search 50 4 limited_one 0 0 world
    ≡ ask_on config search 50 9 limited_one 0 0 world
ask_on-ends_example =
    ask_on-ends config search 50 limited_one 4 9 0 0 world (omega arith) (omega arith)
