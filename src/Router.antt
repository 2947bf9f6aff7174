-- ===== src/Router.antt =====
-- lead_engine/router.py: Router.route, with the request level of lead_engine/cache.py and the daily
-- budget of lead_engine/entitlements.py. One reading of the clock serves a route; the rotation by
-- credit budgets, which picks a key before a call, and the texts of errors are left out.
pub mod Registry
pub mod Loops
pub mod Choice
pub mod Openness
use lead_engine.Prelude.{
  ℕ, zero, suc, ◌+◌, ◌-◌, ◌≡◌, max, Bool, true, false, not, ◌&&◌, ◌||◌, Option, none, some, List,
  [], ◌∷◌, ◌++◌, ◌==◌, ltb, leb, if◌then◌else◌, or_else, length, Text, text, text_eq, starts_with,
}
use lead_engine.Sql.{update_where, delete_where, select_where, select_one, count_where}
use Registry.{
  Standing, exhausted, cooldown, Provider, UsageStatus, went_well, was_limited, out_of_quota,
  auth_error, failed, Usage, Tables, is_usable, providers_for_task, expired_for_task, record_usage,
  mark, add_quota_used, count_recent_requests, set_rpm_from_headers,
}

pub record Answer : Type 0 where
  pub payload : ℕ
  pub units : ℕ
  pub remaining : Option ℕ

-- What `adapter.request` returns or raises.
pub data Response : Type 0 where
  answered : Answer → Response
  rate_limited : Option ℕ → Response
  quota_exhausted auth_rejected not_available provider_error : Response

-- An adapter, whose reply may depend on how many requests the route has made before.
pub record Adapter : Type 0 where
  pub name : Text
  pub keys : ℕ
  pub is_available : Bool
  pub request : ℕ → Response

-- A row of the table cache, of level 1.
pub record CacheRow : Type 0 where
  pub cache_key : Text
  pub answer : Answer
  pub expires_at : ℕ

pub record World : Type 0 where
  pub db : Tables
  pub key_index : Text → ℕ
  pub cache : List CacheRow

pub record Settings : Type 0 where
  pub cooldown_default : ℕ
  pub unavailable_cooldown : ℕ
  pub rate_window : ℕ
  pub max_calls : ℕ
  pub ttl : ℕ

-- What a route is asked for, and the organization that its connection is bound to.
pub record Task : Type 0 where
  pub task : Text
  pub job_id : Option ℕ
  pub org : Option Text
  pub cache_key : Text
  pub use_cache : Bool
  pub prefer_provider : Option Text

-- `get_request`
abbrev unexpired : ℕ → Option CacheRow → Option Answer
unexpired now none = none
unexpired now (some e) = if leb e.expires_at now then none else some e.answer

unfoldable pub get_request : Text → ℕ → List CacheRow → Option Answer
get_request key now cache = unexpired now (select_one (λ e. text_eq e.cache_key key) cache)

abbrev is_in : Text → List CacheRow → Bool
is_in key cache = not (count_where (λ e. text_eq e.cache_key key) cache == 0)

-- `put_request`: the row of the key is inserted or replaced.
unfoldable pub put_request : Text → Answer → ℕ → List CacheRow → List CacheRow
put_request key answer expires cache =
    let entry : CacheRow = record { cache_key = key; answer = answer; expires_at = expires } in
    if is_in key cache
    then update_where (λ e. text_eq e.cache_key key) (λ e. entry) cache
    else cache ++ entry ∷ []

-- `check_provider_call`: no organization has no limit.
abbrev pub check_provider_call : Option Text → ℕ → ℕ → Tables → Bool
check_provider_call none limit day_start db = true
check_provider_call (some []) limit day_start db = true
check_provider_call (some (c ∷ s)) limit day_start db =
    ltb (count_where (λ (u : Usage). of_org u.organization_id && leb day_start u.ts) db.usage) limit
  where
    of_org : Option Text → Bool
    of_org none = false
    of_org (some t) = text_eq t (c ∷ s)

-- Where an attempt leads: out of the loop, to the next key, or to the same key once more.
pub data Step : Type 0 where
  done : Option Answer → Step
  next_key : Step
  once_more : Step

abbrev pub called : Adapter → World → World
called a w = record w { db = record w.db { requests = w.db.requests ++ a.name ∷ [] } }

-- `rotate_key`
abbrev pub can_rotate : Adapter → World → Bool
can_rotate a w = ltb (w.key_index a.name) (a.keys - 1)

abbrev pub rotated : Adapter → World → World
rotated a w = record w {
  key_index = λ name. if text_eq name a.name then w.key_index name + 1 else w.key_index name;
}

abbrev pub or_default : Option ℕ → ℕ → ℕ
or_default none d = d
or_default (some zero) d = d
or_default (some (suc n)) d = suc n

abbrev pub key_after : Step → ℕ → ℕ
key_after next_key key_try = key_try + 1
key_after _ key_try = key_try

abbrev pub retries_after : Step → ℕ → ℕ
retries_after once_more retries = retries + 1
retries_after _ retries = retries

abbrev pub going_on : Step → Option Answer × World → World → Option Answer × World
going_on (done answer) rest w = (answer, w)
going_on next_key rest w = rest
going_on once_more rest w = rest

module _ (settings : Settings) (t : Task) (now : ℕ) where
  abbrev pub usage_noted : Adapter → UsageStatus → World → World
  usage_noted a status w = record w {
    db = record_usage t.org a.name t.task t.job_id 0 status now w.db;
  }

  abbrev pub set_aside : Adapter → Standing → Option ℕ → World → World
  set_aside a status seconds w = record w { db = mark a.name t.task status seconds now w.db }

  abbrev pub on_key_error : Adapter → UsageStatus → Standing → Option ℕ → World → Step × World
  on_key_error a usage status seconds w =
      if can_rotate a (usage_noted a usage w)
      then (next_key, rotated a (usage_noted a usage w))
      else (done none, set_aside a status seconds (usage_noted a usage w))

  -- The body of the loop over keys.
  unfoldable pub attempt : Adapter → Response → ℕ → World → Step × World
  attempt a (answered answer) retries w = (done (some answer), w)
  attempt a (rate_limited after) retries w =
      on_key_error a was_limited cooldown (some (or_default after settings.cooldown_default)) w
  attempt a quota_exhausted retries w = on_key_error a out_of_quota exhausted none w
  attempt a auth_rejected retries w =
      on_key_error a auth_error cooldown (some settings.unavailable_cooldown) w
  attempt a not_available retries w =
      if ltb retries 2
      then (once_more, w)
      else (done none, set_aside a cooldown (some settings.unavailable_cooldown) w)
  attempt a provider_error retries w = (done none, usage_noted a failed w)

  -- while key_try < pool, on fuel.
  unfoldable pub ask_on : ℕ → Adapter → ℕ → ℕ → World → Option Answer × World
  ask_on zero a key_try retries w = (none, w)
  ask_on (suc fuel) a key_try retries w =
      let turn = attempt a (a.request (length w.db.requests)) retries (called a w) in
      let rest = ask_on fuel a (key_after turn.0 key_try) (retries_after turn.0 retries) turn.1 in
      if ltb key_try (max 1 a.keys) then going_on turn.0 rest turn.1 else (none, w)

  -- Each key, and two retries.
  unfoldable pub ask : Adapter → World → Option Answer × World
  ask a w = ask_on (max 1 a.keys + 2) a 0 0 w

  abbrev pub header_seen : Text → Option ℕ → Tables → Tables
  header_seen name none db = db
  header_seen name (some remaining) db = set_rpm_from_headers name t.task remaining now db

  -- What a route writes after an answer.
  unfoldable pub accepted : Adapter → Answer → World → World
  accepted a answer w = record w {
    db = header_seen a.name answer.remaining (
        add_quota_used a.name t.task answer.units (max 1 a.keys) now
          (record_usage t.org a.name t.task t.job_id answer.units went_well now w.db));
    cache =
        if t.use_cache
        then put_request t.cache_key answer (now + settings.ttl) w.cache
        else w.cache;
  }

  abbrev pub adapter_of : List Adapter → Text → Option Adapter
  adapter_of adapters name = select_one (λ (a : Adapter). text_eq a.name name) adapters

  abbrev pub over_rpm : Provider → World → Bool
  over_rpm p w =
      not (p.rpm_limit == 0)
      && leb p.rpm_limit (count_recent_requests t.org p.name t.task settings.rate_window now w.db)

  module _ (env : Text → Bool) (adapters : List Adapter) where
    abbrev pub may_call : Provider → Adapter → Bool
    may_call p a = a.is_available && is_usable env (max 1 a.keys) p

    -- One row of the waterfall, for its adapter.
    abbrev pub try_adapter : Provider → World → Option Adapter → Option Answer × World
    try_adapter p w none = (none, w)
    try_adapter p w (some a) =
        if may_call p a
        then if over_rpm p w
          then (none, set_aside a cooldown (some settings.rate_window) w)
          else ask a w
        else (none, w)

    abbrev pub settled :
        Option Adapter → Option Answer × World → Option Answer × World → Option Answer × World
    settled a (none, w) rest = rest
    settled none (some answer, w) rest = rest
    settled (some a) (some answer, w) rest = (some answer, accepted a answer w)

    -- The waterfall.
    unfoldable pub try_rows : List Provider → World → Option Answer × World
    try_rows [] w = (none, w)
    try_rows (p ∷ ps) w =
        let a = adapter_of adapters p.name in
        let turn = try_adapter p w a in let rest = try_rows ps turn.1 in settled a turn rest

    abbrev is_preferred : Option Text → Provider → Bool
    is_preferred none p = false
    is_preferred (some name) p = text_eq p.name name

    -- A preferred provider leads; the others keep their turn.
    abbrev pub with_preferred : List Provider → List Provider
    with_preferred rows =
        select_where (is_preferred t.prefer_provider) rows
        ++ select_where (λ p. not (is_preferred t.prefer_provider p)) rows

    abbrev pub rows_of : (ℕ → ℕ) → World → List Provider
    rows_of month w = with_preferred (providers_for_task month now t.task w.db)

    abbrev in_turn : (ℕ → ℕ) → World → Option Answer × World
    in_turn month w =
        try_rows (rows_of month w) (record w { db = expired_for_task month now t.task w.db })

    -- Organizations of the system are named with two underscores and have no limit.
    abbrev is_exempt : Option Text → Bool
    is_exempt none = true
    is_exempt (some s) = starts_with s (text "__")

    abbrev pub within_budget : ℕ → World → Bool
    within_budget day_start w =
        is_exempt t.org || check_provider_call t.org settings.max_calls day_start w.db

    abbrev pub from_cache : World → Option Answer
    from_cache w = if t.use_cache then get_request t.cache_key now w.cache else none

    abbrev pub after_cache : (ℕ → ℕ) → ℕ → World → Option Answer → Option Answer × World
    after_cache month day_start w (some answer) = (some answer, w)
    after_cache month day_start w none =
        if within_budget day_start w then in_turn month w else (none, w)

    -- `route`, which raises NoProviderAvailable where the answer is none.
    unfoldable pub route : (ℕ → ℕ) → ℕ → World → Option Answer × World
    route month day_start w = after_cache month day_start w (from_cache w)
