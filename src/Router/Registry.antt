-- ===== src/Router/Registry.antt =====
-- lead_engine/registry.py: the tables providers and usage_ledger. Times and amounts are numbers, `month`
-- is the calendar month of a time; what usage_ledger keeps of latency and tokens is left out.
use lead_engine.Prelude.{
  ℕ, zero, suc, ◌+◌, ◌*◌, ◌-◌, max, Bool, true, false, not, ◌&&◌, Option, none, some, List, [], ◌∷◌,
  ◌++◌, ◌==◌, ltb, leb, if◌then◌else◌, map, sort_by, Text, text_eq,
}
use lead_engine.Sql.{update_where, select_where, select_one, count_where}

pub data Standing : Type 0 where
  active exhausted cooldown unavailable : Standing

pub record Provider : Type 0 where
  pub name : Text
  pub task : Text
  pub priority : ℕ
  pub quota_limit : Option ℕ
  pub quota_used : ℕ
  pub is_monthly : Bool
  pub period_start : Option ℕ
  pub rpm_limit : ℕ
  pub status : Standing
  pub cooldown_until : Option ℕ
  pub env_key : Option Text

pub data UsageStatus : Type 0 where
  went_well was_limited out_of_quota auth_error failed : UsageStatus

pub record Usage : Type 0 where
  pub ts : ℕ
  pub provider : Text
  pub task : Text
  pub job_id : Option ℕ
  pub units : ℕ
  pub status : UsageStatus
  pub organization_id : Option Text

-- The tables, and the providers that were called, the last one last.
pub record Tables : Type 0 where
  pub providers : List Provider
  pub usage : List Usage
  pub requests : List Text

abbrev pub is_row : Text → Text → Provider → Bool
is_row name task p = text_eq p.name name && text_eq p.task task

abbrev is_cooling : Standing → Bool
is_cooling cooldown = true
is_cooling _ = false

abbrev pub is_reachable : Standing → Bool
is_reachable active = true
is_reachable cooldown = true
is_reachable _ = false

abbrev is_past : Option ℕ → ℕ → Bool
is_past none now = false
is_past (some t) now = leb t now

-- The two UPDATEs of `_expire_states`, on one row.
abbrev pub rolled_over : (ℕ → ℕ) → ℕ → Provider → Bool
rolled_over month now p = p.is_monthly && differs p.period_start
  where
    differs : Option ℕ → Bool
    differs none = false
    differs (some t) = not (month t == month now)

abbrev renewed_row : ℕ → Provider → Provider
renewed_row now p = record p {
  quota_used = 0;
  period_start = some now;
  status = active;
  cooldown_until = none;
}

abbrev warmed_row : Provider → Provider
warmed_row p = record p { status = active; cooldown_until = none }

abbrev pub is_warm : ℕ → Provider → Bool
is_warm now p = is_cooling p.status && is_past p.cooldown_until now

-- `_expire_states`, on the row as it is read and, (name, task) being the key, in the table.
unfoldable pub expire_states : (ℕ → ℕ) → ℕ → Provider → Provider
expire_states month now p =
    let q = if rolled_over month now p then renewed_row now p else p in
    if is_warm now q then warmed_row q else q

-- `_within_quota`
abbrev pub within_quota : Provider → ℕ → Bool
within_quota p multiplier = below p.quota_limit
  where
    below : Option ℕ → Bool
    below none = true
    below (some limit) = ltb p.quota_used (limit * max 1 multiplier)

abbrev pub key_is_set : (Text → Bool) → Option Text → Bool
key_is_set env none = true
key_is_set env (some key) = env key

-- `_usable`, with `env` the variables that are set and `keys` the size of the key pool.
unfoldable pub is_usable : (Text → Bool) → ℕ → Provider → Bool
is_usable env keys p = key_is_set env p.env_key && (is_reachable p.status && within_quota p keys)

abbrev pub sooner : Provider → Provider → Bool
sooner p q = ltb p.priority q.priority

-- The rows of `providers_for_task`, and the table after it.
unfoldable pub providers_for_task : (ℕ → ℕ) → ℕ → Text → Tables → List Provider
providers_for_task month now task db =
    map (expire_states month now)
      (sort_by sooner (select_where (λ (p : Provider). text_eq p.task task) db.providers))

unfoldable pub expired_for_task : (ℕ → ℕ) → ℕ → Text → Tables → Tables
expired_for_task month now task db = record db {
  providers =
      update_where (λ (p : Provider). text_eq p.task task) (expire_states month now) db.providers;
}

unfoldable pub record_usage :
    Option Text → Text → Text → Option ℕ → ℕ → UsageStatus → ℕ → Tables → Tables
record_usage org name task job units status now db = record db {
  usage =
      db.usage
      ++ (record {
        ts = now;
        provider = name;
        task = task;
        job_id = job;
        units = units;
        status = status;
        organization_id = org;
      })
        ∷ [];
}

unfoldable pub mark : Text → Text → Standing → Option ℕ → ℕ → Tables → Tables
mark name task status seconds now db = record db {
  providers =
      update_where (is_row name task)
        (λ p. record p { status = status; cooldown_until = until seconds }) db.providers;
}
  where
    until : Option ℕ → Option ℕ
    until none = none
    until (some zero) = none
    until (some (suc s)) = some (now + suc s)

abbrev pub add_units : ℕ → Provider → Provider
add_units units p = record p { quota_used = p.quota_used + units }

abbrev pub is_spent : ℕ → Option Provider → Bool
is_spent multiplier none = false
is_spent multiplier (some p) = not (within_quota p multiplier)

unfoldable pub add_quota_used : Text → Text → ℕ → ℕ → ℕ → Tables → Tables
add_quota_used name task units multiplier now db =
    let counted = record db {
      providers = update_where (is_row name task) (add_units units) db.providers;
    } in
    if is_spent multiplier (select_one (is_row name task) counted.providers)
    then mark name task exhausted none now counted
    else counted

abbrev in_org_scope : Option Text → Option Text → Bool
in_org_scope none row = true
in_org_scope (some []) row = true
in_org_scope (some (c ∷ s)) none = false
in_org_scope (some (c ∷ s)) (some t) = text_eq t (c ∷ s)

unfoldable pub count_recent_requests : Option Text → Text → Text → ℕ → ℕ → Tables → ℕ
count_recent_requests org name task window now db =
    count_where
      (λ (u : Usage).
        text_eq u.provider name
        && (text_eq u.task task && (leb (now - window) u.ts && in_org_scope org u.organization_id)))
      db.usage

unfoldable pub set_rpm_from_headers : Text → Text → ℕ → ℕ → Tables → Tables
set_rpm_from_headers name task remaining now db =
    if remaining == 0 then mark name task cooldown (some 60) now db else db
