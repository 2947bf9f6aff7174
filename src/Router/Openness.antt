-- ===== src/Router/Openness.antt =====
-- What the table providers says of the providers that Router.route of lead_engine/router.py calls.
use mathlib.Core.List.{Memᴰ}
use lead_engine.Prelude.{
  ℕ, ◌*◌, ◌<◌, ◌≡◌, ◌≢◌, ◌⊎◌, max, Bool, true, Option, none, some, List, Text, text_eq,
}
use lead_engine.Sql.{select_one}
use lead_engine.Router.{Adapter, Settings, Task}
use lead_engine.Router.Registry.{active, cooldown, Provider, expire_states}

-- The row is of an earlier calendar month than `now`, and its quota is a monthly one.
abbrev pub IsOfEarlierMonth : (ℕ → ℕ) → ℕ → Provider → Type 0
IsOfEarlierMonth month now r =
    (r.is_monthly ≡ true)
    × ((r.period_start ≡ none) ⊎ ((t : ℕ) × (r.period_start ≡ some t) × (month t ≢ month now)))

-- A row of the table, as it stands, under which a provider with that many keys may be called.
pub record IsOpen (month : ℕ → ℕ) (now : ℕ) (env : Text → Bool) (task : Text) (keys : ℕ)
    (r : Provider) : Type 0 where
  pub of_task : r.task ≡ task
  pub key : (r.env_key ≡ none) ⊎ ((k : Text) × (r.env_key ≡ some k) × (env k ≡ true))
  pub standing : (r.status ≡ active) ⊎ (r.status ≡ cooldown) ⊎ IsOfEarlierMonth month now r
  pub quota :
      (r.quota_limit ≡ none)
      ⊎ ((limit : ℕ) × (r.quota_limit ≡ some limit)
          × ((r.quota_used < limit * max 1 keys) ⊎ IsOfEarlierMonth month now r))

IsKeySet : (Text → Bool) → Option Text → Type 0
IsKeySet env o = (o ≡ none) ⊎ ((k : Text) × (o ≡ some k) × (env k ≡ true))

module _ (month : ℕ → ℕ) (now : ℕ) (env : Text → Bool) (task : Text) (keys : ℕ) (r : Provider) where
  -- The row as the route reads it.
  abbrev seen : Provider
  seen = expire_states month now r

module _ (settings : Settings) (t : Task) (now : ℕ) (env : Text → Bool) (adapters : List Adapter)
    (month : ℕ → ℕ) where
  -- There is an available adapter of this name, and an open row of the table for it.
  pub record IsServed (rows : List Provider) (name : Text) : Type 0 where
    pub row : Provider
    pub adapter : Adapter
    pub is_stored : Memᴰ row rows
    pub named : row.name ≡ name
    pub found : select_one (λ (a : Adapter). text_eq a.name name) adapters ≡ some adapter
    pub available : adapter.is_available ≡ true
    pub is_open : IsOpen month now env t.task adapter.keys row

  abbrev IsReadFrom : List Provider → Provider → Type 0
  IsReadFrom rows p =
      (r : Provider) × Memᴰ r rows × (r.task ≡ t.task) × (p ≡ expire_states month now r)
