-- ===== src/Router/Choice.antt =====
-- Which providers Router.route of lead_engine/router.py calls.
use mathlib.Core.List.{append-nil, append_assoc}
use lead_engine.Prelude.{
  ℕ, ◌+◌, ◌≡◌, refl, sym, ap, ◌∙◌, inl, inr, max, Bool, true, false, ◌&&◌, Option, none, some, List,
  [], ◌∷◌, ◌++◌, arith, ◌==◌, any, Bool-cases, All, All-append, Text, text_eq, text_eq_sound,
  text_eq_refl,
}
use lead_engine.Sql.{select_one-holds, All-of}
use lead_engine.Router.{
  Answer, Adapter, World, Settings, Task, ask, header_seen, accepted, adapter_of, over_rpm,
  may_call, try_adapter, settled, try_rows, rows_of, within_budget, from_cache, after_cache, route,
}
use lead_engine.Router.Registry.{
  Provider, Tables, record_usage, mark, add_quota_used, set_rpm_from_headers, expired_for_task,
}
use lead_engine.Router.Loops.{ask_on-Asked}

-- Requests that were added, all with a property.
pub record Extends (Q : Text → Type 0) (before after : List Text) : Type 0 where
  pub more : List Text
  pub at_the_end : after ≡ before ++ more
  pub all_so : All Q more

Extends-refl : (Q : Text → Type 0) (before : List Text) → Extends Q before before
Extends-refl Q before = record { more = []; at_the_end = sym (append-nil before); all_so = tt }

Extends-trans :
    (Q : Text → Type 0) (a b c : List Text) → Extends Q a b → Extends Q b c → Extends Q a c
Extends-trans Q a b c h k = record {
  more = h.more ++ k.more;
  at_the_end = k.at_the_end ∙ ap (λ x. x ++ k.more) h.at_the_end ∙ append_assoc a h.more k.more;
  all_so = All-append Q h.more k.more h.all_so k.all_so;
}

pub Extends-weaken :
    (P Q : Text → Type 0) (a b : List Text)
    → ((x : Text) → P x → Q x)
    → Extends P a b
    → Extends Q a b
Extends-weaken P Q a b f h = record {
  more = h.more;
  at_the_end = h.at_the_end;
  all_so = All-of h.more f h.all_so;
}

module _ (settings : Settings) (t : Task) (now : ℕ) (env : Text → Bool)
    (adapters : List Adapter) where
  abbrev callable_by : Provider → Option Adapter → Bool
  callable_by p none = false
  callable_by p (some a) = may_call settings t now env adapters p a

  -- Its adapter is there, and its row lets it be called.
  abbrev pub callable : Provider → Bool
  callable p = callable_by p (adapter_of settings t now adapters p.name)

  abbrev pub is_askable : List Provider → Text → Bool
  is_askable rows name = any (λ p. text_eq p.name name && callable p) rows

  abbrev OneOf : List Provider → Text → Type 0
  OneOf rows name = is_askable rows name ≡ true

  add_quota_used-requests :
      (name task : Text) (units multiplier : ℕ) (db : Tables)
      → (add_quota_used name task units multiplier now db).requests ≡ db.requests
  unfolding add_quota_used mark
  add_quota_used-requests name task units multiplier db = ground arith

  header_seen-requests :
      (name : Text) (remaining : Option ℕ) (db : Tables)
      → (header_seen settings t now name remaining db).requests ≡ db.requests
  unfolding set_rpm_from_headers mark
  header_seen-requests name none db = refl
  header_seen-requests name (some n) db = elim (Bool-cases (n == 0)) [
    | inl e ↦ rw e refl
    | inr e ↦ rw e refl
  ]

  accepted-requests :
      (a : Adapter) (answer : Answer) (w : World)
      → (accepted settings t now a answer w).db.requests ≡ w.db.requests
  unfolding accepted record_usage
  accepted-requests a answer w =
      header_seen-requests a.name answer.remaining _
      ∙ add_quota_used-requests a.name t.task answer.units (max 1 a.keys) _

  try_adapter-Extends :
      (p : Provider) (ps : List Provider) (w : World) (found : Option Adapter)
      → adapter_of settings t now adapters p.name ≡ found
      → Extends
          (OneOf (p ∷ ps))
          w.db.requests
          (try_adapter settings t now env adapters p w found).1.db.requests
  unfolding ask any mark
  try_adapter-Extends p ps w none e = Extends-refl _ w.db.requests
  try_adapter-Extends p ps w (some a) e =
      elim (Bool-cases (may_call settings t now env adapters p a)) [
        | inr m ↦ rw m (Extends-refl _ w.db.requests)
        | inl m ↦ elim (Bool-cases (over_rpm settings t now p w)) [
          | inl o ↦ rw (m, o) (Extends-refl _ w.db.requests)
          | inr o ↦
              let h = ask_on-Asked settings t now a (max 1 a.keys + 2) 0 0 w in
              rw (m, o)
                (record {
                  more = h.more;
                  at_the_end = h.at_the_end;
                  all_so = All-of h.more (λ x q. askable m x q) h.to_it;
                })
        ]
      ]
    where
      named : text_eq a.name p.name ≡ true
      named = select_one-holds (λ (b : Adapter). text_eq b.name p.name) adapters a e

      askable :
          may_call settings t now env adapters p a ≡ true
          → (x : Text) → x ≡ a.name
          → OneOf (p ∷ ps) x
      askable m x q =
          let same : x ≡ p.name = q ∙ text_eq_sound a.name p.name named in
          rw (same, text_eq_refl p.name, e, m) refl

  settled-Extends :
      (Q : Text → Type 0) (a : Option Adapter) (turn rest : Option Answer × World)
      (before : List Text)
      → Extends Q before turn.1.db.requests
      → Extends Q turn.1.db.requests rest.1.db.requests
      → Extends Q before (settled settings t now env adapters a turn rest).1.db.requests
  settled-Extends Q a (none, w) rest before h k =
      Extends-trans Q before w.db.requests rest.1.db.requests h k
  settled-Extends Q none (some answer, w) rest before h k =
      Extends-trans Q before w.db.requests rest.1.db.requests h k
  settled-Extends Q (some a) (some answer, w) rest before h k = rw (accepted-requests a answer w) h

  wider : (p : Provider) (ps : List Provider) (x : Text) → OneOf ps x → OneOf (p ∷ ps) x
  unfolding any
  wider p ps x h = ground arith

  try_rows-Extends :
      (ps : List Provider) (w : World)
      → Extends (OneOf ps) w.db.requests (try_rows settings t now env adapters ps w).1.db.requests
  unfolding try_rows
  try_rows-Extends [] w = Extends-refl _ w.db.requests
  try_rows-Extends (p ∷ ps) w =
      let a = adapter_of settings t now adapters p.name in
      let turn = try_adapter settings t now env adapters p w a in
      let rest = try_rows settings t now env adapters ps turn.1 in
      settled-Extends (OneOf (p ∷ ps)) a turn rest w.db.requests (try_adapter-Extends p ps w a refl)
        (Extends-weaken (OneOf ps) (OneOf (p ∷ ps)) _ _ (wider p ps) (try_rows-Extends ps turn.1))

  after_cache-Extends :
      (month : ℕ → ℕ) (day_start : ℕ) (w : World) (hit : Option Answer)
      → Extends
          (OneOf (rows_of settings t now env adapters month w))
          w.db.requests
          (after_cache settings t now env adapters month day_start w hit).1.db.requests
  unfolding expired_for_task
  after_cache-Extends month day_start w (some answer) = Extends-refl _ w.db.requests
  after_cache-Extends month day_start w none =
      elim (Bool-cases (within_budget settings t now env adapters day_start w)) [
        | inl e ↦ rw e (
            try_rows-Extends (rows_of settings t now env adapters month w)
              (record w { db = expired_for_task month now t.task w.db }))
        | inr e ↦ rw e (Extends-refl _ w.db.requests)
      ]

  pub route-Extends :
      (month : ℕ → ℕ) (day_start : ℕ) (w : World)
      → Extends
          (λ name. is_askable (rows_of settings t now env adapters month w) name ≡ true)
          w.db.requests
          (route settings t now env adapters month day_start w).1.db.requests
  unfolding route
  route-Extends month day_start w =
      after_cache-Extends month day_start w (from_cache settings t now env adapters w)
