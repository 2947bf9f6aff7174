-- ===== src/Router/Loops.antt =====
-- The loop over keys of lead_engine/router.py ends.
use lead_engine.Prelude.{
  ℕ, zero, suc, ◌+◌, ◌-◌, ◌≤◌, ◌<◌, ◌≡◌, refl, sym, ◌∙◌, inl, inr, max, Bool, true, false, Option,
  none, some, List, [], ◌∷◌, ◌++◌, arith, ltb, Bool-cases, length, All, Text,
}
use lead_engine.Router.{
  Answer, Response, answered, rate_limited, quota_exhausted, auth_rejected, not_available,
  provider_error, Adapter, World, Settings, Task, Step, done, next_key, once_more, called,
  can_rotate, usage_noted, or_default, on_key_error, attempt, key_after, retries_after, going_on,
  ask_on,
}
use mathlib.Core.List.{append-nil, append_assoc}
use lead_engine.Router.Registry.{
  Standing, cooldown, exhausted, was_limited, out_of_quota, auth_error, UsageStatus, record_usage,
  mark,
}

-- What is left of the loop: keys and retries.
abbrev pub left : Adapter → ℕ → ℕ → ℕ
left a key_try retries = max 1 a.keys - key_try + (2 - retries)

not_both : {b : Bool} → b ≡ false → b ≡ true → ⊥
not_both p q = cc

abbrev is_once_more : Step → Bool
is_once_more once_more = true
is_once_more _ = false

module _ (settings : Settings) (t : Task) (now : ℕ) (a : Adapter) where
  key_error-not_once_more :
      (usage : UsageStatus) (status : Standing) (seconds : Option ℕ) (w : World)
      → is_once_more (on_key_error settings t now a usage status seconds w).0 ≡ false
  key_error-not_once_more usage status seconds w =
      elim (Bool-cases (can_rotate a (usage_noted settings t now a usage w))) [
        | inl e ↦ rw e refl
        | inr e ↦ rw e refl
      ]

  -- The same key is tried once more only while retries are left.
  once_more-retries :
      (reply : Response) (retries : ℕ) (w : World)
      → is_once_more (attempt settings t now a reply retries w).0 ≡ true
      → retries < 2
  unfolding attempt
  once_more-retries (answered answer) retries w e = absurd (cc)
  once_more-retries (rate_limited after) retries w e =
      absurd (not_both (key_error-not_once_more _ _ _ w) e)
  once_more-retries quota_exhausted retries w e =
      absurd (not_both (key_error-not_once_more _ _ _ w) e)
  once_more-retries auth_rejected retries w e =
      absurd (not_both (key_error-not_once_more _ _ _ w) e)
  once_more-retries not_available retries w e = elim (Bool-cases (ltb retries 2)) [
    | inl m ↦ ground (arith, m)
    | inr m ↦ absurd (not_both refl (rw m at e))
  ]
  once_more-retries provider_error retries w e = absurd (cc)

  -- With as much fuel as there are keys and retries left, the loop over keys returns and writes the same as
  -- with any more fuel.
  pub ask_on-ends :
      (n m key_try retries : ℕ) (w : World)
      → left a key_try retries ≤ n
      → left a key_try retries ≤ m
      → ask_on settings t now n a key_try retries w ≡ ask_on settings t now m a key_try retries w
  unfolding ask_on
  ask_on-ends zero zero k r w h g = refl
  ask_on-ends zero (suc m) k r w h g =
      let out : ltb k (max 1 a.keys) ≡ false = ground (arith, h) in rw out refl
  ask_on-ends (suc n) zero k r w h g =
      let out : ltb k (max 1 a.keys) ≡ false = ground (arith, g) in rw out refl
  ask_on-ends (suc n) (suc m) k r w h g = elim (Bool-cases (ltb k (max 1 a.keys))) [
    | inr e ↦ rw e refl
    | inl e ↦
        let turn = attempt settings t now a (a.request (length w.db.requests)) r (called a w) in
        rw e (
          same e turn.0 turn.1 (λ k' r' v. ask_on-ends n m k' r' v)
            (once_more-retries (a.request (length w.db.requests)) r (called a w)))
  ]
    where
      same :
          ltb k (max 1 a.keys) ≡ true
          → (s : Step) (v : World)
          → ((k' r' : ℕ) (u : World)
              → left a k' r' ≤ n
              → left a k' r' ≤ m
              → ask_on settings t now n a k' r' u ≡ ask_on settings t now m a k' r' u)
          → (is_once_more s ≡ true → r < 2)
          → going_on s (ask_on settings t now n a (key_after s k) (retries_after s r) v) v
            ≡ going_on s (ask_on settings t now m a (key_after s k) (retries_after s r) v) v
      same e (done answer) v again c = refl
      same e next_key v again c = again (k + 1) r v (ground (arith, e, h)) (ground (arith, e, g))
      same e once_more v again c =
          again k (r + 1) v (ground (arith, c refl, h)) (ground (arith, c refl, g))

-- The requests of a run of the loop: all to one adapter, and no more than there is fuel.
pub record Asked (name : Text) (n : ℕ) (before after : List Text) : Type 0 where
  pub more : List Text
  pub at_the_end : after ≡ before ++ more
  pub to_it : All (λ x. x ≡ name) more
  pub bounded : length more ≤ n

none-Asked : (name : Text) (n : ℕ) (before : List Text) → Asked name n before before
none-Asked name n before = record {
  more = [];
  at_the_end = sym (append-nil before);
  to_it = tt;
  bounded = omega arith;
}

one-Asked :
    (name : Text) (n : ℕ) (before after : List Text)
    → Asked name n (before ++ name ∷ []) after
    → Asked name (suc n) before after
one-Asked name n before after h = record {
  more = name ∷ h.more;
  at_the_end = h.at_the_end ∙ append_assoc before (name ∷ []) h.more;
  to_it = (refl, h.to_it);
  bounded = omega (arith, h.bounded);
}

module _ (settings : Settings) (t : Task) (now : ℕ) (a : Adapter) where
  key_error-requests :
      (usage : UsageStatus) (status : Standing) (seconds : Option ℕ) (w : World)
      → (on_key_error settings t now a usage status seconds w).1.db.requests ≡ w.db.requests
  unfolding record_usage mark
  key_error-requests usage status seconds w =
      elim (Bool-cases (can_rotate a (usage_noted settings t now a usage w))) [
        | inl e ↦ rw e refl
        | inr e ↦ rw e refl
      ]

  attempt-requests :
      (reply : Response) (retries : ℕ) (w : World)
      → (attempt settings t now a reply retries w).1.db.requests ≡ w.db.requests
  unfolding attempt record_usage mark
  attempt-requests (answered answer) retries w = refl
  attempt-requests (rate_limited after) retries w =
      key_error-requests was_limited cooldown (some (or_default after settings.cooldown_default)) w
  attempt-requests quota_exhausted retries w = key_error-requests out_of_quota exhausted none w
  attempt-requests auth_rejected retries w =
      key_error-requests auth_error cooldown (some settings.unavailable_cooldown) w
  attempt-requests not_available retries w = elim (Bool-cases (ltb retries 2)) [
    | inl m ↦ rw m refl
    | inr m ↦ rw m refl
  ]
  attempt-requests provider_error retries w = refl

  going_on-Asked :
      (s : Step) (n : ℕ) (before : List Text) (rest : Option Answer × World) (v : World)
      → v.db.requests ≡ before
      → Asked a.name n before rest.1.db.requests
      → Asked a.name n before (going_on s rest v).1.db.requests
  going_on-Asked (done answer) n before rest v e h = rw e (none-Asked a.name n before)
  going_on-Asked next_key n before rest v e h = h
  going_on-Asked once_more n before rest v e h = h

  pub ask_on-Asked :
      (n k r : ℕ) (w : World)
      → Asked a.name n w.db.requests (ask_on settings t now n a k r w).1.db.requests
  unfolding ask_on
  ask_on-Asked zero k r w = none-Asked a.name 0 w.db.requests
  ask_on-Asked (suc n) k r w = elim (Bool-cases (ltb k (max 1 a.keys))) [
    | inr e ↦ rw e (none-Asked a.name (suc n) w.db.requests)
    | inl e ↦
        let turn = attempt settings t now a (a.request (length w.db.requests)) r (called a w) in
        let same = attempt-requests (a.request (length w.db.requests)) r (called a w) in
        let rest = ask_on settings t now n a (key_after turn.0 k) (retries_after turn.0 r) turn.1 in
        let asked = ask_on-Asked n (key_after turn.0 k) (retries_after turn.0 r) turn.1 in
        rw e (
          one-Asked a.name n w.db.requests (going_on turn.0 rest turn.1).1.db.requests (
            going_on-Asked turn.0 n (w.db.requests ++ a.name ∷ []) rest turn.1 same
              (rw same at asked)))
  ]
