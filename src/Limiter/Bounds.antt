-- ===== src/Limiter/Bounds.antt =====
-- What lead_engine/ratelimit.py lets through in a stretch of time.
use lead_engine.Prelude.{
  ℕ, ◌+◌, ◌*◌, ◌-◌, ◌≤◌, ◌≡◌, refl, ◌∙◌, inl, inr, Bool, true, false, ◌&&◌, Option, none, some,
  List, [], ◌∷◌, arith, leb, Bool-cases, text_eq_sound, text_eq_refl, text_eq_iff,
}
use lead_engine.Limiter.{
  Scope, Bucket, Key, Limits, key_of, Buckets, same_key, refilled, spend, is_free, allow, one_if,
  counts, allowed_of,
}

-- The clock does not go back.
abbrev pub InOrder : ℕ → List (Scope × ℕ) → ℕ → Type 0
InOrder start [] end = start ≤ end
InOrder start ((s, now) ∷ requests) end = (start ≤ now) × InOrder now requests end

refilled-le : (l : Limits) (now : ℕ) (was : Option Bucket) → refilled l now was ≤ l.burst
refilled-le l now none = omega arith
refilled-le l now (some b) = omega arith

rate_mono : (r m n : ℕ) → m ≤ n → r * m ≤ r * n
rate_mono r m n h = grind arith

-- What comes back between two times.
regained : (r u now : ℕ) → u ≤ now → (now - u) * r + r * u ≡ r * now
regained r u now h = grind arith

refilled_since :
    (l : Limits) (now : ℕ) (was : Option Bucket) (b : Bucket)
    → was ≡ some b
    → b.updated ≤ now
    → refilled l now was + l.rate * b.updated ≤ b.tokens + l.rate * now
refilled_since l now was b w h = rw w (omega (arith, regained l.rate b.updated now h))

-- A request pays for itself.
spend-pays :
    (l : Limits) (now tokens c : ℕ)
    → l.unit * (one_if (spend l now tokens).0 + c) + (spend l now tokens).2.tokens
      ≡ l.unit * c + tokens
spend-pays l now tokens c = elim (Bool-cases (leb l.unit tokens)) [
  | inl e ↦ rw e (grind (arith, e))
  | inr e ↦ rw e (grind arith)
]

-- A request leaves a bucket alone, or draws on it.
data Touch (l : Limits) (k : Key) (s : Scope) (now : ℕ) (buckets : Buckets) : Type 0 where
  passes_by :
      counts l k s (allow l s now buckets).0 ≡ 0
      → (allow l s now buckets).2 k ≡ buckets k
      → Touch l k s now buckets
  draws :
      counts l k s (allow l s now buckets).0 ≡ one_if (spend l now (refilled l now (buckets k))).0
      → (allow l s now buckets).2 k ≡ some (spend l now (refilled l now (buckets k))).2
      → Touch l k s now buckets

same_key_sound : (j k : Key) → same_key j k ≡ true → j ≡ k
same_key_sound (a, b) (c, d) h =
    let one : a ≡ c = text_eq_sound a c (ground arith) in
    let two : b ≡ d = text_eq_sound b d (ground arith) in rw (one, two) refl

same_key_refl : (k : Key) → same_key k k ≡ true
same_key_refl (a, b) = rw (text_eq_refl a, text_eq_refl b) refl

same_key_sym : (j k : Key) → same_key j k ≡ false → same_key k j ≡ false
same_key_sym (a, b) (c, d) h =
    ground (arith, h, text_eq_iff a c, text_eq_iff c a, text_eq_iff b d, text_eq_iff d b)

not_counted : (x : Bool) → one_if (x && false) ≡ 0
not_counted true = refl
not_counted false = refl

counted_if : (x : Bool) → one_if (x && true) ≡ one_if x
counted_if true = refl
counted_if false = refl

allow-Touch :
    (l : Limits) (k : Key) (s : Scope) (now : ℕ) (buckets : Buckets) → Touch l k s now buckets
unfolding allow
allow-Touch l k s now buckets = elim (Bool-cases (is_free l s)) [
  | inl e ↦ passes_by (rw e refl) (rw e refl)
  | inr e ↦ elim (Bool-cases (same_key (key_of l s) k)) [
    | inl m ↦
        let q = same_key_sound (key_of l s) k m in
        draws (rw (e, q, same_key_refl k) (counted_if _)) (rw (e, q, same_key_refl k) refl)
    | inr m ↦ passes_by (rw (e, m) (not_counted _)) (rw (e, same_key_sym (key_of l s) k m) refl)
  ]
]

spend-updated : (l : Limits) (now tokens : ℕ) → (spend l now tokens).2.updated ≡ now
spend-updated l now tokens = elim (Bool-cases (leb l.unit tokens)) [
  | inl e ↦ rw e refl
  | inr e ↦ rw e refl
]

-- What is let through from a draw on: the request itself, and `c` after it.
after_draw :
    (l : Limits) (now end tokens c : ℕ)
    → l.unit * c + l.rate * (spend l now tokens).2.updated
      ≤ (spend l now tokens).2.tokens + l.rate * end
    → l.unit * (one_if (spend l now tokens).0 + c) + l.rate * now ≤ tokens + l.rate * end
after_draw l now end tokens c h =
    sum _ _ _ _ _ _ (spend-pays l now tokens c) (rw (spend-updated l now tokens) at h)
  where
    sum :
        (a left cost t r last : ℕ) → a + left ≡ cost + t → cost + r ≤ left + last → a + r ≤ t + last
    sum a left cost t r last p q = omega (arith, p, q)

module _ (l : Limits) (k : Key) where
  -- From a bucket whose time is known.
  strong :
      (requests : List (Scope × ℕ)) (start end : ℕ) (buckets : Buckets) (b : Bucket)
      → buckets k ≡ some b
      → b.updated ≤ start
      → InOrder start requests end
      → l.unit * allowed_of l k requests buckets + l.rate * b.updated ≤ b.tokens + l.rate * end
  unfolding allowed_of
  strong [] start end buckets b e u o =
      grind (arith, rate_mono l.rate b.updated end (omega (arith, u, o)))
  strong ((s, now) ∷ requests) start end buckets b e u (le, o) =
      elim (allow-Touch l k s now buckets) [
        | passes_by c q ↦ rw c (
            omega (
              arith,
              strong requests now end (allow l s now buckets).2 b (q ∙ e) (omega (arith, u, le)) o,
            ))
        | draws c q ↦
            let tokens = refilled l now (buckets k) in
            let updated = spend-updated l now tokens in
            let drawn =
              after_draw l now end tokens (allowed_of l k requests (allow l s now buckets).2) (
                strong requests now end (allow l s now buckets).2 (spend l now tokens).2 q
                  (omega (arith, updated)) o) in
            rw c
              (sum _ _ _ _ _ _ drawn (refilled_since l now (buckets k) b e (omega (arith, u, le))))
      ]
    where
      sum : (a r t last ru bt : ℕ) → a + r ≤ t + last → t + ru ≤ bt + r → a + ru ≤ bt + last
      sum a r t last ru bt p q = omega (arith, p, q)

  -- In any stretch of time, whatever other clients send and whatever the buckets hold at its start, the
  -- requests that are let through on one bucket cost no more than a full bucket and what comes back meanwhile.
  pub allowed_of-le :
      (requests : List (Scope × ℕ)) (start end : ℕ) (buckets : Buckets)
      → InOrder start requests end
      → l.unit * allowed_of l k requests buckets + l.rate * start ≤ l.burst + l.rate * end
  unfolding allowed_of
  allowed_of-le [] start end buckets o = grind (arith, rate_mono l.rate start end o)
  allowed_of-le ((s, now) ∷ requests) start end buckets (le, o) =
      let later = rate_mono l.rate start now le in
      elim (allow-Touch l k s now buckets) [
        | passes_by c q ↦
            rw c (sum_by _ _ _ _ later (allowed_of-le requests now end (allow l s now buckets).2 o))
        | draws c q ↦
            let tokens = refilled l now (buckets k) in
            let updated = spend-updated l now tokens in
            let drawn =
              after_draw l now end tokens (allowed_of l k requests (allow l s now buckets).2) (
                strong requests now end (allow l s now buckets).2 (spend l now tokens).2 q
                  (omega (arith, updated)) o) in
            rw c (sum _ _ _ _ _ _ drawn later (refilled-le l now (buckets k)))
      ]
    where
      sum_by : (c rs rn top : ℕ) → rs ≤ rn → l.unit * c + rn ≤ top → l.unit * (0 + c) + rs ≤ top
      sum_by c rs rn top p q = grind (arith, p, q)

      sum :
          (a rn t last rs full : ℕ) → a + rn ≤ t + last → rs ≤ rn → t ≤ full → a + rs ≤ full + last
      sum a rn t last rs full p q h = omega (arith, p, q, h)
