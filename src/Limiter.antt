-- ===== src/Limiter.antt =====
-- lead_engine/ratelimit.py: RateLimiter.allow. Tokens are counted in parts, of which one request costs
-- `unit`; the clock is read in ticks, of which a second has `second`, and `rate` parts come back in each.
pub mod Bounds
use lead_engine.Prelude.{
  ℕ, zero, suc, ◌+◌, ◌*◌, ◌-◌, ◌/◌, ◌≡◌, min, max, Bool, true, false, not, ◌&&◌, ◌||◌, Option, none,
  some, List, [], ◌∷◌, ◌++◌, ◌==◌, leb, if◌then◌else◌, or_else, take, Text, text, text_eq, contains,
  starts_with, lower, strip,
}

-- Of a request: the peer, and the headers X-Forwarded-For and Authorization as they come.
pub record Scope : Type 0 where
  pub type : Text
  pub path : Text
  pub method : Text
  pub client : Option Text
  pub forwarded_for : List Text
  pub authorization : List Text

pub record Bucket : Type 0 where
  pub tokens : ℕ
  pub updated : ℕ

abbrev pub Key : Type 0
Key = Text × Text

pub record Limits : Type 0 where
  pub burst : ℕ
  pub rate : ℕ
  pub unit : ℕ
  pub second : ℕ
  pub behind_proxy : Bool
  pub machine_token : Text

-- What stands before the first `c`, and after it.
abbrev up_to : ℕ → Text → Text
up_to c [] = []
up_to c (d ∷ s) = let rest = up_to c s in if d == c then [] else d ∷ rest

abbrev behind : ℕ → Text → Text
behind c [] = []
behind c (d ∷ s) = let rest = behind c s in if d == c then s else rest

abbrev or_address : Text → Text → Text
or_address [] rest = rest
or_address (c ∷ s) rest = c ∷ s

abbrev first_hop : List Text → Text → Text
first_hop [] ip = ip
first_hop (h ∷ hs) ip = or_address (strip (up_to b',' h)) (first_hop hs ip)

-- `_client_ip`
unfoldable pub client_ip : Limits → Scope → Text
client_ip l s =
    let ip = or_else s.client (text "unknown") in
    if l.behind_proxy then first_hop s.forwarded_for ip else ip

abbrev onto_first : ℕ → List Text → List Text
onto_first c [] = (c ∷ []) ∷ []
onto_first c (word ∷ rest) = (c ∷ word) ∷ rest

-- path.split("/")
abbrev split_path : Text → List Text
split_path [] = [] ∷ []
split_path (c ∷ s) = let rest = split_path s in if c == b'/' then [] ∷ rest else onto_first c rest

abbrev not_empty : List Text → List Text
not_empty [] = []
not_empty ([] ∷ rest) = not_empty rest
not_empty ((c ∷ s) ∷ rest) = (c ∷ s) ∷ not_empty rest

abbrev joined : List Text → Text
joined [] = []
joined (x ∷ []) = x
joined (x ∷ y ∷ rest) = x ++ (b'/' ∷ y)

-- `_key`: the address and two segments of the path.
unfoldable pub key_of : Limits → Scope → Key
key_of l s = (client_ip l s, b'/' ∷ joined (take 2 (not_empty (split_path s.path))))

unfoldable pub is_exempt_request : Scope → Bool
is_exempt_request s =
    not (text_eq s.type (text "http"))
    || contains
        (text "/health"
          ∷ text "/ready"
          ∷ text "/api/v1/ready"
          ∷ text "/api/auth/session"
          ∷ text "/api/auth/logout"
          ∷ [])
        s.path
    || starts_with s.path (text "/static")
    || text_eq s.method (text "OPTIONS")
    || text_eq s.path (text "/api/auth/login")

abbrev is_token : Text → Text → Option Bool
is_token expected [] = none
is_token expected (c ∷ s) = some (text_eq (c ∷ s) expected)

abbrev bearer : Text → Text → Option Bool
bearer expected h =
    if text_eq (lower (up_to b' ' h)) (text "bearer")
    then is_token expected (behind b' ' h)
    else none

abbrev any_bearer : Text → List Text → Bool
any_bearer expected [] = false
any_bearer expected (h ∷ hs) = or_else (bearer expected h) (any_bearer expected hs)

abbrev expects : Text → List Text → Bool
expects [] headers = false
expects (c ∷ s) headers = any_bearer (c ∷ s) headers

-- `_machine_client`
unfoldable pub machine_client : Limits → Scope → Bool
machine_client l s = expects l.machine_token s.authorization

abbrev pub Buckets : Type 0
Buckets = Key → Option Bucket

abbrev pub same_key : Key → Key → Bool
same_key (a, b) (c, d) = text_eq a c && text_eq b d

abbrev pub put : Key → Bucket → Buckets → Buckets
put k b buckets j = if same_key j k then some b else buckets j

abbrev pub refilled : Limits → ℕ → Option Bucket → ℕ
refilled l now none = min l.burst (l.burst + (now - now) * l.rate)
refilled l now (some b) = min l.burst (b.tokens + (now - b.updated) * l.rate)

-- Allowed or not, the seconds to wait, and the bucket.
abbrev pub spend : Limits → ℕ → ℕ → Bool × ℕ × Bucket
spend l now tokens =
    if leb l.unit tokens then (true, 0, record { tokens = tokens - l.unit; updated = now }) else (
      false,
      max 1 ((l.unit - tokens) / (l.rate * l.second) + 1),
      record { tokens = tokens; updated = now },
    )

abbrev pub is_free : Limits → Scope → Bool
is_free l s = is_exempt_request s || machine_client l s

unfoldable pub allow : Limits → Scope → ℕ → Buckets → Bool × ℕ × Buckets
allow l s now buckets =
    let k = key_of l s in
    let turn = spend l now (refilled l now (buckets k)) in
    if is_free l s then (true, 0, buckets) else (turn.0, turn.1, put k turn.2 buckets)

abbrev pub one_if : Bool → ℕ
one_if true = 1
one_if false = 0

abbrev pub counts : Limits → Key → Scope → Bool → ℕ
counts l k s allowed = one_if (allowed && (not (is_free l s) && same_key (key_of l s) k))

-- How many of the requests that draw on a bucket are allowed, each with its reading of the clock, in the
-- order in which they come.
unfoldable pub allowed_of : Limits → Key → List (Scope × ℕ) → Buckets → ℕ
allowed_of l k [] buckets = 0
allowed_of l k ((s, now) ∷ requests) buckets =
    let turn = allow l s now buckets in counts l k s turn.0 + allowed_of l k requests turn.2

-- `reset`, and the limiter as it starts.
abbrev pub reset : Buckets
reset k = none
