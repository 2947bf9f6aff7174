-- ===== src/Outreach.antt =====
-- lead_engine/policy.py: the outreach gate. Of an organization the model keeps its enabled channels;
-- volumes are counts, and a baseline that is not positive is 0. Letters beyond ASCII have no case,
-- and white space is ASCII's.
pub mod Blocking
use lead_engine.Prelude.{
  ℕ, ◌+◌, ◌*◌, ◌≡◌, Bool, true, false, not, ◌&&◌, ◌||◌, Option, none, some, List, [], ◌∷◌, ◌++◌,
  ◌==◌, ltb, leb, if◌then◌else◌, Text, text, text_eq, contains, lower, strip,
}
use lead_engine.Sql.{update_where, select_one, delete_where, count_where}
use lead_engine.Sql.Ordered.{first_by}

pub data Verdict : Type 0 where
  allow block review : Verdict

-- A row of suppression_entries.
pub record Entry : Type 0 where
  pub id : ℕ
  pub organization_id : ℕ
  pub channel : Text
  pub value : Text
  pub reason : Text
  pub source : Text
  pub created_at : ℕ

-- value.strip().lower()
unfoldable pub clean : Text → Text
clean s = lower (strip s)

abbrev or_all : Text → Text
or_all [] = text "all"
or_all (c ∷ s) = c ∷ s

unfoldable pub normalize : Text → Text → Text × Text
normalize channel value = (clean (or_all channel), clean value)

-- organization_id = ? AND channel IN (?, 'all') AND value = ?
abbrev pub covers_target : ℕ → Text × Text → Entry → Bool
covers_target org (channel, value) e =
    e.organization_id == org
    && (text_eq e.channel channel || text_eq e.channel (text "all"))
    && text_eq e.value value

-- ORDER BY created_at DESC
abbrev pub newer : Entry → Entry → Bool
newer a b = ltb b.created_at a.created_at

abbrev pub reason_of : Option Entry → Option Text
reason_of none = none
reason_of (some e) = some e.reason

-- The reason, where the target is suppressed.
unfoldable pub is_suppressed : ℕ → Text → Text → List Entry → Option Text
is_suppressed org channel [] entries = none
is_suppressed org channel (c ∷ s) entries =
    reason_of (first_by newer (covers_target org (normalize channel (c ∷ s))) entries)

-- organization_id = ? AND channel = ? AND value = ?
abbrev pub is_target : ℕ → Text × Text → Entry → Bool
is_target org (channel, value) e =
    e.organization_id == org && text_eq e.channel channel && text_eq e.value value

abbrev pub renewed : Text → Text → ℕ → Entry → Entry
renewed reason source now e = record e { reason = reason; source = source; created_at = now }

abbrev pub new_entry : ℕ → ℕ → Text × Text → Text → Text → ℕ → Entry
new_entry id org (channel, value) reason source now = record {
  id = id;
  organization_id = org;
  channel = channel;
  value = value;
  reason = reason;
  source = source;
  created_at = now;
}

abbrev pub add_found :
    ℕ → ℕ → Text × Text → Text → Text → ℕ → List Entry → Option Entry → List Entry
add_found id org target reason source now entries none =
    entries ++ new_entry id org target reason source now ∷ []
add_found id org target reason source now entries (some e) =
    update_where (λ x. x.id == e.id) (renewed reason source now) entries

-- Suppression.add, where `id` is what the database would give a new row.
unfoldable pub add : ℕ → ℕ → Text → Text → Text → Text → ℕ → List Entry → List Entry
add id org channel value reason source now entries =
    let target = normalize channel value in
    add_found id org target reason source now entries (select_one (is_target org target) entries)

-- `suppress_bounced`: whether the address was added. BOUNCE_STATUSES has one member.
abbrev bounced : ℕ → ℕ → Option Text → Bool → ℕ → List Entry → Bool × List Entry
bounced id org none is_invalid now entries = (false, entries)
bounced id org (some []) is_invalid now entries = (false, entries)
bounced id org (some (c ∷ s)) is_invalid now entries =
    if is_invalid
    then (true, add id org (text "email") (c ∷ s) (text "bounced") (text "pipeline") now entries)
    else (false, entries)

abbrev is_bounce : Option Text → Bool
is_bounce none = false
is_bounce (some status) = text_eq status (text "INVALID")

unfoldable pub suppress_bounced :
    ℕ → ℕ → Option Text → Option Text → ℕ → List Entry → Bool × List Entry
suppress_bounced id org email status now entries =
    bounced id org email (is_bounce status) now entries

abbrev pub is_entry : ℕ → ℕ → Entry → Bool
is_entry org id e = e.organization_id == org && e.id == id

unfoldable pub remove : ℕ → ℕ → List Entry → Bool × List Entry
remove org id entries =
    (ltb 0 (count_where (is_entry org id) entries), delete_where (is_entry org id) entries)

pub data Level : Type 0 where
  unknown high medium low : Level

-- ratio > 10 and ratio > 3, multiplied out.
unfoldable pub level : ℕ → ℕ → Level
level recent_sends baseline =
    if baseline == 0
    then unknown
    else if ltb (10 * baseline) recent_sends
    then high
    else if ltb (3 * baseline) recent_sends
    then medium
    else low

abbrev is_high : Level → Bool
is_high high = true
is_high _ = false

abbrev pub channel_ok : List Text → Text → Bool
channel_ok channels channel = contains channels channel || contains channels (text "all")

pub data Concern : Type 0 where
  suppressed_for channel_off : Text → Concern
  volume : Concern

abbrev pub suppression_step : Option Text → Verdict × List Concern
suppression_step none = (allow, [])
suppression_step (some reason) = (block, suppressed_for reason ∷ [])

abbrev pub channel_step : Bool → Text → Verdict × List Concern → Verdict × List Concern
channel_step true channel r = r
channel_step false channel (v, concerns) = (block, concerns ++ channel_off channel ∷ [])

abbrev is_allow : Verdict → Bool
is_allow allow = true
is_allow _ = false

abbrev pub risk_step : Bool → Verdict × List Concern → Verdict × List Concern
risk_step high_risk (v, concerns) =
    if high_risk && is_allow v then (review, concerns ++ volume ∷ []) else (v, concerns)

-- PolicyGate.evaluate, less the trace of its checks.
unfoldable pub evaluate : List Text → ℕ → Text → Text → ℕ → ℕ → List Entry → Verdict × List Concern
evaluate channels org channel value recent_sends baseline entries =
    risk_step (is_high (level recent_sends baseline)) (
      channel_step (channel_ok channels channel) channel
        (suppression_step (is_suppressed org channel value entries)))
