-- ===== src/Truth.antt =====
-- lead_engine/truth.py: FactsStore. Each call takes one reading of the clock; what `row` a write
-- returns to its caller is the fact or the conflict as it then stands.
pub mod Rows
pub mod Recording
pub mod Verdicts
pub mod Reading
pub mod Histories
pub mod Honesty
pub mod Keeping
pub mod Calls
pub mod Trail
pub mod Views
pub mod Notes
use lead_engine.Prelude.{
  ℕ, ◌+◌, ◌*◌, ◌-◌, ◌≡◌, min, max, Bool, true, false, not, ◌&&◌, ◌||◌, Option, none, some, List, [],
  ◌∷◌, ◌++◌, ◌==◌, zero, suc, ltb, leb, if◌then◌else◌, or_else, any, map, length, Text, text,
  text_eq, contains, lower, strip,
}
use lead_engine.Sql.{update_where, update_first, select_where, select_one}
use lead_engine.Sql.Keyed.{find_row}
use Rows.{
  Status, verified, conflicted, stale, unverified, inferred, SourceKind, search_api, email_verify,
  llm_inference, open_still, resolved_auto, resolved_human, Fact, Source, Conflict, Store, Context,
  fact_key, conflict_key, is_verified, in_org, org_of, lifetime, is_fresh, same_value, is_rival,
  is_open, opposes, is_pair, is_open_on, domain_of,
}

pub data Error : Type 0 where
  empty_value no_source no_organization fact_missing conflict_missing not_a_side open_conflict :
      Error

pub data Result {ℓ} (A : Type ℓ) : Type ℓ where
  ok : A → Result A
  err : Error → Result A

abbrev pub marked : Status → ℕ → Fact → Fact
marked status now f = record f { status = status; updated_at = now }

-- UPDATE research_facts SET … WHERE fact_id = ?
unfoldable pub set_fact : ℕ → (Fact → Fact) → Store → Store
set_fact id f s = record s { facts = update_where (λ x. x.fact_id == id) f s.facts }

-- `_has_open_conflict`
unfoldable pub has_open_conflict : ℕ → Store → Bool
has_open_conflict id s = any (opposes id) s.conflicts

abbrev visible : Context → Option Fact → Option Fact
visible ctx none = none
visible ctx (some f) = if not ctx.sqlite || in_org ctx f.organization_id then some f else none

unfoldable pub get_fact : Context → ℕ → Store → Option Fact
get_fact ctx id s = visible ctx (find_row fact_key id s.facts)

-- What a call says of where a value comes from.
pub record Origin : Type 0 where
  pub url : Option Text
  pub kind : SourceKind
  pub provider : Option Text
  pub query : Option Text
  pub quote : Option Text

abbrev same_kind : SourceKind → SourceKind → Bool
same_kind a b = kind_index a == kind_index b
  where
    kind_index : SourceKind → ℕ
    kind_index search_api = 0
    kind_index Rows.openmanus = 1
    kind_index Rows.apollo = 2
    kind_index Rows.hunter = 3
    kind_index Rows.abstract = 4
    kind_index email_verify = 5
    kind_index Rows.manual = 6
    kind_index llm_inference = 7

abbrev same_source : ℕ → Origin → Source → Bool
same_source id o x =
    x.of_fact == id
    && same_kind x.source_kind o.kind
    && text_eq (or_else x.source_url []) (or_else o.url [])
    && text_eq (or_else x.provider []) (or_else o.provider [])

abbrev new_source : ℕ → Origin → ℕ → Source
new_source id o now = record {
  of_fact = id;
  source_url = o.url;
  source_kind = o.kind;
  provider = o.provider;
  query = o.query;
  quote = o.quote;
  seen_at = now;
}

abbrev pub with_source : ℕ → Origin → ℕ → List Source → List Source
with_source id o now sources =
    if any (same_source id o) sources
    then update_first 1 (same_source id o) (λ x. record x { seen_at = now }) sources
    else sources ++ new_source id o now ∷ []

-- `_add_source`
unfoldable pub add_source : ℕ → Origin → ℕ → Store → Store
add_source id o now s = record s { sources = with_source id o now s.sources }

-- The subject and the field that a call is about.
pub record Topic : Type 0 where
  pub kind : Text
  pub subject : Text
  pub field : Text

abbrev pub new_conflict : ℕ → Option Text → Topic → ℕ → ℕ → Conflict
new_conflict id org t a b = record {
  conflict_id = id;
  conflict_org = org;
  kind = t.kind;
  subject = t.subject;
  on_field = t.field;
  fact_a = a;
  fact_b = b;
  winner = none;
  resolution = open_still;
  remark = none;
  resolved_by = none;
  resolved_at = none;
}

-- The INSERT, and both facts marked.
abbrev pub oppose : Option Text → Topic → ℕ → ℕ → ℕ → Store → Store
oppose org t a b now s = set_fact b (marked conflicted now) (
    set_fact a (marked conflicted now) (record s {
      conflicts = s.conflicts ++ new_conflict s.next_conflict org t a b ∷ [];
      next_conflict = s.next_conflict + 1;
    }))

abbrev pub is_opposed : Context → Topic → ℕ → ℕ → Store → Bool
is_opposed ctx t a b s =
    any (λ c. is_open_on ctx t.kind t.subject t.field c && is_pair a b c) s.conflicts

-- `_open_conflict`
unfoldable pub open_conflict_on : Context → Option Text → Topic → ℕ → ℕ → ℕ → Store → Store
open_conflict_on ctx org t a b now s = if is_opposed ctx t a b s then s else oppose org t a b now s

-- The loop of `_detect_conflicts`, over the rows that were selected at its start.
unfoldable pub oppose_all : Context → Option Text → Topic → ℕ → ℕ → List Fact → Store → Store
oppose_all ctx org t id now [] s = s
oppose_all ctx org t id now (other ∷ others) s =
    oppose_all ctx org t id now others
      (if is_fresh now other then open_conflict_on ctx org t other.fact_id id now s else s)

unfoldable pub detect_conflicts : Context → Option Text → Topic → ℕ → ℕ → Store → Store
detect_conflicts ctx org t id now s =
    oppose_all ctx org t id now (select_where (is_rival ctx t.kind t.subject t.field id) s.facts) s

abbrev is_observation : SourceKind → Bool
is_observation llm_inference = false
is_observation email_verify = false
is_observation _ = true

-- Items once each, as in a set.
unfoldable pub distinct : List Text → List Text
distinct [] = []
distinct (x ∷ xs) = let rest = distinct xs in if contains rest x then rest else x ∷ rest

module _ (hostname : Text → Text) where
  -- The independent sources of a fact.
  unfoldable pub witnesses : ℕ → Store → List Text
  witnesses id s = distinct (
      map (λ (x : Source). domain_of hostname x.source_url x.provider)
        (select_where (λ (x : Source). x.of_fact == id && is_observation x.source_kind) s.sources))

  abbrev pub status_of : ℕ → ℕ → Status × Option ℕ
  status_of confidence zero = (inferred, some confidence)
  status_of confidence (suc zero) = (unverified, some confidence)
  status_of confidence (suc (suc n)) = (verified, some (min 95 (50 + 15 * (n + 1))))

  abbrev pub computed : ℕ → Store → Option Fact → Status × Option ℕ
  computed id s none = (unverified, none)
  computed id s (some f) =
      if has_open_conflict id s
      then (conflicted, some f.confidence)
      else if is_verified f.status
      then (verified, some f.confidence)
      else status_of f.confidence (length (witnesses id s))

  -- `_recompute_status`: the confidence is none where there is no such fact.
  unfoldable pub recompute_status : ℕ → Store → Status × Option ℕ
  recompute_status id s = computed id s (find_row fact_key id s.facts)
