-- ===== src/Truth/Rows.antt =====
-- The tables research_facts, fact_sources and fact_conflicts of lead_engine/truth.py, and what its
-- statements select. Confidence is in hundredths; ids are numbers.
use lead_engine.Prelude.{
  ℕ, ◌*◌, Bool, true, false, not, ◌&&◌, ◌||◌, Option, none, some, List, [], ◌∷◌, ◌++◌, ◌==◌, ltb,
  if◌then◌else◌, or_else, Text, text, text_eq, contains, ends_with, starts_with, lower, drop,
}

pub data Status : Type 0 where
  verified conflicted stale unverified inferred : Status

-- SOURCE_KINDS; a kind that is not among them arrives as search_api.
pub data SourceKind : Type 0 where
  search_api openmanus apollo hunter abstract email_verify manual llm_inference : SourceKind

pub data Resolution : Type 0 where
  open_still resolved_auto resolved_human : Resolution

pub record Fact : Type 0 where
  pub fact_id : ℕ
  pub organization_id : Option Text
  pub subject_kind : Text
  pub subject_id : Text
  pub field : Text
  pub value : Text
  pub value_kind : Text
  pub status : Status
  pub confidence : ℕ
  pub job_id : Option ℕ
  pub run_id : Option ℕ
  pub collected_at : ℕ
  pub expires_at : Option ℕ
  pub created_at : ℕ
  pub updated_at : ℕ

pub record Source : Type 0 where
  pub of_fact : ℕ
  pub source_url : Option Text
  pub source_kind : SourceKind
  pub provider : Option Text
  pub query : Option Text
  pub quote : Option Text
  pub seen_at : ℕ

pub record Conflict : Type 0 where
  pub conflict_id : ℕ
  pub conflict_org : Option Text
  pub kind : Text
  pub subject : Text
  pub on_field : Text
  pub fact_a : ℕ
  pub fact_b : ℕ
  pub winner : Option ℕ
  pub resolution : Resolution
  pub remark : Option Text
  pub resolved_by : Option Text
  pub resolved_at : Option ℕ

-- `next_fact` and `next_conflict` stand for the random ids of new rows.
pub record Store : Type 0 where
  pub facts : List Fact
  pub sources : List Source
  pub conflicts : List Conflict
  pub next_fact : ℕ
  pub next_conflict : ℕ

-- The database behind the store: its dialect and the organization it is bound to.
pub record Context : Type 0 where
  pub sqlite : Bool
  pub org : Option Text

abbrev pub fact_key : Fact → ℕ
fact_key f = f.fact_id

abbrev pub conflict_key : Conflict → ℕ
conflict_key c = c.conflict_id

abbrev pub is_verified : Status → Bool
is_verified verified = true
is_verified _ = false

abbrev pub is_stale : Status → Bool
is_stale stale = true
is_stale _ = false

-- status IN ('VERIFIED','UNVERIFIED','CONFLICTED')
abbrev pub is_current : Status → Bool
is_current verified = true
is_current unverified = true
is_current conflicted = true
is_current _ = false

-- _RANK, raised by one.
abbrev pub rank : Status → ℕ
rank verified = 4
rank unverified = 3
rank inferred = 2
rank conflicted = 1
rank stale = 0

abbrev or_shared : Option Text → Text
or_shared none = text "shared"
or_shared (some []) = text "shared"
or_shared (some (c ∷ s)) = c ∷ s

abbrev is_org : Option Text → Text → Bool
is_org none t = false
is_org (some s) t = text_eq s t

abbrev is_null : Option Text → Bool
is_null none = true
is_null (some s) = false

abbrev in_pg_org : Option Text → Option Text → Bool
in_pg_org none row = is_null row
in_pg_org (some []) row = is_null row
in_pg_org (some (c ∷ s)) row = is_org row (c ∷ s)

-- `_org_eq`
abbrev pub in_org : Context → Option Text → Bool
in_org ctx row = if ctx.sqlite then is_org row (or_shared ctx.org) else in_pg_org ctx.org row

abbrev of_pg : Option Text → Option Text
of_pg none = none
of_pg (some []) = none
of_pg (some (c ∷ s)) = some (c ∷ s)

-- `_org`: none where it raises OrgContextRequired.
abbrev pub org_of : Context → Option Text
org_of ctx = if ctx.sqlite then some (or_shared ctx.org) else of_pg ctx.org

-- FIELD_TTL_MAP
abbrev pub data_type_of : Text → Text
data_type_of field =
    if contains (text "email" ∷ text "phone" ∷ text "decision_maker" ∷ text "industry" ∷ []) field
    then field
    else if contains (text "decision_maker_title" ∷ text "linkedin" ∷ []) field
    then text "decision_maker"
    else if contains (text "domain" ∷ text "website" ∷ []) field
    then text "company_domain"
    else if contains (text "employee_count" ∷ text "branches" ∷ []) field
    then text "employee_estimate"
    else if contains (text "city" ∷ text "country" ∷ text "address" ∷ []) field
    then text "location"
    else text "website_content"

-- In seconds; the policy's days are a function of the data type.
unfoldable pub lifetime : (Text → Option ℕ) → Text → ℕ
lifetime policy field = or_else (policy (data_type_of field)) 7 * 86400

abbrev after : Option ℕ → ℕ → Bool
after none now = true
after (some t) now = ltb now t

abbrev pub is_fresh : ℕ → Fact → Bool
is_fresh now f = after f.expires_at now

abbrev pub about : Text → Text → Text → Fact → Bool
about kind subject field f =
    text_eq f.subject_kind kind && text_eq f.subject_id subject && text_eq f.field field

abbrev pub same_value : Context → Text → Text → Text → Text → Fact → Bool
same_value ctx kind subject field value f =
    about kind subject field f && text_eq f.value value && in_org ctx f.organization_id

-- The other values of the field that are current.
abbrev pub is_rival : Context → Text → Text → Text → ℕ → Fact → Bool
is_rival ctx kind subject field id f =
    about kind subject field f
    && not (f.fact_id == id)
    && is_current f.status
    && in_org ctx f.organization_id

abbrev pub is_open : Conflict → Bool
is_open c = elim c.resolution [ open_still ↦ true | _ ↦ false ]

-- An OPEN conflict on the fact.
abbrev pub opposes : ℕ → Conflict → Bool
opposes id c = is_open c && (c.fact_a == id || c.fact_b == id)

abbrev pub is_pair : ℕ → ℕ → Conflict → Bool
is_pair a b c = c.fact_a == a && c.fact_b == b || c.fact_a == b && c.fact_b == a

-- An empty filter of `conflicts` selects all.
abbrev passes : Text → Text → Bool
passes [] t = true
passes (c ∷ s) t = text_eq t (c ∷ s)

abbrev pub is_open_on : Context → Text → Text → Text → Conflict → Bool
is_open_on ctx kind subject field c =
    passes kind c.kind
    && passes subject c.subject
    && passes field c.on_field
    && is_open c
    && in_org ctx c.conflict_org

abbrev drop_dots : Text → Text
drop_dots [] = []
drop_dots (c ∷ s) = keep c (drop_dots s)
  where
    keep : ℕ → Text → Text
    keep c [] = if c == b'.' then [] else c ∷ []
    keep c (d ∷ t) = c ∷ d ∷ t

abbrev drop_www : Text → Text
drop_www s = if starts_with s (text "www.") then drop 4 s else s

abbrev or_unknown : Option Text → Text
or_unknown none = text "unknown"
or_unknown (some []) = text "unknown"
or_unknown (some (c ∷ s)) = c ∷ s

abbrev by_provider : Option Text → Text
by_provider p = text "provider:" ++ lower (or_unknown p)

abbrev is_own_host : Text → Text → Bool
is_own_host host [] = false
is_own_host host (c ∷ s) = text_eq host (c ∷ s) || ends_with host (b'.' ∷ c ∷ s)

abbrev host_key : Text → Option Text → Text
host_key [] provider = by_provider provider
host_key (c ∷ s) provider =
    if is_own_host (c ∷ s) (lower (or_else provider []))
    then text "provider:" ++ lower (or_else provider [])
    else c ∷ s

-- `_domain_of`, where `hostname` is the host of a URL, as urlparse reads it.
unfoldable pub domain_of : (Text → Text) → Option Text → Option Text → Text
domain_of hostname none provider = by_provider provider
domain_of hostname (some []) provider = by_provider provider
domain_of hostname (some (c ∷ s)) provider =
    host_key (drop_www (drop_dots (lower (hostname (c ∷ s))))) provider
