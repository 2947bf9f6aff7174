-- ===== src/Truth/Recording.antt =====
-- record_fact of lead_engine/truth.py.
use lead_engine.Prelude.{
  ℕ, ◌+◌, Bool, true, false, ◌||◌, Option, none, some, [], ◌∷◌, ◌++◌, ◌==◌, if◌then◌else◌, or_else,
  any, Text, text, lower, strip,
}
use lead_engine.Sql.{select_one}
use lead_engine.Truth.Rows.{
  Status, unverified, inferred, llm_inference, Fact, Store, Context, org_of, lifetime, same_value,
}
use lead_engine.Truth.{
  empty_value, no_source, no_organization, Result, ok, err, set_fact, get_fact, Origin, add_source,
  Topic, detect_conflicts, recompute_status,
}

-- The observation that `record_fact` records.
pub record Observation : Type 0 where
  pub topic : Topic
  pub raw_value : Option Text
  pub origin : Origin
  pub job : Option ℕ
  pub run : Option ℕ
  pub value_kind : Text
  pub stated_confidence : Option ℕ
  pub is_inferred : Bool

abbrev lower_address : Text → Text
lower_address v = if any (λ c. c == b'@') v then lower v else v

-- The value as it is stored.
unfoldable pub stored_value : Option Text → Text
stored_value none = []
stored_value (some v) = lower_address (strip v)

abbrev is_given : Option Text → Bool
is_given none = false
is_given (some []) = false
is_given (some (c ∷ s)) = true

abbrev pub has_source : Origin → Bool
has_source o = is_given o.url || is_given o.provider

-- A fact without a source keeps its rationale as one.
abbrev pub rationale : Origin → Origin
rationale o = record o {
  url = none;
  kind = llm_inference;
  quote = if is_given o.quote then o.quote else some (text "inferred without a direct source");
}

abbrev pub origin_of_new : Origin → Origin
origin_of_new o = if has_source o then o else rationale o

abbrev pub first_status : Bool → Status
first_status true = inferred
first_status false = unverified

abbrev first_confidence : Observation → ℕ
first_confidence o = or_else o.stated_confidence (if o.is_inferred then 30 else 50)

abbrev or_this {ℓ} : {A : Type ℓ} → Option A → Option A → Option A
or_this none b = b
or_this (some a) b = some a

module _ (hostname : Text → Text) (policy : Text → Option ℕ) (ctx : Context) where
  abbrev pub new_fact : ℕ → Text → Text → Observation → ℕ → Fact
  new_fact id org value o now = record {
    fact_id = id;
    organization_id = some org;
    subject_kind = o.topic.kind;
    subject_id = o.topic.subject;
    field = o.topic.field;
    value = value;
    value_kind = o.value_kind;
    status = first_status o.is_inferred;
    confidence = first_confidence o;
    job_id = o.job;
    run_id = o.run;
    collected_at = now;
    expires_at = some (now + lifetime policy o.topic.field);
    created_at = now;
    updated_at = now;
  }

  abbrev pub freshened : Status × Option ℕ → Observation → ℕ → ℕ → Fact → Fact
  freshened (status, confidence) o former now f = record f {
    status = status;
    confidence = or_else confidence former;
    collected_at = now;
    expires_at = some (now + lifetime policy o.topic.field);
    job_id = or_this o.job f.job_id;
    run_id = or_this o.run f.run_id;
    updated_at = now;
  }

  abbrev pub settled : Status × Option ℕ → ℕ → Fact → Fact
  settled (status, confidence) now f = record f {
    status = status;
    confidence = or_else confidence 50;
    updated_at = now;
  }

  -- The value is there already: a new source, its conflicts, its status and a new clock.
  unfoldable pub freshen : Text → Observation → ℕ → Fact → Store → Store
  freshen org o now f s =
      let sourced = if has_source o.origin then add_source f.fact_id o.origin now s else s in
      let checked = detect_conflicts ctx (some org) o.topic f.fact_id now sourced in
      set_fact f.fact_id
        (freshened (recompute_status hostname f.fact_id checked) o f.confidence now) checked

  abbrev pub inserted : ℕ → Text → Text → Observation → ℕ → Store → Store
  inserted id org value o now s = record s {
    facts = s.facts ++ new_fact id org value o now ∷ [];
    next_fact = id + 1;
  }

  -- A value that is not there yet.
  unfoldable pub insert_fact : Text → Text → Observation → ℕ → Store → Store
  insert_fact org value o now s =
      let id = s.next_fact in
      let sourced = add_source id (origin_of_new o.origin) now (inserted id org value o now s) in
      let checked = detect_conflicts ctx (some org) o.topic id now sourced in
      set_fact id (settled (recompute_status hostname id checked) now) checked

  abbrev pub recorded : Text → Text → Observation → ℕ → Store → Option Fact → ℕ × Store
  recorded org value o now s none = (s.next_fact, insert_fact org value o now s)
  recorded org value o now s (some f) = (f.fact_id, freshen org o now f s)

  abbrev returned : ℕ × Store → Result (Option Fact) × Store
  returned (id, s) = (ok (get_fact ctx id s), s)

  abbrev pub recorded_in :
      Option Text → Text → Observation → ℕ → Store → Result (Option Fact) × Store
  recorded_in none value o now s = (err no_organization, s)
  recorded_in (some org) value o now s = returned (
      recorded org value o now s
        (select_one (same_value ctx o.topic.kind o.topic.subject o.topic.field value) s.facts))

  abbrev pub recorded_value : Text → Observation → ℕ → Store → Result (Option Fact) × Store
  recorded_value [] o now s = (err empty_value, s)
  recorded_value (c ∷ v) o now s =
      if has_source o.origin || o.is_inferred
      then recorded_in (org_of ctx) (c ∷ v) o now s
      else (err no_source, s)

  unfoldable pub record_fact : Observation → ℕ → Store → Result (Option Fact) × Store
  record_fact o now s = recorded_value (stored_value o.raw_value) o now s
