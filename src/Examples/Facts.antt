-- ===== src/Examples/Facts.antt =====
-- lead_engine/truth.py on two phone numbers of one company, of which a reviewer picks the first.
use lead_engine.Prelude.{
  ℕ, ◌≡◌, refl, true, false, Option, none, some, List, [], ◌∷◌, any, sort_by, insert_by, Text, text,
  strip, strip_left, strip_right, contains, starts_with, ends_with, lower, text_eq,
}
use lead_engine.Sql.{update_where, update_first, select_where, select_one}
use lead_engine.Sql.Keyed.{find_row}
use lead_engine.Truth.Rows.{
  verified, manual, Fact, Store, Context, fact_key, is_open_on, lifetime, domain_of,
}
use lead_engine.Truth.{
  Topic, set_fact, has_open_conflict, get_fact, add_source, open_conflict_on, oppose_all,
  detect_conflicts, distinct, witnesses, recompute_status,
}
use lead_engine.Truth.Recording.{Observation, stored_value, freshen, insert_fact, record_fact}
use lead_engine.Truth.Verdicts.{settle, resolve_conflict}
use lead_engine.Truth.Reading.{
  write_stale, read_facts, apply_freshness, FieldView, group_of, field_view,
}
use lead_engine.Truth.Histories.{Call, records, resolves, reads, apply, run, empty_store}
use lead_engine.Truth.Calls.{run-has_open_conflict}
use lead_engine.Truth.Trail.{SaysSame, run-SaysSame}
use lead_engine.Truth.Views.{IsBacked, field_view-IsBacked}

abbrev host : Text → Text
host url = url

abbrev days : Text → Option ℕ
days kind = some 30

abbrev local : Context
local = record { sqlite = true; org = none }

abbrev topic : Topic
topic = record { kind = text "company"; subject = text "acme"; field = text "phone" }

abbrev seen : Text → Text → Observation
seen value site = record {
  topic = topic;
  raw_value = some value;
  origin = record { url = some site; kind = manual; provider = none; query = none; quote = none };
  job = none;
  run = none;
  value_kind = text "text";
  stated_confidence = none;
  is_inferred = false;
}

-- Two values that contradict each other, and a verdict for the first.
abbrev calls : List Call
calls =
    records local (seen (text "111") (text "acme.com")) 10
    ∷ records local (seen (text " 222") (text "list.org")) 20
    ∷ resolves 0 0 false none (some (text "eva")) 30
    ∷ []

abbrev settled_store : Store
settled_store = run host days calls empty_store

abbrev picked : Fact
picked = record {
  fact_id = 0;
  organization_id = some (text "shared");
  subject_kind = text "company";
  subject_id = text "acme";
  field = text "phone";
  value = text "111";
  value_kind = text "text";
  status = verified;
  confidence = 85;
  job_id = none;
  run_id = none;
  collected_at = 10;
  expires_at = some 2592010;
  created_at = 10;
  updated_at = 30;
}

abbrev shown : FieldView
shown = record { current = picked; status = verified; alternatives = [] }

is_picked : find_row fact_key 0 settled_store.facts ≡ some picked
unfolding any distinct sort_by insert_by strip strip_left strip_right contains starts_with ends_with
    lower update_where update_first select_where select_one find_row lifetime domain_of set_fact
    has_open_conflict get_fact add_source open_conflict_on oppose_all detect_conflicts witnesses
    recompute_status stored_value freshen insert_fact record_fact settle resolve_conflict apply run
    text_eq
is_picked = refl

is_shown :
    field_view local (text "company") (text "acme") (text "phone") 40 settled_store ≡ some shown
unfolding any distinct sort_by insert_by strip strip_left strip_right contains starts_with ends_with
    lower update_where update_first select_where select_one find_row lifetime domain_of set_fact
    has_open_conflict get_fact add_source open_conflict_on oppose_all detect_conflicts witnesses
    recompute_status stored_value freshen insert_fact record_fact settle resolve_conflict apply run
    text_eq write_stale read_facts apply_freshness field_view
is_shown = refl

run-has_open_conflict_example : has_open_conflict 0 settled_store ≡ false
run-has_open_conflict_example = run-has_open_conflict host days calls 0 picked is_picked refl

-- The row after a read that finds it out of date.
run-SaysSame_example :
    (g : Fact) × (find_row fact_key 0
        (run host days
          (reads local (text "company") (text "acme") 3000000 ∷ [])
          settled_store).facts
      ≡ some g)
    × SaysSame picked g
run-SaysSame_example =
    run-SaysSame host days (reads local (text "company") (text "acme") 3000000 ∷ []) settled_store 0
      picked is_picked

field_view-IsBacked_example :
    IsBacked 40
      (select_where
        (is_open_on local (text "company") (text "acme") [])
        (apply_freshness local (text "company") (text "acme") 40 settled_store).conflicts)
      (group_of (text "phone") (read_facts local (text "company") (text "acme") 40 settled_store))
      shown
field_view-IsBacked_example =
    field_view-IsBacked local (text "company") (text "acme") (text "phone") 40 settled_store shown
      is_shown refl
