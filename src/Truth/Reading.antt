-- ===== src/Truth/Reading.antt =====
-- snapshot of lead_engine/truth.py: what a reader sees of a subject, field by field.
use lead_engine.Prelude.{
  ℕ, Bool, not, ◌&&◌, ◌||◌, Option, none, some, List, [], ◌∷◌, ◌==◌, ltb, if◌then◌else◌, any, map,
  sort_by, Text, text_eq,
}
use lead_engine.Sql.{select_where}
use lead_engine.Truth.Rows.{
  Status, conflicted, stale, Fact, Conflict, Store, Context, is_stale, is_current, rank, in_org,
  is_fresh, is_open_on,
}
use lead_engine.Truth.{marked, set_fact}

abbrev of_subject : Context → Text → Text → Fact → Bool
of_subject ctx kind subject f =
    text_eq f.subject_kind kind && text_eq f.subject_id subject && in_org ctx f.organization_id

-- ORDER BY collected_at DESC
abbrev later : Fact → Fact → Bool
later a b = ltb b.collected_at a.collected_at

abbrev pub has_lapsed : ℕ → Fact → Bool
has_lapsed now f = is_current f.status && not (is_fresh now f)

-- `_apply_freshness`: the rows as read, and the table.
abbrev pub aged : ℕ → Fact → Fact
aged now f = if has_lapsed now f then record f { status = stale } else f

unfoldable pub write_stale : ℕ → List Fact → Store → Store
write_stale now [] s = s
write_stale now (f ∷ fs) s =
    write_stale now fs (if has_lapsed now f then set_fact f.fact_id (marked stale now) s else s)

unfoldable pub read_facts : Context → Text → Text → ℕ → Store → List Fact
read_facts ctx kind subject now s =
    map (aged now) (sort_by later (select_where (of_subject ctx kind subject) s.facts))

unfoldable pub apply_freshness : Context → Text → Text → ℕ → Store → Store
apply_freshness ctx kind subject now s =
    write_stale now (sort_by later (select_where (of_subject ctx kind subject) s.facts)) s

-- The sort key of the current value: rank, confidence, date, each the higher the better.
abbrev pub better : Fact → Fact → Bool
better a b =
    ltb (rank b.status) (rank a.status)
    || rank a.status == rank b.status
      && (ltb b.confidence a.confidence
          || b.confidence == a.confidence && ltb b.collected_at a.collected_at)

pub record FieldView : Type 0 where
  pub current : Fact
  pub status : Status
  pub alternatives : List Fact

-- [f for f in group if not stale] or group
abbrev pub or_group : List Fact → List Fact → List Fact
or_group [] group = group
or_group (f ∷ fs) group = f ∷ fs

abbrev pub is_live : Fact → Bool
is_live f = not (is_stale f.status)

abbrev pub opposed_in : List Conflict → Fact → Bool
opposed_in conflicts f = any (λ c. c.fact_a == f.fact_id || c.fact_b == f.fact_id) conflicts

abbrev pub view_of : List Conflict → List Fact → List Fact → Option FieldView
view_of conflicts group [] = none
view_of conflicts group (f ∷ rest) = some (record {
  current = f;
  status = if any (opposed_in conflicts) group then conflicted else f.status;
  alternatives = select_where is_live rest;
})

abbrev pub group_of : Text → List Fact → List Fact
group_of field facts = select_where (λ (f : Fact). text_eq f.field field) facts

-- One entry of the snapshot's `fields`: none where the subject has no fact of the field.
unfoldable pub field_view : Context → Text → Text → Text → ℕ → Store → Option FieldView
field_view ctx kind subject field now s =
    let group = group_of field (read_facts ctx kind subject now s) in
    let open_conflicts =
      select_where (is_open_on ctx kind subject [])
        (apply_freshness ctx kind subject now s).conflicts in
    view_of open_conflicts group (sort_by better (or_group (select_where is_live group) group))
