-- ===== src/Truth/Views.antt =====
-- What it takes for a snapshot to call a value VERIFIED.
use lead_engine.Prelude.{
  ℕ, ◌≡◌, inl, inr, true, false, Option, some, List, [], ◌∷◌, arith, any, All, map, sort_by,
  All-sort_by, Text, text_eq, Bool-cases,
}
use lead_engine.Sql.{select_where, All-select_where}
use lead_engine.Truth.Rows.{
  Status, verified, conflicted, stale, Fact, Conflict, Store, Context, is_fresh, is_open_on,
}
use lead_engine.Truth.Reading.{
  aged, has_lapsed, read_facts, apply_freshness, better, FieldView, or_group, is_live, opposed_in,
  view_of, group_of, field_view,
}

abbrev IsFreshIfVerified : ℕ → Fact → Type 0
IsFreshIfVerified now f = f.status ≡ verified → is_fresh now f ≡ true

aged-IsFresh : (now : ℕ) (f : Fact) → IsFreshIfVerified now (aged now f)
aged-IsFresh now f q = elim (Bool-cases (has_lapsed now f)) [
  | inl e ↦ absurd (left_out (rw e at q))
  | inr e ↦ rw e (in_time e (rw e at q))
]
  where
    left_out : stale ≡ verified → ⊥
    left_out e = cc

    in_time : has_lapsed now f ≡ false → f.status ≡ verified → is_fresh now f ≡ true
    in_time e s = ground (arith, e, s)

All-aged : (now : ℕ) (fs : List Fact) → All (IsFreshIfVerified now) (map (aged now) fs)
All-aged now [] = tt
All-aged now (f ∷ fs) = (aged-IsFresh now f, All-aged now fs)

All-or_group {κ} :
    (P : Fact → Type κ) (fs group : List Fact) → All P fs → All P group → All P (or_group fs group)
All-or_group P [] group h k = k
All-or_group P (f ∷ fs) group h k = h

none_opposed :
    (cs : List Conflict) (fs : List Fact)
    → any (opposed_in cs) fs ≡ false
    → All (λ f. opposed_in cs f ≡ false) fs
unfolding any
none_opposed cs [] h = tt
none_opposed cs (f ∷ fs) h = (ground arith, none_opposed cs fs (ground arith))

-- What stands behind a VERIFIED entry.
pub record IsBacked (now : ℕ) (cs : List Conflict) (group : List Fact) (v : FieldView)
    : Type 0 where
  pub is_checked : v.current.status ≡ verified
  pub is_in_time : is_fresh now v.current ≡ true
  pub unopposed : All (λ f. opposed_in cs f ≡ false) group

view_of-IsBacked :
    (now : ℕ) (cs : List Conflict) (group ranked : List Fact) (v : FieldView)
    → All (IsFreshIfVerified now) ranked
    → view_of cs group ranked ≡ some v
    → v.status ≡ verified
    → IsBacked now cs group v
view_of-IsBacked now cs group [] v h e q = absurd (cc)
view_of-IsBacked now cs group (f ∷ rest) v h e q = elim (Bool-cases (any (opposed_in cs) group)) [
  | inl o ↦ absurd (clash (rw o at e))
  | inr free ↦ backed free (rw free at e)
]
  where
    shown : (st : Status) → Option FieldView
    shown st = some (record { current = f; status = st; alternatives = select_where is_live rest })

    cur : f ≡ v.current → is_fresh now f ≡ true → is_fresh now v.current ≡ true
    cur m k = rw (← m) k

    clash : shown conflicted ≡ some v → ⊥
    clash d = cc

    backed : any (opposed_in cs) group ≡ false → shown f.status ≡ some v → IsBacked now cs group v
    backed free d =
        let st : f.status ≡ verified = cc in
        record {
          is_checked = cc;
          is_in_time = cur (cc) (h.0 st);
          unopposed = none_opposed cs group free;
        }

group-IsFresh :
    (ctx : Context) (kind subject field : Text) (now : ℕ) (s : Store)
    → All (IsFreshIfVerified now) (group_of field (read_facts ctx kind subject now s))
unfolding read_facts
group-IsFresh ctx kind subject field now s =
    All-select_where (IsFreshIfVerified now) (λ f. text_eq f.field field)
      (read_facts ctx kind subject now s) (All-aged now _)

-- An entry of a snapshot is VERIFIED only where its current fact is VERIFIED, its time has not run
-- out at this reading of the clock, and no fact of the field is in an OPEN conflict of the subject.
pub field_view-IsBacked :
    (ctx : Context) (kind subject field : Text) (now : ℕ) (s : Store) (v : FieldView)
    → field_view ctx kind subject field now s ≡ some v
    → v.status ≡ verified
    → IsBacked now
        (select_where
          (is_open_on ctx kind subject [])
          (apply_freshness ctx kind subject now s).conflicts)
        (group_of field (read_facts ctx kind subject now s))
        v
unfolding field_view
field_view-IsBacked ctx kind subject field now s v e q =
    let group = group_of field (read_facts ctx kind subject now s) in
    let fresh = group-IsFresh ctx kind subject field now s in
    let opposing =
      select_where (is_open_on ctx kind subject [])
        (apply_freshness ctx kind subject now s).conflicts in
    let live = or_group (select_where is_live group) group in
    view_of-IsBacked now opposing group (sort_by better live) v
      (All-sort_by better (IsFreshIfVerified now) live (
        All-or_group (IsFreshIfVerified now) (select_where is_live group) group
          (All-select_where (IsFreshIfVerified now) is_live group fresh) fresh))
      e q
