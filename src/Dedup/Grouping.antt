-- ===== src/Dedup/Grouping.antt =====
-- The records that DedupEngine.run of lead_engine/pipeline/dedup.py makes of its groups.
use lead_engine.Prelude.{
  ℕ, suc, ◌+◌, ◌<◌, ◌≡◌, refl, sym, ap, ◌∙◌, inl, inr, Option, none, some, List, [], ◌∷◌, arith,
  ◌==◌, ==_iff, Bool-cases, Option-cases, All, All-append, length, length-append, Text,
}
use lead_engine.Sql.{All-of}
use lead_engine.Dedup.Forest.{Forest, found, after_find}
use lead_engine.Dedup.Roots.{root, find-root}
use lead_engine.Dedup.Domains.{IsSound, same_domain}
use lead_engine.Dedup.Stages.{domain, Lead, get_elem?, dom_of, dom_at, push, clustered}
use lead_engine.Dedup.Merge.{
  Merged, or_next, first_given, merge_group, members_of, by_root, merge_all, mark_review, mark_all,
  groups_of, run,
}
use lead_engine.Dedup.Clusters.{after_find-IsSound, clustered-IsSound}

-- Each group holds leads of its own root only, and at least one.
abbrev pub HasRoot : (ℕ → ℕ) → ℕ × List ℕ → Type 0
HasRoot p (r, is) = All (λ i. root i p ≡ r) is × (0 < length is)

abbrev pub total : List (ℕ × List ℕ) → ℕ
total [] = 0
total ((r, is) ∷ groups) = length is + total groups

module _ (p : ℕ → ℕ) where
  push-HasRoot :
      (r i : ℕ) (groups : List (ℕ × List ℕ))
      → root i p ≡ r
      → All (HasRoot p) groups
      → All (HasRoot p) (push ◌==◌ r i groups)
  unfolding push
  push-HasRoot r i [] e h = (((e, tt), omega arith), tt)
  push-HasRoot r i ((q, is) ∷ groups) e h = elim (Bool-cases (q == r)) [
    | inl m ↦ rw m (
      (
        All-append _ is (i ∷ []) h.0.0 (e ∙ sym ((==_iff q r).0 m), tt),
        omega (arith, length-append is (i ∷ [])),
      ),
      h.1,
    )
    | inr m ↦ rw m (h.0, push-HasRoot r i groups e h.1)
  ]

push-total :
    (r i : ℕ) (groups : List (ℕ × List ℕ)) → total (push ◌==◌ r i groups) ≡ total groups + 1
unfolding push
push-total r i [] = refl
push-total r i ((q, is) ∷ groups) = elim (Bool-cases (q == r)) [
  | inl m ↦ rw m (omega (arith, length-append is (i ∷ [])))
  | inr m ↦ rw m (omega (arith, push-total r i groups))
]

-- What `by_root` makes of a forest with the roots of `p`.
pub record Grouped (p : ℕ → ℕ) (n : ℕ) (groups : List (ℕ × List ℕ)) : Type 0 where
  pub rooted : All (HasRoot p) groups
  pub complete : total groups ≡ n

by_root-Grouped :
    (dom : ℕ → Option Text) (p : ℕ → ℕ) (i n : ℕ) (leads : List Lead) (f : Forest)
    (groups : List (ℕ × List ℕ))
    → IsSound dom f
    → ((k : ℕ) → root k f.parent ≡ root k p)
    → Grouped p n groups
    → Grouped p (n + length leads) (by_root i leads f groups).1
unfolding by_root
by_root-Grouped dom p i n [] f groups h same g = record {
  rooted = g.rooted;
  complete = omega (arith, g.complete);
}
by_root-Grouped dom p i n (lead ∷ leads) f groups h same g =
    let (at, kept) = find-root i f.parent h.is_down in
    let rest =
      by_root-Grouped dom p (i + 1) (n + 1) leads (after_find i f) (push ◌==◌ (found i f) i groups)
        (after_find-IsSound dom i f h) (λ k. kept.same_root k ∙ same k)
        (record {
          rooted = push-HasRoot p (found i f) i groups (sym (at ∙ same i)) g.rooted;
          complete = push-total (found i f) i groups ∙ ap (λ m. m + 1) g.complete;
        }) in
    record { rooted = rest.rooted; complete = omega (arith, rest.complete) }

abbrev first_of_two : Option Text → Option Text → Option Text
first_of_two none b = b
first_of_two (some a) b = some a

or_next-dom :
    (v rest : Option Text) → dom_of (or_next v rest) ≡ first_of_two (dom_of v) (dom_of rest)
or_next-dom none rest = refl
or_next-dom (some []) rest = refl
or_next-dom (some (c ∷ s)) rest = refl

-- The domain that `_merge_group` gives to a record.
abbrev pub merged_domain : List Lead → List ℕ → Option Text
merged_domain leads is = dom_of ((merge_group (members_of leads is)).get domain)

merged_domain-step :
    (leads : List Lead) (i : ℕ) (is : List ℕ)
    → merged_domain leads (i ∷ is) ≡ first_of_two (dom_at leads i) (merged_domain leads is)
unfolding merge_group members_of first_given dom_at
merged_domain-step leads i is = elim (Option-cases (get_elem? leads i)) [
  | inl e ↦ rw e refl
  | inr (lead, e) ↦ rw e (or_next-dom (lead.get domain) _)
]

-- A record has the domain of each lead in it that has one.
abbrev pub HasDomains : List Lead → ℕ × List ℕ → Type 0
HasDomains leads (r, is) =
    All (λ k. (d : Text) → dom_at leads k ≡ some d → merged_domain leads is ≡ some d) is

module _ (leads : List Lead) (f : Forest) (h : IsSound (dom_at leads) f) where
  merged-HasDomains :
      (r : ℕ) (is : List ℕ) → All (λ i. root i f.parent ≡ r) is → HasDomains leads (r, is)
  merged-HasDomains r [] roots = tt
  merged-HasDomains r (i ∷ is) (at, roots) = elim (Option-cases (dom_at leads i)) [
    | inl e ↦ (
      (λ d q. absurd (cc)),
      All-of is (λ k t d q. merged_domain-step leads i is ∙ rw e (t d q))
          (merged-HasDomains r is roots),
    )
    | inr (c, e) ↦ (
      (λ d q. merged_domain-step leads i is ∙ rw e (sym e ∙ q)),
      All-of is
          (λ k t d q.
            merged_domain-step leads i is
            ∙ rw e (ap some (same_domain (dom_at leads) f h i k c d e q (at ∙ sym t))))
          roots,
    )
  ]

mark_review-length :
    (r : ℕ) (records : List (ℕ × Merged)) → length (mark_review r records) ≡ length records
unfolding mark_review
mark_review-length r [] = refl
mark_review-length r ((q, m) ∷ records) = elim (Bool-cases (q == r)) [
  | inl e ↦ rw e refl
  | inr e ↦ rw e (ap suc (mark_review-length r records))
]

mark_all-length :
    (flags : List (ℕ × ℕ)) (f : Forest) (records : List (ℕ × Merged))
    → length (mark_all flags f records) ≡ length records
unfolding mark_all
mark_all-length [] f records = refl
mark_all-length ((i, j) ∷ flags) f records =
    let once = after_find i f in
    let one = mark_review (found i f) records in
    mark_all-length flags (after_find j once) (mark_review (found j once) one)
    ∙ mark_review-length (found j once) one
    ∙ mark_review-length (found i f) records

merge_all-total :
    (p : ℕ → ℕ) (leads : List Lead) (groups : List (ℕ × List ℕ))
    → All (HasRoot p) groups
    → length (merge_all leads groups).0 + (merge_all leads groups).1 ≡ total groups
unfolding merge_all
merge_all-total p leads [] h = refl
merge_all-total p leads ((r, is) ∷ groups) h =
    ground (arith, h.0.1, merge_all-total p leads groups h.1)

module _ (normalize_text : Option Text → Text) (normalize_phone : Text → Text → Text)
    (ratio : Text → Text → ℕ) (auto low : ℕ) (leads : List Lead) where
  abbrev clusters : Forest
  clusters = (clustered normalize_text normalize_phone leads ratio auto low).forest

  groups-Grouped :
      Grouped clusters.parent
        (length leads)
        (groups_of normalize_text normalize_phone ratio auto low leads).1
  unfolding groups_of
  groups-Grouped =
      let g =
        by_root-Grouped (dom_at leads) clusters.parent 0 0 leads clusters []
          (clustered-IsSound normalize_text normalize_phone leads ratio auto low) (λ k. refl)
          (record { rooted = tt; complete = refl }) in
      record { rooted = g.rooted; complete = omega (arith, g.complete) }

  -- Whatever identifiers, names and ratios bring leads together, the record of a group has the domain of
  -- each lead of the group that has one: two companies of different domains are never merged.
  pub groups_of-HasDomains :
      All (HasDomains leads) (groups_of normalize_text normalize_phone ratio auto low leads).1
  groups_of-HasDomains =
      All-of _
        (λ g h.
          merged-HasDomains leads clusters
            (clustered-IsSound normalize_text normalize_phone leads ratio auto low) g.0 g.1 h.0)
        groups-Grouped.rooted

  -- The records that come out and the leads that the statistics count as merged are together as many as
  -- the leads that went in.
  pub run-counts :
      (run normalize_text normalize_phone ratio auto low leads).output_count
        + (run normalize_text normalize_phone ratio auto low leads).merged_count
      ≡ (run normalize_text normalize_phone ratio auto low leads).input_count
  unfolding run
  run-counts =
      let g = groups-Grouped in
      let s = clustered normalize_text normalize_phone leads ratio auto low in
      let (f, groups) = groups_of normalize_text normalize_phone ratio auto low leads in
      omega (
        arith,
        mark_all-length s.review_flags f (merge_all leads groups).0,
        merge_all-total clusters.parent leads groups g.rooted,
        g.complete,
      )
