-- ===== src/Dedup/Merge.antt =====
-- The end of DedupEngine.run in lead_engine/pipeline/dedup.py: the groups, and `_merge_group`. The
-- rate of duplicates, a rounded quotient of two of the counts, is left out.
use lead_engine.Prelude.{
  ℕ, zero, suc, ◌+◌, ◌-◌, max, Bool, true, false, Option, none, some, List, [], ◌∷◌, ◌++◌, ◌==◌,
  ltb, if◌then◌else◌, or_else, length, map, Text, text, contains,
}
use lead_engine.Dedup.Forest.{Forest, found, after_find}
use lead_engine.Dedup.Stages.{Key, Lead, get_elem?, ReviewPair, push, clustered}

pub record Merged : Type 0 where
  pub get : Key → Option Text
  pub branches : Option ℕ
  pub sources : List Text
  pub source_queries : List Text
  pub source_urls : List Text
  pub social : Option Text
  pub snippet : Option Text
  pub merged_count : ℕ
  pub source_ids : List (Option Text)
  pub requires_review : Bool

-- The first that is not empty.
abbrev pub or_next : Option Text → Option Text → Option Text
or_next none rest = rest
or_next (some []) rest = rest
or_next (some (c ∷ s)) rest = some (c ∷ s)

unfoldable pub first_given : (Lead → Option Text) → List Lead → Option Text
first_given f [] = none
first_given f (lead ∷ leads) = or_next (f lead) (first_given f leads)

abbrev max_branches : List Lead → ℕ
max_branches [] = 0
max_branches (lead ∷ leads) = max (or_else lead.branches 0) (max_branches leads)

abbrev or_none : ℕ → Option ℕ
or_none zero = none
or_none (suc n) = some (suc n)

-- Items as they come, each once.
abbrev add_new : List Text → List Text → List Text
add_new seen [] = seen
add_new seen (x ∷ xs) = add_new (if contains seen x then seen else seen ++ x ∷ []) xs

abbrev all_of : (Lead → List Text) → List Text → List Lead → List Text
all_of f seen [] = seen
all_of f seen (lead ∷ leads) = all_of f (add_new seen (f lead)) leads

abbrev given_social : Option Text → List Text
given_social none = []
given_social (some []) = []
given_social (some (c ∷ s)) = (c ∷ s) ∷ []

abbrev joined_by : Text → List Text → Option Text
joined_by sep [] = none
joined_by sep (x ∷ xs) = some (go x xs)
  where
    go : Text → List Text → Text
    go x [] = x
    go x (y ∷ ys) = x ++ sep ++ go y ys

-- `_merge_group`
unfoldable pub merge_group : List Lead → Merged
merge_group members = record {
  get = λ key. first_given (λ lead. lead.get key) members;
  branches = or_none (max_branches members);
  sources = all_of (λ lead. lead.sources) [] members;
  source_queries = all_of (λ lead. lead.source_queries) [] members;
  source_urls = all_of (λ lead. lead.source_urls) [] members;
  social = joined_by (text "; ") (all_of (λ lead. given_social lead.social) [] members);
  snippet = first_given (λ lead. lead.snippet) members;
  merged_count = length members;
  source_ids = map (λ (lead : Lead). or_next lead.lead_id lead.source_id) members;
  requires_review = false;
}

abbrev pub with_lead : Option Lead → List Lead → List Lead
with_lead none rest = rest
with_lead (some lead) rest = lead ∷ rest

-- [leads[i] for i in idxs]
unfoldable pub members_of : List Lead → List ℕ → List Lead
members_of leads [] = []
members_of leads (i ∷ is) = with_lead (get_elem? leads i) (members_of leads is)

-- for i in range(n): groups.setdefault(find(i), []).append(i)
unfoldable pub by_root : ℕ → List Lead → Forest → List (ℕ × List ℕ) → Forest × List (ℕ × List ℕ)
by_root i [] f groups = (f, groups)
by_root i (lead ∷ leads) f groups =
    by_root (i + 1) leads (after_find i f) (push ◌==◌ (found i f) i groups)

-- The records with their roots, and the leads that were merged away.
unfoldable pub merge_all : List Lead → List (ℕ × List ℕ) → List (ℕ × Merged) × ℕ
merge_all leads [] = ([], 0)
merge_all leads ((r, is) ∷ groups) =
    let (records, gone) = merge_all leads groups in
    (
      (r, merge_group (members_of leads is)) ∷ records,
      (if ltb 1 (length is) then length is - 1 else 0) + gone,
    )

-- merged[root_to_index[root]]["requires_review"] = True
unfoldable pub mark_review : ℕ → List (ℕ × Merged) → List (ℕ × Merged)
mark_review r [] = []
mark_review r ((q, m) ∷ records) =
    let rest = mark_review r records in
    if q == r then (q, record m { requires_review = true }) ∷ records else (q, m) ∷ rest

unfoldable pub mark_all : List (ℕ × ℕ) → Forest → List (ℕ × Merged) → List (ℕ × Merged)
mark_all [] f records = records
mark_all ((i, j) ∷ flags) f records =
    let once = after_find i f in
    mark_all flags (after_find j once)
      (mark_review (found j once) (mark_review (found i f) records))

pub record Deduped : Type 0 where
  pub records : List Merged
  pub input_count : ℕ
  pub output_count : ℕ
  pub merged_count : ℕ
  pub review_pairs : List ReviewPair

module _ (normalize_text : Option Text → Text) (normalize_phone : Text → Text → Text)
    (ratio : Text → Text → ℕ) (auto low : ℕ) where
  unfoldable pub groups_of : List Lead → Forest × List (ℕ × List ℕ)
  groups_of leads =
      by_root 0 leads (clustered normalize_text normalize_phone leads ratio auto low).forest []

  unfoldable pub run : List Lead → Deduped
  run leads =
      let s = clustered normalize_text normalize_phone leads ratio auto low in
      let (f, groups) = groups_of leads in
      let (merged, gone) = merge_all leads groups in
      let marked = mark_all s.review_flags f merged in
      record {
        records = map (λ (m : ℕ × Merged). m.1) marked;
        input_count = length leads;
        output_count = length marked;
        merged_count = gone;
        review_pairs = s.review_pairs;
      }
