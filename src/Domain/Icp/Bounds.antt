-- ===== src/Domain/Icp/Bounds.antt =====
-- How many queries a plan has.
use lead_engine.Prelude.{
  length-map, ℕ, zero, suc, ◌+◌, ◌*◌, ◌≡◌, ◌↔◌, refl, sym, ap, ◌∙◌, min, true, Option, none, some,
  List, [], ◌∷◌, map, arith, length, length-append, length-take,
}
use lead_engine.Domain.Icp.{
  City, Query, Icp, query_en, query_ar, city_queries, all_queries, limited, build_query_plan,
  is_empty, is_empty_plan,
}

length-city_queries :
    (icp : Icp) (c : City)
    → length (city_queries icp c) ≡ length icp.keywords_en + length icp.keywords_ar
unfolding city_queries
length-city_queries icp c = omega (
  arith,
  length-append (map (query_en c) icp.keywords_en) (map (query_ar c) icp.keywords_ar),
  length-map (query_en c) icp.keywords_en,
  length-map (query_ar c) icp.keywords_ar,
)

length-all_queries :
    (icp : Icp) (cs : List City)
    → length (all_queries icp cs) ≡ length cs * (length icp.keywords_en + length icp.keywords_ar)
unfolding all_queries
length-all_queries icp [] = omega arith
length-all_queries icp (c ∷ cs) = grind (
  arith,
  length-append (city_queries icp c) (all_queries icp cs),
  length-city_queries icp c,
  length-all_queries icp cs,
)

abbrev pub capped : Option ℕ → ℕ → ℕ
capped none n = n
capped (some zero) n = n
capped (some (suc m)) n = min (suc m) n

length-limited :
    (limit : Option ℕ) (qs : List Query) → length (limited limit qs) ≡ capped limit (length qs)
length-limited none qs = refl
length-limited (some zero) qs = refl
length-limited (some (suc n)) qs = length-take (suc n) qs

-- A plan has one query for each city and keyword of either language, cut at the ICP's limit where it
-- sets one above 0.
pub build_query_plan-length :
    (icp : Icp)
    → length (build_query_plan icp).queries
      ≡ capped icp.max_search_queries
          (length icp.cities * (length icp.keywords_en + length icp.keywords_ar))
unfolding build_query_plan
build_query_plan-length icp =
    length-limited icp.max_search_queries (all_queries icp icp.cities)
    ∙ ap (capped icp.max_search_queries) (length-all_queries icp icp.cities)

is_empty_iff : (qs : List Query) → (is_empty qs ≡ true) ↔ (length qs ≡ 0)
is_empty_iff [] = (λ _. refl, λ _. refl)
is_empty_iff (q ∷ qs) = (λ h. absurd (cc), λ h. absurd (omega arith))

capped_zero : (limit : Option ℕ) (n : ℕ) → (capped limit n ≡ 0) ↔ (n ≡ 0)
capped_zero none n = ground arith
capped_zero (some zero) n = ground arith
capped_zero (some (suc m)) n = (λ h. omega arith, λ h. omega arith)

-- A plan is empty exactly if the ICP has no cities, or no keywords in either language; no limit
-- makes it empty.
pub is_empty_plan_iff :
    (icp : Icp)
    → (is_empty_plan (build_query_plan icp) ≡ true)
      ↔ (length icp.cities * (length icp.keywords_en + length icp.keywords_ar) ≡ 0)
unfolding is_empty_plan
is_empty_plan_iff icp =
    let counted = build_query_plan-length icp in
    let zero_iff =
      capped_zero icp.max_search_queries
        (length icp.cities * (length icp.keywords_en + length icp.keywords_ar)) in
    let empty_iff = is_empty_iff (build_query_plan icp).queries in
    (λ h. zero_iff.0 (sym counted ∙ empty_iff.0 h), λ h. empty_iff.1 (counted ∙ zero_iff.1 h))
