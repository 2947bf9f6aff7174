-- ===== src/Domain/Icp.antt =====
-- domain/acquisition/icp.py: the query plan of an ICP. Its limits are counts, so not negative.
pub mod Bounds
use lead_engine.Prelude.{
  ℕ, zero, suc, ◌≡◌, Bool, true, false, Option, none, some, List, [], ◌∷◌, ◌++◌, map, take, Text,
  text, or_else,
}

-- A city is a dict with a name and perhaps an Arabic one, or a plain text.
pub data City : Type 0 where
  entry : Text → Option Text → City
  plain : Text → City

pub data Lang : Type 0 where
  en ar : Lang

pub record Query : Type 0 where
  pub q : Text
  pub city : Text
  pub lang : Lang

pub record Icp : Type 0 where
  pub cities : List City
  pub keywords_en : List Text
  pub keywords_ar : List Text
  pub max_search_queries : Option ℕ
  pub search_results_per_query : Option ℕ

pub record Plan : Type 0 where
  pub icp : Icp
  pub queries : List Query
  pub results_per_query : ℕ

abbrev pub city_name : City → Text
city_name (entry name ar_name) = name
city_name (plain name) = name

abbrev pub city_ar : City → Text
city_ar (entry name ar_name) = or_else ar_name name
city_ar (plain name) = name

abbrev query_en : City → Text → Query
query_en c kw = record { q = kw ++ text " in " ++ city_name c; city = city_name c; lang = en }

abbrev query_ar : City → Text → Query
query_ar c kw = record { q = kw ++ text " " ++ city_ar c; city = city_name c; lang = ar }

pub city_queries : Icp → City → List Query
city_queries icp c = map (query_en c) icp.keywords_en ++ map (query_ar c) icp.keywords_ar

pub all_queries : Icp → List City → List Query
all_queries icp [] = []
all_queries icp (c ∷ cs) = city_queries icp c ++ all_queries icp cs

-- A limit of 0 is no limit.
abbrev pub limited : Option ℕ → List Query → List Query
limited none qs = qs
limited (some zero) qs = qs
limited (some (suc n)) qs = take (suc n) qs

unfoldable pub build_query_plan : Icp → Plan
build_query_plan icp = record {
  icp = icp;
  queries = limited icp.max_search_queries (all_queries icp icp.cities);
  results_per_query = or_else icp.search_results_per_query 6;
}

abbrev is_empty : List Query → Bool
is_empty [] = true
is_empty (q ∷ qs) = false

unfoldable pub is_empty_plan : Plan → Bool
is_empty_plan p = is_empty p.queries
