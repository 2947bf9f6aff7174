-- ===== src/Examples/Duplicates.antt =====
-- lead_engine/pipeline/dedup.py on three leads that share a phone: two of one company, one of another.
use lead_engine.Prelude.{
  ℕ, ◌-◌, ◌≡◌, ◌↔◌, refl, Option, none, some, List, [], ◌∷◌, arith, or_else, All, Text, text, lower,
}
use lead_engine.Dedup.Forest.{find, find_on}
use lead_engine.Dedup.Roots.{IsDown, root, IsSameForest, find-root, find_on-ends}
use lead_engine.Dedup.Stages.{Key, name, domain, phone, Lead, dom_at}
use lead_engine.Dedup.Merge.{groups_of}
use lead_engine.Dedup.Grouping.{HasDomains, groups_of-HasDomains}
use lead_engine.Dedup.Companies.{clusters, clustered-root_iff}

abbrev same_text : Option Text → Text
same_text v = or_else v []

abbrev same_phone : Text → Text → Text
same_phone p country = p

abbrev unlike : Text → Text → ℕ
unlike a b = 0

abbrev lead : Text → Text → Lead
lead called site = record {
  get = get;
  lead_id = none;
  source_id = none;
  branches = none;
  sources = [];
  source_queries = [];
  source_urls = [];
  social = none;
  snippet = none;
}
  where
    get : Key → Option Text
    get name = some called
    get domain = some site
    get phone = some (text "0100")
    get _ = none

abbrev three_leads : List Lead
three_leads =
    lead (text "Acme") (text "acme.com")
    ∷ lead (text "Bolt") (text "bolt.io")
    ∷ lead (text "Acme Ltd") (text "ACME.com")
    ∷ []

first_domain : dom_at three_leads 0 ≡ some (text "acme.com")
unfolding dom_at lower
first_domain = refl

third_domain : dom_at three_leads 2 ≡ some (text "acme.com")
unfolding dom_at lower
third_domain = refl

clustered-root_iff_example :
    (root 0 (clusters same_text same_phone unlike 95 85 three_leads).parent
      ≡ root 2 (clusters same_text same_phone unlike 95 85 three_leads).parent)
    ↔ (text "acme.com" ≡ text "acme.com")
clustered-root_iff_example =
    clustered-root_iff same_text same_phone unlike 95 85 three_leads 0 2 (text "acme.com")
      (text "acme.com") first_domain third_domain

groups_of-HasDomains_example :
    All (HasDomains three_leads) (groups_of same_text same_phone unlike 95 85 three_leads).1
groups_of-HasDomains_example = groups_of-HasDomains same_text same_phone unlike 95 85 three_leads

-- A chain of parents.
abbrev chain : ℕ → ℕ
chain i = i - 1

chain-IsDown : IsDown chain
chain-IsDown i = omega arith

find-root_example : ((find 5 chain).0 ≡ root 5 chain) × IsSameForest chain (find 5 chain).1
find-root_example = find-root 5 chain chain-IsDown

find_on-ends_example : (find_on 7 5 chain).1 (find_on 7 5 chain).0 ≡ (find_on 7 5 chain).0
find_on-ends_example = find_on-ends 7 5 chain chain-IsDown (omega arith)
