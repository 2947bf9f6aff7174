-- ===== src/Dedup/Stages.antt =====
-- The three stages of DedupEngine.run in lead_engine/pipeline/dedup.py. What `normalize` does to texts
-- and SequenceMatcher's ratio are parameters; ratios and thresholds are in one unit.
use lead_engine.Prelude.{
  ℕ, zero, suc, ◌+◌, min, max, Bool, false, not, ◌&&◌, Option, none, some, List, [], ◌∷◌, ◌++◌,
  ◌==◌, ltb, leb, if◌then◌else◌, or_else, Text, text, text_eq, lower,
}
use lead_engine.Dedup.Forest.{Forest, found, after_find, union}

-- The keys that `_merge_group` copies as they are.
pub data Key : Type 0 where
  name domain website email phone city country industry decision_maker decision_maker_title
        linkedin :
      Key

pub record Lead : Type 0 where
  pub get : Key → Option Text
  pub lead_id : Option Text
  pub source_id : Option Text
  pub branches : Option ℕ
  pub sources : List Text
  pub source_queries : List Text
  pub source_urls : List Text
  pub social : Option Text
  pub snippet : Option Text

-- `_dom`: an empty domain is none.
abbrev pub dom_of : Option Text → Option Text
dom_of none = none
dom_of (some []) = none
dom_of (some (c ∷ s)) = some (lower (c ∷ s))

-- leads[i]
abbrev pub get_elem? {ℓ} : {A : Type ℓ} → List A → ℕ → Option A
get_elem? [] i = none
get_elem? (x ∷ xs) zero = some x
get_elem? (x ∷ xs) (suc i) = get_elem? xs i

abbrev pub value_of : Key → Option Lead → Option Text
value_of key none = none
value_of key (some lead) = lead.get key

unfoldable pub dom_at : List Lead → ℕ → Option Text
dom_at leads i = dom_of (value_of domain (get_elem? leads i))

abbrev pub own_domains : Option Text → List Text
own_domains none = []
own_domains (some d) = d ∷ []

-- Each lead alone in its group.
abbrev pub singletons : List Lead → Forest
singletons leads = record { parent = λ i. i; group_domains = λ i. own_domains (dom_at leads i) }

-- A dictionary of first indexes, and the forest.
pub record Seen (K : Type 0) : Type 0 where
  pub firsts : List (K × ℕ)
  pub forest : Forest

unfoldable pub first_of : {K : Type 0} → (K → K → Bool) → K → List (K × ℕ) → Option ℕ
first_of eq key [] = none
first_of eq key ((k, i) ∷ rest) =
    let later = first_of eq key rest in if eq k key then some i else later

abbrev pub differ : Option Text → Option Text → Bool
differ none e = false
differ (some d) none = false
differ (some d) (some e) = not (text_eq d e)

-- if key in keymap: union(i, keymap[key]) else: keymap[key] = i
abbrev pub noted : ℕ → Text → Seen Text → Option ℕ → Seen Text
noted i key seen none = record seen { firsts = (key, i) ∷ seen.firsts }
noted i key seen (some j) = record seen { forest = union i j seen.forest }

unfoldable pub enter_all : ℕ → List Text → Seen Text → Seen Text
enter_all i [] seen = seen
enter_all i (key ∷ keys) seen =
    enter_all i keys (noted i key seen (first_of text_eq key seen.firsts))

abbrev pub tagged : Text → (Text → Text) → Option Text → List Text
tagged tag f none = []
tagged tag f (some []) = []
tagged tag f (some (c ∷ s)) = (tag ++ f (c ∷ s)) ∷ []

abbrev pub same_texts : Text × (Text × Text) → Text × (Text × Text) → Bool
same_texts (a, (b, c)) (d, (e, f)) = text_eq a d && (text_eq b e && text_eq c f)

pub data RatioVerdict : Type 0 where
  merge review separate : RatioVerdict

-- `classify_ratio`
abbrev pub classify_ratio : ℕ → ℕ → ℕ → RatioVerdict
classify_ratio ratio auto low =
    if ltb auto ratio then merge else if leb low ratio then review else separate

pub record ReviewPair : Type 0 where
  pub a : Option Text
  pub b : Option Text
  pub similarity : ℕ

-- What the third stage keeps: the forest, `review_flags` and `review_pairs`.
pub record Fuzzy : Type 0 where
  pub forest : Forest
  pub review_flags : List (ℕ × ℕ)
  pub review_pairs : List ReviewPair

abbrev with_flag : ℕ × ℕ → List (ℕ × ℕ) → List (ℕ × ℕ)
with_flag p [] = p ∷ []
with_flag p (q ∷ qs) =
    let rest = with_flag p qs in if p.0 == q.0 && p.1 == q.1 then q ∷ qs else q ∷ rest

-- groups.setdefault(key, []).append(i)
unfoldable pub push : {K : Type 0} → (K → K → Bool) → K → ℕ → List (K × List ℕ) → List (K × List ℕ)
push eq key i [] = (key, i ∷ []) ∷ []
push eq key i ((k, is) ∷ rest) =
    let later = push eq key i rest in if eq k key then (k, is ++ i ∷ []) ∷ rest else (k, is) ∷ later

module _ (normalize_text : Option Text → Text) (normalize_phone : Text → Text → Text) where
  abbrev pub other_keys : Lead → List Text
  other_keys lead =
      tagged (text "e:") lower (lead.get email)
      ++ (tagged (text "p:") (λ p. normalize_phone p (or_else (lead.get country) []))
            (lead.get phone)
          ++ (tagged (text "l:") lower (lead.get linkedin)
              ++ tagged (text "s:") (λ s. s) lead.source_id))

  abbrev pub keys_of : Lead → List Text
  keys_of lead = tagged (text "d:") lower (lead.get domain) ++ other_keys lead

  -- Stage 1: exact identifiers.
  unfoldable pub exact_stage : ℕ → List Lead → Seen Text → Seen Text
  exact_stage i [] seen = seen
  exact_stage i (lead ∷ leads) seen = exact_stage (i + 1) leads (enter_all i (keys_of lead) seen)

  abbrev pub identity_of : Lead → Text × (Text × Text)
  identity_of lead = (
    normalize_text (lead.get name),
    (normalize_text (lead.get country), normalize_text (lead.get city)),
  )

  abbrev pub identified :
      (ℕ → Option Text)
      → ℕ
      → Text × (Text × Text)
      → Seen (Text × (Text × Text))
      → Option ℕ
      → Seen (Text × (Text × Text))
  identified dom i key seen none = record seen { firsts = (key, i) ∷ seen.firsts }
  identified dom i key seen (some j) =
      if differ (dom i) (dom j) then seen else record seen { forest = union i j seen.forest }

  abbrev pub identify :
      (ℕ → Option Text)
      → ℕ
      → Lead
      → Seen (Text × (Text × Text))
      → Text
      → Seen (Text × (Text × Text))
  identify dom i lead seen [] = seen
  identify dom i lead seen (c ∷ s) =
      identified dom i (identity_of lead) seen (first_of same_texts (identity_of lead) seen.firsts)

  -- Stage 2: name, country and city.
  unfoldable pub identity_stage :
      (ℕ → Option Text) → ℕ → List Lead → Seen (Text × (Text × Text)) → Seen (Text × (Text × Text))
  identity_stage dom i [] seen = seen
  identity_stage dom i (lead ∷ leads) seen =
      identity_stage dom (i + 1) leads (identify dom i lead seen (normalize_text (lead.get name)))

  abbrev same_place : Text × Text → Text × Text → Bool
  same_place (a, b) (c, d) = text_eq a c && text_eq b d

  unfoldable pub by_city :
      ℕ → List Lead → List ((Text × Text) × List ℕ) → List ((Text × Text) × List ℕ)
  by_city i [] groups = groups
  by_city i (lead ∷ leads) groups =
      by_city (i + 1) leads (
        push same_place (normalize_text (lead.get city), normalize_text (lead.get country)) i
          groups)

  module _ (leads : List Lead) (ratio : Text → Text → ℕ) (auto low : ℕ) where
    abbrev name_at : ℕ → Option Text
    name_at i = value_of name (get_elem? leads i)

    abbrev pub ratio_of : ℕ → ℕ → ℕ
    ratio_of i j = ratio (normalize_text (name_at i)) (normalize_text (name_at j))

    abbrev pub judged : ℕ → ℕ → RatioVerdict → Fuzzy → Fuzzy
    judged i j merge s = record s { forest = union i j s.forest }
    judged i j review s = record s {
      review_flags = with_flag (min i j, max i j) s.review_flags;
      review_pairs =
          s.review_pairs
          ++ (record { a = name_at i; b = name_at j; similarity = ratio_of i j }) ∷ [];
    }
    judged i j separate s = s

    unfoldable pub compare_two : ℕ → ℕ → Fuzzy → Fuzzy
    compare_two i j s =
        let once = after_find i s.forest in
        let looked = record s { forest = after_find j once } in
        if found i s.forest == found j once
        then looked
        else if differ (dom_at leads i) (dom_at leads j)
        then looked
        else judged i j (classify_ratio (ratio_of i j) auto low) looked

    unfoldable pub compare_all : ℕ → List ℕ → Fuzzy → Fuzzy
    compare_all i [] s = s
    compare_all i (j ∷ js) s = compare_all i js (compare_two i j s)

    unfoldable pub pairs_stage : List ℕ → Fuzzy → Fuzzy
    pairs_stage [] s = s
    pairs_stage (i ∷ is) s = pairs_stage is (compare_all i is s)

    -- Stage 3: similar names within a city.
    unfoldable pub fuzzy_stage : List ((Text × Text) × List ℕ) → Fuzzy → Fuzzy
    fuzzy_stage [] s = s
    fuzzy_stage ((place, is) ∷ groups) s = fuzzy_stage groups (pairs_stage is s)

    -- The three stages.
    unfoldable pub clustered : Fuzzy
    clustered =
        let exact = exact_stage 0 leads (record { firsts = []; forest = singletons leads }) in
        let same =
          identity_stage (dom_at leads) 0 leads (record { firsts = []; forest = exact.forest }) in
        fuzzy_stage (by_city 0 leads [])
          (record { forest = same.forest; review_flags = []; review_pairs = [] })
