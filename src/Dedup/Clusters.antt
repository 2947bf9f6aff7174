-- ===== src/Dedup/Clusters.antt =====
-- The stages of lead_engine/pipeline/dedup.py keep each group to one domain.
use lead_engine.Prelude.{
  ℕ, ◌+◌, refl, ap, ◌∙◌, inl, inr, Option, none, some, List, [], ◌∷◌, arith, ◌==◌, Bool-cases, Text,
  text_eq,
}
use lead_engine.Dedup.Forest.{Forest, found, after_find, union}
use lead_engine.Dedup.Roots.{root-fixed, find-root}
use lead_engine.Dedup.Domains.{IsSmall, IsSound, union-IsSound}
use lead_engine.Dedup.Stages.{
  Lead, name, dom_at, own_domains, singletons, Seen, first_of, differ, noted, enter_all, keys_of,
  RatioVerdict, merge, review, separate, Fuzzy, exact_stage, identity_of, same_texts, identified,
  identify, identity_stage, by_city, judged, compare_two, compare_all, pairs_stage, fuzzy_stage,
  clustered,
}

pub singletons-IsSound : (leads : List Lead) → IsSound (dom_at leads) (singletons leads)
singletons-IsSound leads = record {
  is_down = λ i. omega arith;
  small = λ r. one (dom_at leads r);
  owns = λ k d e.
      ap (λ i. own_domains (dom_at leads i)) (root-fixed (λ i. i) (λ i. omega arith) k refl)
      ∙ ap own_domains e;
}
  where
    one : (d : Option Text) → IsSmall (own_domains d)
    one none = inl refl
    one (some d) = inr (d, refl)

pub after_find-IsSound :
    (dom : ℕ → Option Text) (i : ℕ) (f : Forest) → IsSound dom f → IsSound dom (after_find i f)
after_find-IsSound dom i f h =
    let same = (find-root i f.parent h.is_down).1 in
    record {
      is_down = same.is_down;
      small = h.small;
      owns = λ k d e. ap f.group_domains (same.same_root k) ∙ h.owns k d e;
    }

-- What `union` and `find` keep, each stage keeps.
module _ (P : Forest → Type 0) (union-keeps : (i j : ℕ) (f : Forest) → P f → P (union i j f))
    (find-keeps : (i : ℕ) (f : Forest) → P f → P (after_find i f)) where
  noted-keeps :
      (i : ℕ) (key : Text) (seen : Seen Text) (found : Option ℕ)
      → P seen.forest
      → P (noted i key seen found).forest
  noted-keeps i key seen none h = h
  noted-keeps i key seen (some j) h = union-keeps i j seen.forest h

  enter_all-keeps :
      (i : ℕ) (keys : List Text) (seen : Seen Text)
      → P seen.forest
      → P (enter_all i keys seen).forest
  unfolding enter_all
  enter_all-keeps i [] seen h = h
  enter_all-keeps i (key ∷ keys) seen h =
      let found = first_of text_eq key seen.firsts in
      enter_all-keeps i keys (noted i key seen found) (noted-keeps i key seen found h)

  module _ (normalize_text : Option Text → Text) (normalize_phone : Text → Text → Text) where
    pub exact_stage-keeps :
        (i : ℕ) (leads : List Lead) (seen : Seen Text)
        → P seen.forest
        → P (exact_stage normalize_text normalize_phone i leads seen).forest
    unfolding exact_stage
    exact_stage-keeps i [] seen h = h
    exact_stage-keeps i (lead ∷ leads) seen h =
        let keys = keys_of normalize_text normalize_phone lead in
        exact_stage-keeps (i + 1) leads (enter_all i keys seen) (enter_all-keeps i keys seen h)

    identified-keeps :
        (d : ℕ → Option Text) (i : ℕ) (key : Text × (Text × Text))
        (seen : Seen (Text × (Text × Text))) (found : Option ℕ)
        → P seen.forest
        → P (identified normalize_text normalize_phone d i key seen found).forest
    identified-keeps d i key seen none h = h
    identified-keeps d i key seen (some j) h = elim (Bool-cases (differ (d i) (d j))) [
      | inl e ↦ rw e h
      | inr e ↦ rw e (union-keeps i j seen.forest h)
    ]

    identify-keeps :
        (d : ℕ → Option Text) (i : ℕ) (lead : Lead) (seen : Seen (Text × (Text × Text))) (nm : Text)
        → P seen.forest
        → P (identify normalize_text normalize_phone d i lead seen nm).forest
    identify-keeps d i lead seen [] h = h
    identify-keeps d i lead seen (c ∷ s) h =
        identified-keeps d i _ seen
          (first_of same_texts (identity_of normalize_text normalize_phone lead) seen.firsts) h

    pub identity_stage-keeps :
        (d : ℕ → Option Text) (i : ℕ) (leads : List Lead) (seen : Seen (Text × (Text × Text)))
        → P seen.forest
        → P (identity_stage normalize_text normalize_phone d i leads seen).forest
    unfolding identity_stage
    identity_stage-keeps d i [] seen h = h
    identity_stage-keeps d i (lead ∷ leads) seen h =
        identity_stage-keeps d (i + 1) leads _
          (identify-keeps d i lead seen (normalize_text (lead.get name)) h)

    module _ (leads : List Lead) (ratio : Text → Text → ℕ) (auto low : ℕ) where
      abbrev compared : ℕ → ℕ → Fuzzy → Fuzzy
      compared = compare_two normalize_text normalize_phone leads ratio auto low

      judged-keeps :
          (i j : ℕ) (v : RatioVerdict) (s : Fuzzy)
          → P s.forest
          → P (judged normalize_text normalize_phone leads ratio auto low i j v s).forest
      judged-keeps i j merge s h = union-keeps i j s.forest h
      judged-keeps i j review s h = h
      judged-keeps i j separate s h = h

      compare_two-keeps : (i j : ℕ) (s : Fuzzy) → P s.forest → P (compared i j s).forest
      unfolding compare_two
      compare_two-keeps i j s h =
          let once = after_find i s.forest in
          let h' = find-keeps j once (find-keeps i s.forest h) in
          elim (Bool-cases (found i s.forest == found j once)) [
            | inl e ↦ rw e h'
            | inr e ↦ elim (Bool-cases (differ (dom_at leads i) (dom_at leads j))) [
              | inl d ↦ rw (e, d) h'
              | inr d ↦ rw (e, d) (judged-keeps i j _ (record s { forest = after_find j once }) h')
            ]
          ]

      compare_all-keeps :
          (i : ℕ) (js : List ℕ) (s : Fuzzy)
          → P s.forest
          → P (compare_all normalize_text normalize_phone leads ratio auto low i js s).forest
      unfolding compare_all
      compare_all-keeps i [] s h = h
      compare_all-keeps i (j ∷ js) s h =
          compare_all-keeps i js (compared i j s) (compare_two-keeps i j s h)

      pairs_stage-keeps :
          (is : List ℕ) (s : Fuzzy)
          → P s.forest
          → P (pairs_stage normalize_text normalize_phone leads ratio auto low is s).forest
      unfolding pairs_stage
      pairs_stage-keeps [] s h = h
      pairs_stage-keeps (i ∷ is) s h = pairs_stage-keeps is _ (compare_all-keeps i is s h)

      pub fuzzy_stage-keeps :
          (groups : List ((Text × Text) × List ℕ)) (s : Fuzzy)
          → P s.forest
          → P (fuzzy_stage normalize_text normalize_phone leads ratio auto low groups s).forest
      unfolding fuzzy_stage
      fuzzy_stage-keeps [] s h = h
      fuzzy_stage-keeps ((place, is) ∷ groups) s h =
          fuzzy_stage-keeps groups _ (pairs_stage-keeps is s h)

-- What the three stages keep, from the leads alone in their groups.
pub clustered-keeps :
    (P : Forest → Type 0)
    → ((i j : ℕ) (f : Forest) → P f → P (union i j f))
    → ((i : ℕ) (f : Forest) → P f → P (after_find i f))
    → (normalize_text : Option Text → Text) (normalize_phone : Text → Text → Text)
      (leads : List Lead) (ratio : Text → Text → ℕ) (auto low : ℕ)
    → P
        (exact_stage normalize_text normalize_phone 0 leads
          (record { firsts = []; forest = singletons leads })).forest
    → P (clustered normalize_text normalize_phone leads ratio auto low).forest
unfolding clustered
clustered-keeps P ku kf nt np leads ratio auto low h =
    let exact = exact_stage nt np 0 leads (record { firsts = []; forest = singletons leads }) in
    let same =
      identity_stage nt np (dom_at leads) 0 leads (record { firsts = []; forest = exact.forest }) in
    fuzzy_stage-keeps P ku kf nt np leads ratio auto low (by_city nt np 0 leads [])
      (record { forest = same.forest; review_flags = []; review_pairs = [] })
      (identity_stage-keeps P ku kf nt np (dom_at leads) 0 leads
        (record { firsts = []; forest = exact.forest }) h)

-- The forest after the three stages.
pub clustered-IsSound :
    (normalize_text : Option Text → Text) (normalize_phone : Text → Text → Text) (leads : List Lead)
    (ratio : Text → Text → ℕ) (auto low : ℕ)
    → IsSound (dom_at leads) (clustered normalize_text normalize_phone leads ratio auto low).forest
clustered-IsSound nt np leads ratio auto low =
    let ku : (i j : ℕ) (f : Forest)
        → IsSound (dom_at leads) f
        → IsSound (dom_at leads) (union i j f) =
      λ i j f h. union-IsSound (dom_at leads) f i j h in
    let kf = after_find-IsSound (dom_at leads) in
    clustered-keeps (IsSound (dom_at leads)) ku kf nt np leads ratio auto low (
      exact_stage-keeps (IsSound (dom_at leads)) ku kf nt np 0 leads
        (record { firsts = []; forest = singletons leads }) (singletons-IsSound leads))
