-- ===== src/Dedup/Companies.antt =====
-- The groups of lead_engine/pipeline/dedup.py are the companies, as far as domains tell them.
use lead_engine.Prelude.{
  ℕ, zero, suc, ◌+◌, ◌<◌, ◌≡◌, refl, sym, ap, ◌∙◌, ◌↔◌, inl, inr, false, Option, none, some, List,
  [], ◌∷◌, ◌++◌, arith, or_else, Bool-cases, ◌==◌, drop, All, All-append, Text, text, text_eq,
  lower, length, ==_iff,
}
use lead_engine.Dedup.Forest.{Forest}
use lead_engine.Dedup.Roots.{root}
use lead_engine.Dedup.Domains.{same_domain}
use lead_engine.Dedup.Stages.{
  domain, email, phone, linkedin, country, Lead, dom_of, dom_at, tagged, singletons, Seen, first_of,
  noted, enter_all, keys_of, other_keys, exact_stage, clustered,
}
use lead_engine.Dedup.Clusters.{clustered-keeps, clustered-IsSound, singletons-IsSound}
use lead_engine.Dedup.Exact.{
  AreOne, union-AreOne, find-AreOne, domain_key, TellsDomain, HasFirst, IsRun, noted-first,
  noted-IsRun, enter_all-IsRun, enter_all-HasFirst,
}

first_code : (c e : ℕ) (s t : Text) → (c ∷ s) ≡ (e ∷ t) → c ≡ e
first_code c e s t h = cc

domain_key-injective : (d e : Text) → domain_key d ≡ domain_key e → d ≡ e
domain_key-injective d e h = ap (λ t. drop 2 t) h

-- A key that another letter marks is no domain's.
other_key :
    (dom : ℕ → Option Text) (i c : ℕ) (f : Text → Text) (v : Option Text)
    → (c == b'd') ≡ false
    → All (λ key. TellsDomain dom (key, i)) (tagged (c ∷ b':' ∷ []) f v)
other_key dom i c f none h = tt
other_key dom i c f (some []) h = tt
other_key dom i c f (some (x ∷ s)) h =
    (λ d e. absurd (clash (first_code c b'd' (b':' ∷ f (x ∷ s)) (b':' ∷ d) e)), tt)
  where
    clash : c ≡ b'd' → ⊥
    clash e = ground (arith, e, h)

module _ (dom : ℕ → Option Text) (i : ℕ) (lead : Lead) (is_dom : dom_of (lead.get domain) ≡ dom i)
    (normalize_text : Option Text → Text) (normalize_phone : Text → Text → Text) where
  abbrev rest_keys : List Text
  rest_keys = other_keys normalize_text normalize_phone lead

  rest_keys-TellDomain : All (λ key. TellsDomain dom (key, i)) rest_keys
  rest_keys-TellDomain =
      All-append _ (tagged (text "e:") lower (lead.get email)) _ (other_key dom i b'e' lower _ refl)
        (All-append _
          (tagged (text "p:") (λ p. normalize_phone p (or_else (lead.get country) []))
            (lead.get phone))
          _ (other_key dom i b'p' (λ p. normalize_phone p (or_else (lead.get country) [])) _ refl)
          (All-append _ (tagged (text "l:") lower (lead.get linkedin)) _
            (other_key dom i b'l' lower _ refl) (other_key dom i b's' (λ s. s) _ refl)))

  extended : (seen : Seen Text) → IsRun dom i seen → HasFirst dom seen i → IsRun dom (i + 1) seen
  extended seen h first = record { sound = h.sound; tells = h.tells; first = all }
    where
      all : (k : ℕ) → k < i + 1 → HasFirst dom seen k
      all k lt = elim (Bool-cases (k == i)) [
        | inl e ↦ rw ((==_iff k i).0 e) first
        | inr e ↦ h.first k (ground (arith, e, lt))
      ]

  without_domain :
      (seen : Seen Text)
      → dom i ≡ none
      → IsRun dom i seen
      → IsRun dom (i + 1) (enter_all i rest_keys seen)
  without_domain seen e h =
      extended (enter_all i rest_keys seen)
        (enter_all-IsRun dom i i rest_keys seen h rest_keys-TellDomain) (λ d q. absurd (cc))

  with_domain :
      (d : Text) (seen : Seen Text)
      → dom i ≡ some d
      → IsRun dom i seen
      → IsRun dom (i + 1) (enter_all i (domain_key d ∷ rest_keys) seen)
  unfolding enter_all
  with_domain d seen e h =
      let was = first_of text_eq (domain_key d) seen.firsts in
      let tells : TellsDomain dom (domain_key d, i) =
        λ d' q. e ∙ ap some (domain_key-injective d d' q) in
      let one = noted i (domain_key d) seen was in
      let run = noted-IsRun dom i (domain_key d) seen h.sound i was refl h tells in
      extended (enter_all i rest_keys one)
        (enter_all-IsRun dom i i rest_keys one run rest_keys-TellDomain)
        (enter_all-HasFirst dom i i i rest_keys one run rest_keys-TellDomain
          (noted-first dom i (domain_key d) seen h.sound d was refl h.tells refl e))

  of_domain :
      (v : Option Text) (seen : Seen Text)
      → dom_of v ≡ dom i
      → IsRun dom i seen
      → IsRun dom (i + 1) (enter_all i (tagged (text "d:") lower v ++ rest_keys) seen)
  of_domain none seen m h = without_domain seen (sym m) h
  of_domain (some []) seen m h = without_domain seen (sym m) h
  of_domain (some (x ∷ s)) seen m h = with_domain (lower (x ∷ s)) seen (sym m) h

exact_stage-IsRun :
    (dom : ℕ → Option Text) (normalize_text : Option Text → Text)
    (normalize_phone : Text → Text → Text) (i : ℕ) (leads : List Lead) (seen : Seen Text)
    → ((n : ℕ) → n < length leads → dom_at leads n ≡ dom (i + n))
    → IsRun dom i seen
    → IsRun dom (i + length leads) (exact_stage normalize_text normalize_phone i leads seen)
unfolding exact_stage dom_at
exact_stage-IsRun dom nt np i [] seen m h = let e : i ≡ i + 0 = omega arith in rw (← e) h
exact_stage-IsRun dom nt np i (lead ∷ leads) seen m h =
    let at_0 : i + 0 ≡ i = omega arith in
    let here : dom_of (lead.get domain) ≡ dom i = m 0 (omega arith) ∙ ap dom at_0 in
    let one = of_domain dom i lead here nt np (lead.get domain) seen here h in
    let rest =
      exact_stage-IsRun dom nt np (i + 1) leads (enter_all i (keys_of nt np lead) seen)
        (λ n lt. m (suc n) (omega (arith, lt)) ∙ shifted n) one in
    let e : i + 1 + length leads ≡ i + suc (length leads) = omega arith in rw (← e) rest
  where
    shifted : (n : ℕ) → dom (i + suc n) ≡ dom (i + 1 + n)
    shifted n = let e : i + suc n ≡ i + 1 + n = omega arith in ap dom e

in_range : (leads : List Lead) (k : ℕ) (d : Text) → dom_at leads k ≡ some d → k < length leads
unfolding dom_at
in_range [] k d e = absurd (cc)
in_range (lead ∷ leads) zero d e = omega arith
in_range (lead ∷ leads) (suc k) d e = omega (arith, in_range leads k d e)

module _ (normalize_text : Option Text → Text) (normalize_phone : Text → Text → Text)
    (ratio : Text → Text → ℕ) (auto low : ℕ) (leads : List Lead) where
  abbrev pub clusters : Forest
  clusters = (clustered normalize_text normalize_phone leads ratio auto low).forest

  abbrev start : Seen Text
  start = record { firsts = []; forest = singletons leads }

  exact :
      IsRun (dom_at leads) (length leads) (exact_stage normalize_text normalize_phone 0 leads start)
  exact =
      let e : 0 + length leads ≡ length leads = omega arith in
      rw (← e) (
        exact_stage-IsRun (dom_at leads) normalize_text normalize_phone 0 leads start
          (λ n lt. let z : n ≡ 0 + n = omega arith in ap (dom_at leads) z)
          (record {
            sound = singletons-IsSound leads;
            tells = tt;
            first = λ k lt. absurd (omega (arith, lt));
          }))

  together :
      (k l : ℕ) (d : Text)
      → dom_at leads k ≡ some d
      → dom_at leads l ≡ some d
      → root k clusters.parent ≡ root l clusters.parent
  together k l d dk dl =
      let (i, at_i, one) = exact.first k (in_range leads k d dk) d dk in
      let (j, at_j, two) = exact.first l (in_range leads l d dl) d dl in
      let same : i ≡ j = cc in
      (clustered-keeps (AreOne (dom_at leads) k l) (union-AreOne (dom_at leads) k l)
        (find-AreOne (dom_at leads) k l) normalize_text normalize_phone leads ratio auto low
        (record {
          sound = exact.sound;
          together =
              one
              ∙ ap
                  (λ x.
                    root x (exact_stage normalize_text normalize_phone 0 leads start).forest.parent)
                  same
              ∙ sym two;
        })).together

  -- Two leads with domains are in one group exactly if their domains are equal, letter case aside: no
  -- shared phone, mailbox or similar name joins two companies, and none is split.
  pub clustered-root_iff :
      (k l : ℕ) (d e : Text)
      → dom_at leads k ≡ some d
      → dom_at leads l ≡ some e
      → (root k clusters.parent ≡ root l clusters.parent) ↔ (d ≡ e)
  clustered-root_iff k l d e dk dl = (
    same_domain (dom_at leads) clusters
        (clustered-IsSound normalize_text normalize_phone leads ratio auto low) k l d e dk dl,
    λ same. together k l d dk (dl ∙ ap some (sym same)),
  )
