-- ===== src/Domain/Policy/Gates.antt =====
-- The governance gate: what it lets through, and that it closes when something is missing.
use lead_engine.Prelude.{
  Bool, List, Text, [], any, arith, contains, ends_with-append, false, lower, map, none, true,
  upper, ℕ, ◌++◌, ◌↔◌, ◌∷◌, ◌≡◌, ◌≢◌, refl, sym, ap, ◌∙◌, ◌||◌, inl, inr, text_eq, text_eq_sound,
  text_eq_refl, Bool-cases,
}
use lead_engine.Domain.Policy.{
  allowed, blocked, PolicyInput, Rules, first_text, covers, suppressed, domain_is_suppressed,
  subject_domain, country_is_blocked, target, not_allowlisted, evaluate,
}

-- The gate lets an operation through exactly if no rule speaks against it: the operation is neither
-- blocked nor under review, its domain is not suppressed, its country is not restricted, and it is
-- on the allowlist where one is required.
pub evaluate-allowed_iff :
    (r : Rules) (i : PolicyInput)
    → ((evaluate r i).0 ≡ allowed) ↔ (
        (contains r.blocked_operations i.operation ≡ false)
        × (domain_is_suppressed r (subject_domain i) ≡ false)
        × (contains r.review_operations i.operation ≡ false)
        × (country_is_blocked r (first_text i.country []) ≡ false)
        × (not_allowlisted r i ≡ false))
unfolding evaluate
evaluate-allowed_iff r i = ground arith

any_of : (p : Text → Bool) (xs ys : List Text) (x : Text) → p x ≡ true → any p (xs ++ x ∷ ys) ≡ true
unfolding any
any_of p [] ys x h = ground arith
any_of p (z ∷ xs) ys x h = ground (arith, any_of p xs ys x)

covers_subdomain : (sub d : Text) → covers (sub ++ b'.' ∷ d) d ≡ true
unfolding covers
covers_subdomain sub d = ground (arith, ends_with-append sub (b'.' ∷ d))

-- An operation on a subdomain of a suppressed domain, in whatever case it is written, is blocked, and
-- no other rule can let it through.
pub subdomain-blocked :
    (r : Rules) (i : PolicyInput) (before after : List Text) (d sub : Text) (c : ℕ) (rest : Text)
    → r.suppressed_domains ≡ before ++ d ∷ after
    → subject_domain i ≡ c ∷ rest
    → lower (c ∷ rest) ≡ sub ++ b'.' ∷ d
    → (evaluate r i).0 ≡ blocked
unfolding evaluate
subdomain-blocked r i before after d sub c rest rules domain form = ground (arith, is_suppressed)
  where
    is_suppressed : domain_is_suppressed r (subject_domain i) ≡ true
    is_suppressed = rw domain (
        unfold suppressed in
        rw (form, rules)
          (any_of (covers (sub ++ b'.' ∷ d)) before after d (covers_subdomain sub d)))

-- Where an allowlist is required, an operation whose country is neither given nor in its context is
-- not let through, unless the allowlist itself holds an empty text.
pub unknown_country-closed :
    (r : Rules) (i : PolicyInput)
    → r.require_country_allowlist ≡ true
    → contains (map upper r.country_allowlist) [] ≡ false
    → i.country ≡ none
    → i.target_country ≡ none
    → (evaluate r i).0 ≢ allowed
unfolding evaluate target upper
unknown_country-closed r i required absent none_given none_in_context = ground arith

-- Each entry of the one list is an entry of the other.
abbrev pub AreAmong : List Text → List Text → Type 0
AreAmong xs ys = (t : Text) → contains xs t ≡ true → contains ys t ≡ true

-- Rules with more entries that forbid, or with fewer countries to choose from.
pub record IsTighter (r s : Rules) : Type 0 where
  pub operations : AreAmong r.blocked_operations s.blocked_operations
  pub reviews : AreAmong r.review_operations s.review_operations
  pub countries : AreAmong r.blocked_countries s.blocked_countries
  pub domains : AreAmong r.suppressed_domains s.suppressed_domains
  pub required : r.require_country_allowlist ≡ true → s.require_country_allowlist ≡ true
  pub allowlist : AreAmong s.country_allowlist r.country_allowlist

AreAmong-tail : (x : Text) (xs ys : List Text) → AreAmong (x ∷ xs) ys → AreAmong xs ys
unfolding contains
AreAmong-tail x xs ys h t q = h t (ground arith)

any_at :
    (p : Text → Bool) (ys : List Text) (x : Text)
    → contains ys x ≡ true
    → p x ≡ true
    → any p ys ≡ true
unfolding any contains
any_at p [] x h q = absurd (cc)
any_at p (y ∷ ys) x h q = elim (Bool-cases (text_eq y x)) [
  | inl e ↦ let it : y ≡ x = text_eq_sound y x e in rw (it, q) refl
  | inr e ↦ ground (arith, any_at p ys x)
]

any_among :
    (p : Text → Bool) (xs ys : List Text) → AreAmong xs ys → any p xs ≡ true → any p ys ≡ true
unfolding any contains
any_among p [] ys h q = absurd (cc)
any_among p (x ∷ xs) ys h q = elim (Bool-cases (p x)) [
  | inl e ↦ any_at p ys x (h x (rw (text_eq_refl x) refl)) e
  | inr e ↦ any_among p xs ys (AreAmong-tail x xs ys h) (ground arith)
]

contains-map :
    (f : Text → Text) (xs : List Text) (t : Text)
    → contains (map f xs) t ≡ any (λ x. text_eq (f x) t) xs
unfolding any contains
contains-map f [] t = refl
contains-map f (x ∷ xs) t = ap (λ b. text_eq (f x) t || b) (contains-map f xs t)

contains_among :
    (f : Text → Text) (xs ys : List Text) (t : Text)
    → AreAmong xs ys
    → contains (map f xs) t ≡ true
    → contains (map f ys) t ≡ true
contains_among f xs ys t h q =
    contains-map f ys t ∙ any_among (λ x. text_eq (f x) t) xs ys h (sym (contains-map f xs t) ∙ q)

not_of : (b c : Bool) → (b ≡ true → c ≡ true) → c ≡ false → b ≡ false
not_of b c h e = ground arith

module _ (r s : Rules) (t : IsTighter r s) where
  domain_tighter : (d : Text) → domain_is_suppressed r d ≡ true → domain_is_suppressed s d ≡ true
  unfolding suppressed
  domain_tighter [] h = h
  domain_tighter (c ∷ d) h =
      any_among (covers (lower (c ∷ d))) r.suppressed_domains s.suppressed_domains t.domains h

  country_tighter : (c : Text) → country_is_blocked r c ≡ true → country_is_blocked s c ≡ true
  country_tighter [] h = h
  country_tighter (x ∷ c) h =
      contains_among upper r.blocked_countries s.blocked_countries (upper (x ∷ c)) t.countries h

  allowlist_tighter : (i : PolicyInput) → not_allowlisted r i ≡ true → not_allowlisted s i ≡ true
  allowlist_tighter i h = ground (
    arith,
    t.required,
    contains_among upper s.country_allowlist r.country_allowlist (target i) t.allowlist,
  )

-- More entries never open the gate: if each blocked operation, operation under review, blocked
-- country and suppressed domain of `r` is one of `s`, `s` requires an allowlist where `r` does, and
-- each country on the allowlist of `s` is on that of `r`, what `s` lets through `r` lets through.
pub tighter_allows_less :
    (r s : Rules) (i : PolicyInput)
    → IsTighter r s
    → (evaluate s i).0 ≡ allowed
    → (evaluate r i).0 ≡ allowed
tighter_allows_less r s i t h =
    let (ops, dom, rev, ctry, allow) = (evaluate-allowed_iff s i).0 h in
    (evaluate-allowed_iff r i).1 (
      not_of _ _ (t.operations i.operation) ops,
      not_of _ _ (domain_tighter r s t (subject_domain i)) dom,
      not_of _ _ (t.reviews i.operation) rev,
      not_of _ _ (country_tighter r s t (first_text i.country [])) ctry,
      not_of _ _ (allowlist_tighter r s t i) allow,
    )
