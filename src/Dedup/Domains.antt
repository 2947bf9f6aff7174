-- ===== src/Dedup/Domains.antt =====
-- `union` of lead_engine/pipeline/dedup.py keeps companies of different domains apart.
use lead_engine.Prelude.{
  ℕ, ◌≡◌, refl, sym, ap, ◌∙◌, ◌⊎◌, inl, inr, min, max, true, false, ◌||◌, Option, some, List, [],
  ◌∷◌, arith, ◌==◌, leb, ==_iff, if◌then◌else◌, any, Bool-cases, Text, text_eq_sound, text_eq_refl,
  contains,
}
use lead_engine.Dedup.Forest.{Forest, found, after_find, conflicting, union_of, join, joined, union}
use lead_engine.Dedup.Roots.{IsDown, root, root-IsRoot, IsSameForest, find-root}
use lead_engine.Dedup.Unions.{merged_root, joined-IsDown, joined-root}

-- `find` twice, as `union` begins.
module _ (i j : ℕ) (f : Forest) (down : IsDown f.parent) where
  abbrev looked : Forest
  looked = after_find j (after_find i f)

  looked-IsSame : IsSameForest f.parent looked.parent
  looked-IsSame =
      let one = (find-root i f.parent down).1 in
      let two = (find-root j (after_find i f).parent one.is_down).1 in
      record { is_down = two.is_down; same_root = λ k. two.same_root k ∙ one.same_root k }

  found-i : found i f ≡ root i f.parent
  found-i = (find-root i f.parent down).0

  found-j : found j (after_find i f) ≡ root j f.parent
  found-j =
      let one = (find-root i f.parent down).1 in
      (find-root j (after_find i f).parent one.is_down).0 ∙ one.same_root j

  looked-IsRoot : (k : ℕ) → looked.parent (root k f.parent) ≡ root k f.parent
  looked-IsRoot k =
      rw (← looked-IsSame.same_root k) (root-IsRoot looked.parent looked-IsSame.is_down k)

  union-joined : union i j f ≡ joined (root i f.parent) (root j f.parent) looked
  unfolding union
  union-joined = rw (found-i, found-j) refl

  pub union-IsDown : IsDown (union i j f).parent
  union-IsDown = rw union-joined (
      joined-IsDown looked looked-IsSame.is_down (root i f.parent) (root j f.parent)
        (looked-IsRoot i) (looked-IsRoot j))

  -- A union of two indexes puts each index whose root is one of theirs under the lesser of the two,
  -- unless both groups have domains and these differ; no other index changes its root.
  pub union-root :
      (k : ℕ)
      → root k (union i j f).parent
        ≡ merged_root (root i f.parent) (root j f.parent) f.group_domains (root k f.parent)
  union-root k = rw union-joined (
      joined-root looked looked-IsSame.is_down (root i f.parent) (root j f.parent) (looked-IsRoot i)
        (looked-IsRoot j) k
      ∙ ap (merged_root (root i f.parent) (root j f.parent) f.group_domains)
          (looked-IsSame.same_root k))

-- At most one domain.
abbrev pub IsSmall : List Text → Type 0
IsSmall ds = (ds ≡ []) ⊎ ((d : Text) × (ds ≡ d ∷ []))

not_conflicting : (d e : Text) → conflicting (d ∷ []) (e ∷ []) ≡ false → d ≡ e
unfolding conflicting any contains
not_conflicting d e h = ground (arith, h, text_eq_sound e d)

abbrev Agree : List Text → List Text → Type 0
Agree ds es = (d e : Text) → ds ≡ d ∷ [] → es ≡ e ∷ [] → d ≡ e

not_conflicting-Agree : (ds es : List Text) → conflicting ds es ≡ false → Agree ds es
not_conflicting-Agree ds es h d e a b = not_conflicting d e (rw (a, b) at h)

-- What a union of two sets of domains that do not conflict has.
pub record Absorbs (ds es us : List Text) : Type 0 where
  pub small : IsSmall us
  pub left : (d : Text) → ds ≡ d ∷ [] → us ≡ d ∷ []
  pub right : (d : Text) → es ≡ d ∷ [] → us ≡ d ∷ []

self : (n : ℕ) → (n == n) ≡ true
self n = ground arith

same_head : (d e : Text) → (d ∷ []) ≡ (e ∷ []) → d ≡ e
same_head d e h = cc

union_of-Absorbs :
    (ds es : List Text) → IsSmall ds → IsSmall es → Agree ds es → Absorbs ds es (union_of ds es)
unfolding union_of contains
union_of-Absorbs ds es (inl a) (inl b) h =
    rw (a, b) (record { small = inl refl; left = λ x e. e; right = λ x e. e })
union_of-Absorbs ds es (inl a) (inr (e, b)) h =
    rw (a, b) (record { small = inr (e, refl); left = λ x q. absurd (cc); right = λ x q. q })
union_of-Absorbs ds es (inr (d, a)) (inl b) h =
    rw (a, b) (record { small = inr (d, refl); left = λ x q. q; right = λ x q. absurd (cc) })
union_of-Absorbs ds es (inr (d, a)) (inr (e, b)) h =
    let same = h d e a b in
    rw (a, b, ← same, text_eq_refl d)
      (record { small = inr (d, refl); left = λ x q. q; right = λ x q. q })

-- Each group has at most one domain, and it is that of each of its leads that has one.
pub record IsSound (dom : ℕ → Option Text) (f : Forest) : Type 0 where
  pub is_down : IsDown f.parent
  pub small : (r : ℕ) → IsSmall (f.group_domains r)
  pub owns : (k : ℕ) (d : Text) → dom k ≡ some d → f.group_domains (root k f.parent) ≡ d ∷ []

-- Two leads of a group whose domains are known have the same.
pub same_domain :
    (dom : ℕ → Option Text) (f : Forest)
    → IsSound dom f
    → (k l : ℕ) (d e : Text) → dom k ≡ some d
    → dom l ≡ some e
    → root k f.parent ≡ root l f.parent
    → d ≡ e
same_domain dom f h k l d e dk dl same =
    same_head d e (sym (h.owns k d dk) ∙ ap f.group_domains same ∙ h.owns l e dl)

module _ (dom : ℕ → Option Text) (f : Forest) (h : IsSound dom f) (ri rj : ℕ)
    (ri-IsRoot : f.parent ri ≡ ri) (rj-IsRoot : f.parent rj ≡ rj) where
  abbrev low : List Text
  low = f.group_domains (min ri rj)

  abbrev high : List Text
  high = f.group_domains (max ri rj)

  low-high-Agree : conflicting (f.group_domains ri) (f.group_domains rj) ≡ false → Agree low high
  low-high-Agree c d e a b = elim (Bool-cases (leb ri rj)) [
    | inl o ↦
        let m : min ri rj ≡ ri = ground (arith, o) in
        let n : max ri rj ≡ rj = ground (arith, o) in
        not_conflicting-Agree _ _ c d e (sym (ap f.group_domains m) ∙ a)
          (sym (ap f.group_domains n) ∙ b)
    | inr o ↦
        let m : min ri rj ≡ rj = ground (arith, o) in
        let n : max ri rj ≡ ri = ground (arith, o) in
        sym (
          not_conflicting-Agree _ _ c e d (sym (ap f.group_domains n) ∙ b)
            (sym (ap f.group_domains m) ∙ a))
  ]

  module _ (apart : (ri == rj) ≡ false)
      (free : conflicting (f.group_domains ri) (f.group_domains rj) ≡ false) where
    taken : Absorbs low high (union_of low high)
    taken =
        union_of-Absorbs low high (h.small (min ri rj)) (h.small (max ri rj)) (low-high-Agree free)

    join-IsSmall : (r : ℕ) → IsSmall ((join (min ri rj) (max ri rj) f).group_domains r)
    join-IsSmall r = elim (Bool-cases (r == min ri rj)) [
      | inl e ↦ rw e taken.small
      | inr e ↦ rw e (h.small r)
    ]

    join-owns :
        (k : ℕ) (d : Text)
        → dom k ≡ some d
        → (join (min ri rj) (max ri rj) f).group_domains
            (if root k f.parent == ri || root k f.parent == rj then min ri rj else root k f.parent)
          ≡ d ∷ []
    join-owns k d e = elim (Bool-cases (rk == ri || rk == rj)) [
      | inl m ↦ rw (m, self (min ri rj)) (taken_over m)
      | inr m ↦
          let other : (rk == min ri rj) ≡ false = ground (arith, m) in rw (m, other) (h.owns k d e)
    ]
      where
        rk : ℕ
        rk = root k f.parent

        taken_over : (rk == ri || rk == rj) ≡ true → union_of low high ≡ d ∷ []
        taken_over m = elim (Bool-cases (rk == max ri rj)) [
          | inl t ↦
              taken.right d (sym (ap f.group_domains ((==_iff rk (max ri rj)).0 t)) ∙ h.owns k d e)
          | inr t ↦
              let b : rk ≡ min ri rj = ground (arith, m, t) in
              taken.left d (sym (ap f.group_domains b) ∙ h.owns k d e)
        ]

  joined-IsSound : IsSound dom (joined ri rj f)
  joined-IsSound = record {
    is_down = joined-IsDown f h.is_down ri rj ri-IsRoot rj-IsRoot;
    small = joined-IsSmall;
    owns = λ k d e.
        ap (joined ri rj f).group_domains (joined-root f h.is_down ri rj ri-IsRoot rj-IsRoot k)
        ∙ joined-owns k d e;
  }
    where
      joined-IsSmall : (r : ℕ) → IsSmall ((joined ri rj f).group_domains r)
      joined-IsSmall r = elim (Bool-cases (ri == rj)) [
        | inl e ↦ rw e (h.small r)
        | inr e ↦ elim (Bool-cases (conflicting (f.group_domains ri) (f.group_domains rj))) [
          | inl c ↦ rw (e, c) (h.small r)
          | inr c ↦ rw (e, c) (join-IsSmall e c r)
        ]
      ]

      joined-owns :
          (k : ℕ) (d : Text)
          → dom k ≡ some d
          → (joined ri rj f).group_domains (merged_root ri rj f.group_domains (root k f.parent))
            ≡ d ∷ []
      joined-owns k d q =
          elim (Bool-cases (conflicting (f.group_domains ri) (f.group_domains rj))) [
            | inl c ↦ elim (Bool-cases (ri == rj)) [
              | inl e ↦ rw (e, c) (h.owns k d q)
              | inr e ↦ rw (e, c) (h.owns k d q)
            ]
            | inr c ↦ elim (Bool-cases (ri == rj)) [
              | inl e ↦ rw (e, c) (ap f.group_domains (stays e) ∙ h.owns k d q)
              | inr e ↦ rw (e, c) (join-owns e c k d q)
            ]
          ]
        where
          stays :
              (ri == rj) ≡ true
              → (if root k f.parent == ri || root k f.parent == rj
                  then min ri rj
                  else root k f.parent)
                ≡ root k f.parent
          stays e = ground (arith, e)

-- `union` keeps each group to one domain.
pub union-IsSound :
    (dom : ℕ → Option Text) (f : Forest) (i j : ℕ) → IsSound dom f → IsSound dom (union i j f)
union-IsSound dom f i j h =
    let g = looked i j f h.is_down in
    let same = looked-IsSame i j f h.is_down in
    rw (union-joined i j f h.is_down) (
      joined-IsSound dom g
        (record {
          is_down = same.is_down;
          small = h.small;
          owns = λ k d e. ap f.group_domains (same.same_root k) ∙ h.owns k d e;
        })
        (root i f.parent) (root j f.parent) (looked-IsRoot i j f h.is_down i)
        (looked-IsRoot i j f h.is_down j))
