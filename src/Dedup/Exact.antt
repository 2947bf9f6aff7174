-- ===== src/Dedup/Exact.antt =====
-- The first stage of lead_engine/pipeline/dedup.py brings the leads of one domain together.
use lead_engine.Prelude.{
  ℕ, ◌<◌, ◌≡◌, refl, sym, ap, ◌∙◌, inl, inr, true, false, ◌||◌, Option, none, some, List, [], ◌∷◌,
  ◌++◌, arith, ◌==◌, Bool-cases, All, Text, text, text_eq, text_eq_sound, text_eq_refl, min, any,
  contains,
}
use lead_engine.Dedup.Forest.{Forest, after_find, conflicting, union}
use lead_engine.Dedup.Roots.{root, find-root}
use lead_engine.Dedup.Unions.{merged_root}
use lead_engine.Dedup.Domains.{IsSound, union-root, union-IsSound}
use lead_engine.Dedup.Stages.{Seen, first_of, noted, enter_all}
use lead_engine.Dedup.Clusters.{after_find-IsSound}

-- Sound, and two indexes in one group.
pub record AreOne (dom : ℕ → Option Text) (k l : ℕ) (f : Forest) : Type 0 where
  pub sound : IsSound dom f
  pub together : root k f.parent ≡ root l f.parent

pub union-AreOne :
    (dom : ℕ → Option Text) (k l i j : ℕ) (f : Forest)
    → AreOne dom k l f
    → AreOne dom k l (union i j f)
union-AreOne dom k l i j f h = record {
  sound = union-IsSound dom f i j h.sound;
  together =
      union-root i j f h.sound.is_down k
      ∙ ap (merged_root (root i f.parent) (root j f.parent) f.group_domains) h.together
      ∙ sym (union-root i j f h.sound.is_down l);
}

pub find-AreOne :
    (dom : ℕ → Option Text) (k l i : ℕ) (f : Forest)
    → AreOne dom k l f
    → AreOne dom k l (after_find i f)
find-AreOne dom k l i f h =
    let same = (find-root i f.parent h.sound.is_down).1 in
    record {
      sound = after_find-IsSound dom i f h.sound;
      together = same.same_root k ∙ h.together ∙ sym (same.same_root l);
    }

not_self_conflicting : (d : Text) → conflicting (d ∷ []) (d ∷ []) ≡ false
unfolding conflicting any contains
not_self_conflicting d = ground (arith, text_eq_refl d)

-- A union of two leads of one domain.
union-joins :
    (dom : ℕ → Option Text) (i j : ℕ) (d : Text) (f : Forest)
    → IsSound dom f
    → dom i ≡ some d
    → dom j ≡ some d
    → root i (union i j f).parent ≡ root j (union i j f).parent
union-joins dom i j d f h di dj =
    union-root i j f h.is_down i ∙ moved ∙ sym (union-root i j f h.is_down j)
  where
    ri : ℕ
    ri = root i f.parent

    rj : ℕ
    rj = root j f.parent

    free : conflicting (f.group_domains ri) (f.group_domains rj) ≡ false
    free = rw (h.owns i d di, h.owns j d dj) (not_self_conflicting d)

    to_min : (r : ℕ) → (r == ri || r == rj) ≡ true → merged_root ri rj f.group_domains r ≡ min ri rj
    to_min r e = rw (free, e) refl

    moved : merged_root ri rj f.group_domains ri ≡ merged_root ri rj f.group_domains rj
    moved = to_min ri (ground arith) ∙ sym (to_min rj (ground arith))

abbrev pub domain_key : Text → Text
domain_key d = text "d:" ++ d

-- The keys of domains lead to leads of that domain.
abbrev pub TellsDomain : (ℕ → Option Text) → Text × ℕ → Type 0
TellsDomain dom (key, j) = (d : Text) → key ≡ domain_key d → dom j ≡ some d

-- The lead `k` is in the group of the first lead of its domain.
abbrev pub HasFirst : (ℕ → Option Text) → Seen Text → ℕ → Type 0
HasFirst dom seen k =
    (d : Text)
    → dom k ≡ some d
    → (j : ℕ) × (first_of text_eq (domain_key d) seen.firsts ≡ some j)
      × (root k seen.forest.parent ≡ root j seen.forest.parent)

-- What the first stage knows of the leads before index `n`.
pub record IsRun (dom : ℕ → Option Text) (n : ℕ) (seen : Seen Text) : Type 0 where
  pub sound : IsSound dom seen.forest
  pub tells : All (TellsDomain dom) seen.firsts
  pub first : (k : ℕ) → k < n → HasFirst dom seen k

first_tells :
    (dom : ℕ → Option Text) (d : Text) (firsts : List (Text × ℕ)) (j : ℕ)
    → All (TellsDomain dom) firsts
    → first_of text_eq (domain_key d) firsts ≡ some j
    → dom j ≡ some d
unfolding first_of
first_tells dom d [] j h e = absurd (cc)
first_tells dom d ((key, i) ∷ firsts) j h e = elim (Bool-cases (text_eq key (domain_key d))) [
  | inl m ↦
      let here : some i ≡ some j = rw m at e in
      let same : i ≡ j = cc in rw (← same) (h.0 d (text_eq_sound key (domain_key d) m))
  | inr m ↦ first_tells dom d firsts j h.1 (rw m at e)
]

module _ (dom : ℕ → Option Text) (i : ℕ) (key : Text) (seen : Seen Text)
    (sound : IsSound dom seen.forest) where
  abbrev next : Option ℕ → Seen Text
  next = noted i key seen

  noted-HasFirst :
      (k : ℕ) (was : Option ℕ)
      → first_of text_eq key seen.firsts ≡ was
      → HasFirst dom seen k
      → HasFirst dom (next was) k
  unfolding first_of
  noted-HasFirst k none w h d q =
      let (j, at, same) = h d q in
      elim (Bool-cases (text_eq key (domain_key d))) [
        | inl m ↦ absurd (
            clash j
              (ap (λ t. first_of text_eq t seen.firsts) (sym (text_eq_sound key (domain_key d) m))
                ∙ w)
              at)
        | inr m ↦ (j, rw m at, same)
      ]
    where
      clash :
          (j : ℕ)
          → first_of text_eq (domain_key d) seen.firsts ≡ none
          → first_of text_eq (domain_key d) seen.firsts ≡ some j
          → ⊥
      clash j a b = cc
  noted-HasFirst k (some l) w h d q =
      let (j, at, same) = h d q in
      (
        j,
        at,
        (union-AreOne dom k j i l seen.forest (record { sound = sound; together = same })).together,
      )

  pub noted-first :
      (d : Text) (was : Option ℕ)
      → first_of text_eq key seen.firsts ≡ was
      → All (TellsDomain dom) seen.firsts
      → key ≡ domain_key d
      → dom i ≡ some d
      → HasFirst dom (next was) i
  unfolding first_of
  noted-first d none w tells e di d' q =
      let same : d' ≡ d = cc in (i, rw (e, same, text_eq_refl (domain_key d)) refl, refl)
  noted-first d (some j) w tells e di d' q =
      let same : d' ≡ d = cc in
      let at = ap (λ t. first_of text_eq t seen.firsts) (sym e) ∙ w in
      (
        j,
        rw same at,
        union-joins dom i j d seen.forest sound di (first_tells dom d seen.firsts j tells at),
      )

  pub noted-IsRun :
      (n : ℕ) (was : Option ℕ)
      → first_of text_eq key seen.firsts ≡ was
      → IsRun dom n seen
      → TellsDomain dom (key, i)
      → IsRun dom n (next was)
  noted-IsRun n none w h t = record {
    sound = sound;
    tells = (t, h.tells);
    first = λ k lt. noted-HasFirst k none w (h.first k lt);
  }
  noted-IsRun n (some j) w h t = record {
    sound = union-IsSound dom seen.forest i j sound;
    tells = h.tells;
    first = λ k lt. noted-HasFirst k (some j) w (h.first k lt);
  }

module _ (dom : ℕ → Option Text) (i n : ℕ) where
  pub enter_all-IsRun :
      (keys : List Text) (seen : Seen Text)
      → IsRun dom n seen
      → All (λ key. TellsDomain dom (key, i)) keys
      → IsRun dom n (enter_all i keys seen)
  unfolding enter_all
  enter_all-IsRun [] seen h t = h
  enter_all-IsRun (key ∷ keys) seen h t =
      let was = first_of text_eq key seen.firsts in
      enter_all-IsRun keys (noted i key seen was)
        (noted-IsRun dom i key seen h.sound n was refl h t.0) t.1

  pub enter_all-HasFirst :
      (k : ℕ) (keys : List Text) (seen : Seen Text)
      → IsRun dom n seen
      → All (λ key. TellsDomain dom (key, i)) keys
      → HasFirst dom seen k
      → HasFirst dom (enter_all i keys seen) k
  unfolding enter_all
  enter_all-HasFirst k [] seen r t h = h
  enter_all-HasFirst k (key ∷ keys) seen r t h =
      let was = first_of text_eq key seen.firsts in
      enter_all-HasFirst k keys (noted i key seen was)
        (noted-IsRun dom i key seen r.sound n was refl r t.0) t.1
        (noted-HasFirst dom i key seen r.sound k was refl h)
