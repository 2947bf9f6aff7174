-- ===== src/Dedup/Unions.antt =====
-- What `union` of lead_engine/pipeline/dedup.py does to groups and to their domains.
use lead_engine.Prelude.{
  ℕ, ◌<◌, ◌≡◌, refl, sym, ap, ◌∙◌, inl, inr, min, max, true, false, ◌||◌, List, arith, ◌==◌, leb,
  ==_iff, if◌then◌else◌, Bool-cases, Text,
}
use lead_engine.Dedup.Forest.{Forest, put, conflicting, joined}
use lead_engine.Dedup.Roots.{IsDown, root, root-fixed, root_step, climb}

module _ (p : ℕ → ℕ) (down : IsDown p) (top other : ℕ) (top-IsRoot : p top ≡ top)
    (other-IsRoot : p other ≡ other) (below : top < other) where
  abbrev attached : ℕ → ℕ
  attached = put other top p

  pub attached-IsDown : IsDown attached
  attached-IsDown j = elim (Bool-cases (j == other)) [
    | inl e ↦ rw e (omega (arith, below, (==_iff j other).0 e))
    | inr e ↦ rw e (down j)
  ]

  -- The group of `other` goes to `top`; all else stays.
  pub root-attached : (k : ℕ) → root k attached ≡ (if root k p == other then top else root k p)
  root-attached =
      climb p down (λ k. root k attached ≡ (if root k p == other then top else root k p)) at_root
        above
    where
      at_top : root top attached ≡ top
      at_top = root-fixed attached attached-IsDown top (ground (arith, top-IsRoot, below))

      at_root : (k : ℕ) → p k ≡ k → root k attached ≡ (if root k p == other then top else root k p)
      at_root k e = elim (Bool-cases (k == other)) [
        | inl m ↦
            rw (root-fixed p down k e, m)
              (sym (root_step attached attached-IsDown k)
                ∙ ap (λ i. root i attached) (here m)
                ∙ at_top)
        | inr m ↦ rw (root-fixed p down k e, m) (root-fixed attached attached-IsDown k (rw m e))
      ]
        where
          here : (k == other) ≡ true → attached k ≡ top
          here m = rw m refl

      above :
          (k : ℕ)
          → p k < k
          → root (p k) attached ≡ (if root (p k) p == other then top else root (p k) p)
          → root k attached ≡ (if root k p == other then top else root k p)
      above k lt h = elim (Bool-cases (k == other)) [
        | inl m ↦ absurd (omega (arith, lt, other-IsRoot, same m))
        | inr m ↦
            rw (← root_step p down k)
              (sym (root_step attached attached-IsDown k) ∙ ap (λ i. root i attached) (stays m) ∙ h)
      ]
        where
          same : (k == other) ≡ true → p k ≡ k
          same m = rw ((==_iff k other).0 m) other-IsRoot

          stays : (k == other) ≡ false → attached k ≡ p k
          stays m = rw m refl

-- Where the root `rk` of an index goes when the groups of two roots are joined, unless they conflict.
abbrev pub merged_root : ℕ → ℕ → (ℕ → List Text) → ℕ → ℕ
merged_root ri rj domains rk =
    if conflicting (domains ri) (domains rj)
    then rk
    else if rk == ri || rk == rj
    then min ri rj
    else rk

module _ (f : Forest) (down : IsDown f.parent) (ri rj : ℕ) (ri-IsRoot : f.parent ri ≡ ri)
    (rj-IsRoot : f.parent rj ≡ rj) where
  min-IsRoot : f.parent (min ri rj) ≡ min ri rj
  min-IsRoot = elim (Bool-cases (leb ri rj)) [
    | inl e ↦ let m : min ri rj ≡ ri = ground (arith, e) in rw m ri-IsRoot
    | inr e ↦ let m : min ri rj ≡ rj = ground (arith, e) in rw m rj-IsRoot
  ]

  max-IsRoot : f.parent (max ri rj) ≡ max ri rj
  max-IsRoot = elim (Bool-cases (leb ri rj)) [
    | inl e ↦ let m : max ri rj ≡ rj = ground (arith, e) in rw m rj-IsRoot
    | inr e ↦ let m : max ri rj ≡ ri = ground (arith, e) in rw m ri-IsRoot
  ]

  apart : (ri == rj) ≡ false → min ri rj < max ri rj
  apart e = ground (arith, e)

  pub joined-IsDown : IsDown (joined ri rj f).parent
  joined-IsDown i = elim (Bool-cases (ri == rj)) [
    | inl e ↦ rw e (down i)
    | inr e ↦ elim (Bool-cases (conflicting (f.group_domains ri) (f.group_domains rj))) [
      | inl c ↦ rw (e, c) (down i)
      | inr c ↦
          rw (e, c)
            (attached-IsDown f.parent down (min ri rj) (max ri rj) min-IsRoot max-IsRoot (apart e)
              i)
    ]
  ]

  pub joined-root :
      (k : ℕ) → root k (joined ri rj f).parent ≡ merged_root ri rj f.group_domains (root k f.parent)
  joined-root k = elim (Bool-cases (conflicting (f.group_domains ri) (f.group_domains rj))) [
    | inl c ↦ elim (Bool-cases (ri == rj)) [ inl e ↦ rw (e, c) refl | inr e ↦ rw (e, c) refl ]
    | inr c ↦ elim (Bool-cases (ri == rj)) [
      | inl e ↦ rw (e, c) (stays e)
      | inr e ↦
          rw (e, c)
            (root-attached f.parent down (min ri rj) (max ri rj) min-IsRoot max-IsRoot (apart e) k
              ∙ moves)
    ]
  ]
    where
      stays :
          (ri == rj) ≡ true
          → root k f.parent ≡ (
              if root k f.parent == ri || root k f.parent == rj then min ri rj else root k f.parent)
      stays e = ground (arith, e)

      moves :
          (if root k f.parent == max ri rj then min ri rj else root k f.parent)
          ≡ (if root k f.parent == ri || root k f.parent == rj then min ri rj else root k f.parent)
      moves = ground arith
