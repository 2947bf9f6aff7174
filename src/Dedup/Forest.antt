-- ===== src/Dedup/Forest.antt =====
-- The union-find of DedupEngine.run in lead_engine/pipeline/dedup.py. The lists `parent` and
-- `group_domains` are functions of an index, as each index that is read or written is in range.
use lead_engine.Prelude.{
  ℕ, zero, suc, min, max, Bool, true, false, not, ◌&&◌, List, [], ◌∷◌, ◌==◌, if◌then◌else◌, any,
  Text, contains,
}

pub record Forest : Type 0 where
  pub parent : ℕ → ℕ
  pub group_domains : ℕ → List Text

abbrev pub put {ℓ} : {A : Type ℓ} → ℕ → A → (ℕ → A) → ℕ → A
put i a f j = if j == i then a else f j

-- parent[i] = parent[parent[i]]
abbrev pub halve : ℕ → (ℕ → ℕ) → ℕ → ℕ
halve i p = put i (p (p i)) p

-- The loop of `find`, on fuel.
unfoldable pub find_on : ℕ → ℕ → (ℕ → ℕ) → ℕ × (ℕ → ℕ)
find_on zero i p = (i, p)
find_on (suc fuel) i p =
    let next = find_on fuel (halve i p i) (halve i p) in if p i == i then (i, p) else next

-- A parent is never above its child, so the index itself is fuel enough.
unfoldable pub find : ℕ → (ℕ → ℕ) → ℕ × (ℕ → ℕ)
find i p = find_on i i p

abbrev no_domains : List Text → Bool
no_domains [] = true
no_domains (d ∷ ds) = false

abbrev pub subset : List Text → List Text → Bool
subset ds es = not (any (λ d. not (contains es d)) ds)

-- Both sets have items and they differ.
unfoldable pub conflicting : List Text → List Text → Bool
conflicting ds es =
    not (no_domains ds) && (not (no_domains es) && not (subset ds es && subset es ds))

unfoldable pub union_of : List Text → List Text → List Text
union_of ds [] = ds
union_of ds (e ∷ es) = let rest = union_of ds es in if contains rest e then rest else e ∷ rest

abbrev pub join : ℕ → ℕ → Forest → Forest
join root other f = record {
  parent = put other root f.parent;
  group_domains =
      put root (union_of (f.group_domains root) (f.group_domains other)) f.group_domains;
}

-- `union`, once both roots are found.
abbrev pub joined : ℕ → ℕ → Forest → Forest
joined ri rj f =
    if ri == rj
    then f
    else if conflicting (f.group_domains ri) (f.group_domains rj)
    then f
    else join (min ri rj) (max ri rj) f

abbrev pub after_find : ℕ → Forest → Forest
after_find i f = record f { parent = (find i f.parent).1 }

abbrev pub found : ℕ → Forest → ℕ
found i f = (find i f.parent).0

unfoldable pub union : ℕ → ℕ → Forest → Forest
union i j f = joined (found i f) (found j (after_find i f)) (after_find j (after_find i f))
