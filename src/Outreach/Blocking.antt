-- ===== src/Outreach/Blocking.antt =====
-- What a suppression entry does to the gate.
use lead_engine.Prelude.{
  ◌∙◌, ◌⊎◌, ℕ, ◌≡◌, ◌≢◌, ◌↔◌, refl, Bool, true, false, none, some, List, [], ◌∷◌, ◌++◌, arith, ◌==◌,
  ==_iff, Text, text, text_eq, text_eq_refl, Option-cases, inl, inr, All, any,
}
use lead_engine.Sql.{update_where, select_one}
use lead_engine.Sql.Ordered.{first_by, first_by-none}
use lead_engine.Outreach.{
  allow, block, Entry, normalize, covers_target, newer, is_suppressed, is_target, renewed,
  new_entry, add, suppress_bounced, channel_ok, evaluate, level, high,
}

none_of-any :
    (p : Entry → Bool) (entries : List Entry)
    → All (λ e. p e ≡ false) entries
    → any p entries ≡ true
    → ⊥
unfolding any
none_of-any p [] h e = cc
none_of-any p (x ∷ entries) h e = ground (arith, none_of-any p entries h.1)

any-append_last :
    (p : Entry → Bool) (entries : List Entry) (x : Entry)
    → p x ≡ true
    → any p (entries ++ x ∷ []) ≡ true
unfolding any
any-append_last p [] x h = ground arith
any-append_last p (y ∷ entries) x h = ground (arith, any-append_last p entries x h)

any-update_where :
    (p q : Entry → Bool) (f : Entry → Entry) (entries : List Entry)
    → ((e : Entry) → p (f e) ≡ p e)
    → any p (update_where q f entries) ≡ any p entries
unfolding any update_where
any-update_where p q f [] same = refl
any-update_where p q f (x ∷ entries) same =
    ground (arith, same x, any-update_where p q f entries same)

any-select_one :
    (p q : Entry → Bool) (entries : List Entry) (e : Entry)
    → ((x : Entry) → q x ≡ true → p x ≡ true)
    → select_one q entries ≡ some e
    → any p entries ≡ true
unfolding any select_one
any-select_one p q [] e sub h = cc
any-select_one p q (x ∷ entries) e sub h = ground (arith, sub x, any-select_one p q entries e sub)

-- The targets that an entry for `t` speaks for.
abbrev pub SpeaksFor : Text × Text → Text × Text → Type 0
SpeaksFor t u = ((t.0 ≡ u.0) ⊎ (t.0 ≡ text "all")) × (t.1 ≡ u.1)

target-covers :
    (org : ℕ) (t u : Text × Text) (e : Entry)
    → SpeaksFor t u
    → is_target org t e ≡ true
    → covers_target org u e ≡ true
target-covers org t u e (inl c, v) h = rw (← c) (rw (← v) (ground arith))
target-covers org t u e (inr c, v) h = rw (← v) (ground (arith, rw c at h))

new-is_target :
    (id org : ℕ) (t : Text × Text) (reason source : Text) (now : ℕ)
    → is_target org t (new_entry id org t reason source now) ≡ true
new-is_target id org t reason source now =
    ground (arith, text_eq_refl t.0, text_eq_refl t.1, (==_iff org org).1 refl)

-- After an entry is added, some entry covers each target that it speaks for.
add-covers :
    (id org : ℕ) (channel value reason source : Text) (now : ℕ) (entries : List Entry)
    (u : Text × Text)
    → SpeaksFor (normalize channel value) u
    → any (covers_target org u) (add id org channel value reason source now entries) ≡ true
unfolding add
add-covers id org channel value reason source now entries u speaks =
    let t = normalize channel value in
    elim (Option-cases (select_one (is_target org t) entries)) [
      | inl e ↦ rw e (
          any-append_last (covers_target org u) entries (new_entry id org t reason source now) (
            target-covers org t u (new_entry id org t reason source now) speaks
              (new-is_target id org t reason source now)))
      | inr (x, e) ↦ rw e (
          any-update_where (covers_target org u) (λ y. y.id == x.id) (renewed reason source now)
            entries (λ y. refl)
          ∙ any-select_one (covers_target org u) (is_target org t) entries x
              (λ y. target-covers org t u y speaks) e)
    ]

-- Once an entry is added for an organization, the gate blocks every send of that organization to its
-- value, in whatever case and with whatever white space it is written, on the entry's channel, or on
-- each channel if the entry's is `all`, whatever channels are enabled and however few are sent.
pub add-evaluate :
    (id org : ℕ) (channel value reason source : Text) (now : ℕ) (entries : List Entry)
    (channels : List Text) (channel' : Text) (c : ℕ) (s : Text) (recent_sends baseline : ℕ)
    → SpeaksFor (normalize channel value) (normalize channel' (c ∷ s))
    → (evaluate channels org channel'
        (c ∷ s)
        recent_sends
        baseline
        (add id org channel value reason source now entries)).0
      ≡ block
unfolding evaluate is_suppressed
add-evaluate id org channel value reason source now entries channels channel' c s recent_sends
      baseline speaks =
    let u = normalize channel' (c ∷ s) in
    let after = add id org channel value reason source now entries in
    elim (Option-cases (first_by newer (covers_target org u) after)) [
      | inl e ↦ absurd (
          none_of-any (covers_target org u) after
            (first_by-none newer (covers_target org u) after e)
            (add-covers id org channel value reason source now entries u speaks))
      | inr (x, e) ↦ rw e (ground arith)
    ]

-- The gate allows a send exactly if its target is not suppressed, its channel is enabled, and the
-- volume is not far above the baseline.
pub evaluate-allow_iff :
    (channels : List Text) (org : ℕ) (channel value : Text) (recent_sends baseline : ℕ)
    (entries : List Entry)
    → ((evaluate channels org channel value recent_sends baseline entries).0 ≡ allow) ↔ (
        (is_suppressed org channel value entries ≡ none)
        × (channel_ok channels channel ≡ true)
        × (level recent_sends baseline ≢ high))
unfolding evaluate
evaluate-allow_iff channels org channel value recent_sends baseline entries = ground arith

-- An address that the verifier found INVALID gets no mail of the organization from then on.
pub suppress_bounced-evaluate :
    (id org c : ℕ) (s : Text) (now : ℕ) (entries : List Entry) (channels : List Text)
    (recent_sends baseline : ℕ)
    → (evaluate channels org
        (text "email")
        (c ∷ s)
        recent_sends
        baseline
        (suppress_bounced id org (some (c ∷ s)) (some (text "INVALID")) now entries).1).0
      ≡ block
unfolding suppress_bounced text_eq
suppress_bounced-evaluate id org c s now entries channels recent_sends baseline =
    add-evaluate id org (text "email") (c ∷ s) (text "bounced") (text "pipeline") now entries
      channels (text "email") c s recent_sends baseline (inl refl, refl)
