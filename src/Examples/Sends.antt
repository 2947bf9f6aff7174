-- ===== src/Examples/Sends.antt =====
-- The gate of lead_engine/policy.py on one suppressed address.
use lead_engine.Prelude.{
  strip, strip_left, strip_right, ◌≡◌, ◌≢◌, ◌↔◌, refl, true, none, [], ◌∷◌, Text, text, inl, lower,
}
use lead_engine.Outreach.{
  allow, block, clean, normalize, is_suppressed, add, channel_ok, evaluate, level, high,
}
use lead_engine.Outreach.Blocking.{SpeaksFor, add-evaluate, evaluate-allow_iff}

abbrev email : Text
email = text "email"

-- The address as it was added, and as a send spells it.
abbrev added : Text
added = text "Jo@acme.com"

abbrev spelled : Text
spelled = text " jo@ACME.com"

same_target : SpeaksFor (normalize email added) (normalize (text "Email ") spelled)
unfolding normalize clean strip strip_left strip_right lower
same_target = (inl refl, refl)

add-evaluate_example :
    (evaluate
      (email ∷ [])
      1
      (text "Email ")
      spelled
      0
      10
      (add 0 1 email added (text "bounced") (text "pipeline") 20 [])).0
    ≡ block
add-evaluate_example =
    add-evaluate 0 1 email added (text "bounced") (text "pipeline") 20 [] (email ∷ [])
      (text "Email ") b' ' (text "jo@ACME.com") 0 10 same_target

evaluate-allow_iff_example : ((evaluate (email ∷ []) 1 email added 0 10 []).0 ≡ allow) ↔ (
    (is_suppressed 1 email added [] ≡ none)
    × (channel_ok (email ∷ []) email ≡ true)
    × (level 0 10 ≢ high))
evaluate-allow_iff_example = evaluate-allow_iff (email ∷ []) 1 email added 0 10 []
