-- ===== src/Truth/Histories.antt =====
-- The calls of lead_engine/truth.py that write facts or conflicts, as one type.
use lead_engine.Prelude.{ℕ, Bool, Option, List, [], ◌∷◌, Text}
use lead_engine.Truth.Rows.{Store, Context}
use lead_engine.Truth.{Origin}
use lead_engine.Truth.Recording.{Observation, record_fact}
use lead_engine.Truth.Verdicts.{Outcome, verify_fact, resolve_conflict}
use lead_engine.Truth.Reading.{apply_freshness}

-- Each with the context of its caller and its reading of the clock.
pub data Call : Type 0 where
  records : Context → Observation → ℕ → Call
  verifies : Context → ℕ → Outcome → Option ℕ → Origin → ℕ → Call
  resolves : ℕ → ℕ → Bool → Option Text → Option Text → ℕ → Call
  reads : Context → Text → Text → ℕ → Call

module _ (hostname : Text → Text) (policy : Text → Option ℕ) where
  unfoldable pub apply : Call → Store → Store
  apply (records ctx o now) s = (record_fact hostname policy ctx o now s).1
  apply (verifies ctx id outcome confidence o now) s =
      (verify_fact policy ctx id outcome confidence o now s).1
  apply (resolves id winner automatic remark by now) s =
      (resolve_conflict id winner automatic remark by now s).1
  apply (reads ctx kind subject now) s = apply_freshness ctx kind subject now s

  unfoldable pub run : List Call → Store → Store
  run [] s = s
  run (c ∷ cs) s = run cs (apply c s)

abbrev pub empty_store : Store
empty_store = record { facts = []; sources = []; conflicts = []; next_fact = 0; next_conflict = 0 }
