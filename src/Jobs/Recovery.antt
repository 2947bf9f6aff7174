-- ===== src/Jobs/Recovery.antt =====
-- recover_interrupted_jobs after a restart.
use lead_engine.Prelude.{ℕ, ◌≡◌, some, Text}
use lead_engine.Sql.Keyed.{find_row}
use lead_engine.Jobs.Transitions.{paused}
use lead_engine.Jobs.{Row, key, Db, moved_row, resume_at_row}
use lead_engine.Jobs.Audit.{HasUniqueIds}

module _ (job_id : ℕ) (reason : Text) (at now : ℕ) (db : Db) (unique : HasUniqueIds db) (r : Row)
    (found : find_row key job_id db.jobs ≡ some r) where
  abbrev paused_row : Row
  paused_row = resume_at_row at (moved_row paused (some reason) now r)
