-- ===== src/Domain.antt =====
-- domain/: the pure business rules.
pub mod Verification
pub mod Scoring
pub mod Policy
pub mod Icp
