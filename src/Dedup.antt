-- ===== src/Dedup.antt =====
-- lead_engine/pipeline/dedup.py: DedupEngine.
pub mod Forest
pub mod Roots
pub mod Unions
pub mod Domains
pub mod Stages
pub mod Merge
pub mod Clusters
pub mod Grouping
pub mod Exact
pub mod Companies
