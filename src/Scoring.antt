-- ===== src/Scoring.antt =====
-- internal/modules/scoring: from findings to the score and the verdict.
pub mod Floats
pub mod Compute
pub mod Floor
pub mod Counts
