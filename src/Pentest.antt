-- ===== src/Pentest.antt =====
-- internal/engines/pentest: what is one finding, and how sure it is.
pub mod Confidence
pub mod Correlator
pub mod Groups
pub mod Grouping
