-- ===== src/Domain.antt =====
-- internal/domain: the types that every module shares.
pub mod Engine
pub mod Finding
pub mod Scan
pub mod Pentest
