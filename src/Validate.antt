-- ===== src/Validate.antt =====
-- internal/platform/validate: which addresses a pentest target may have.
pub mod Address
pub mod Ranges
pub mod Target
pub mod Allowed
