-- ===== src/Identity.antt =====
-- Signing in: accounts, sessions and their refresh tokens.
pub mod Store
pub mod Service
pub mod Sessions
pub mod Requests
pub mod Moves
pub mod Refines
pub mod Live
pub mod Ended
pub mod Widened
pub mod Lockout
