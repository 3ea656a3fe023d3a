-- ===== src/Organization.antt =====
-- Organisations: members, roles and invitations.
pub mod Store
pub mod Service
pub mod Invites
pub mod Requests
pub mod Sums
pub mod Admins
pub mod Grows
pub mod Kept
pub mod Keys
pub mod Steps
pub mod Answers
pub mod Closed
pub mod Once
