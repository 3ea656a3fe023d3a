-- ===== src/Project.antt =====
-- internal/modules/project: who may touch a project, its credential and its pentest targets.
pub mod Crypto
pub mod Store
pub mod Service
pub mod Targets
pub mod Collaborators
pub mod Credential
pub mod Requests
pub mod Frame
pub mod Elsewhere
pub mod Writes
pub mod Public
pub mod Confined
