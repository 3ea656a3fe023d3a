-- ===== src/Orchestrator.antt =====
-- internal/modules/orchestrator: scans, their jobs, and the workers that run them.
pub mod Rows
pub mod Worker
pub mod Once
pub mod Finish
pub mod Refund
pub mod Progress
pub mod Workspace
pub mod Engines
pub mod Choice
pub mod Create
pub mod Created
pub mod Schedules
pub mod Scheduling
pub mod Spaced
pub mod Ticks
pub mod Scheduled
