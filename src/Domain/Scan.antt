-- ===== src/Domain/Scan.antt =====
-- internal/domain/scan.go, scanjob.go: scans, their jobs, and how they are triggered.
use guard_pipe.Prelude.{Bool, true, false, String}

pub data ScanType : Type 0 where
  full_supply_chain partial pentest_only : ScanType
  other_scan_type : String → ScanType

unfoldable pub scan_type_valid : ScanType → Bool
scan_type_valid (other_scan_type _) = false
scan_type_valid _ = true

-- The `scan_status` enum of the database.
pub data ScanStatus : Type 0 where
  queued running completed failed cancelled : ScanStatus

-- The `job_status` enum of the database.
pub data JobStatus : Type 0 where
  queued running succeeded failed skipped cancelled : JobStatus

pub data TriggerSource : Type 0 where
  manual scheduled webhook_push webhook_pull_request cli_watch : TriggerSource
  -- the empty string
  unknown_trigger : TriggerSource
