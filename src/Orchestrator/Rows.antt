-- ===== src/Orchestrator/Rows.antt =====
-- internal/store/repo/job_result_repo.go, scan_repo.go, scan_job_repo.go: the rows of scans, jobs
-- and findings, and the transaction that records the result of a job. Fingerprints are hashes, kept
-- as numbers. A database failure rolls the transaction back and is not modelled; a scan that is
-- not there is an error.
use guard_pipe.Prelude.{
  ℕ, Bool, true, false, not, ◌&&◌, ◌||◌, List, [], ◌∷◌, ◌++◌, Option, if◌then◌else◌, ◌==◌, any, all,
  keep, length, map, String,
}
use guard_pipe.Errors.{Result, ok, err, internal_error}
use guard_pipe.Domain.Engine.{EngineId}
use guard_pipe.Domain.Finding.{Severity, severity_eq}
use guard_pipe.Domain.Scan.{ScanStatus, JobStatus}

-- `ErrorReason`: the machine codes that the orchestrator writes.
pub data Reason : Type 0 where
  engine_not_registered no_pentest_target_attached workspace_unavailable : Reason
  credential_invalid cancelled_while_running engine_error timeout : Reason
  dns_rebinding_suspected worker_lost : Reason

pub record ScanRow : Type 0 where
  pub id : ℕ
  pub status : ScanStatus
  pub cancel_requested : Bool
  pub finding_counts : Severity → ℕ

pub record JobRow : Type 0 where
  pub id : ℕ
  pub scan_id : ℕ
  pub engine : EngineId
  pub status : JobStatus
  pub error_reason : Option Reason
  pub skip_reason : Option String

pub record FindingRow : Type 0 where
  pub scan_id : ℕ
  pub fingerprint : ℕ
  pub severity : Severity

pub record Rows : Type 0 where
  pub scans : List ScanRow
  pub jobs : List JobRow
  pub findings : List FindingRow

-- A finding that an engine emitted, and the result of a job.
pub record Emitted : Type 0 where
  pub fingerprint : ℕ
  pub severity : Severity

pub record JobResult : Type 0 where
  pub job_id : ℕ
  pub scan_id : ℕ
  pub engine : EngineId
  pub status : JobStatus
  pub error_reason : Option Reason
  pub skip_reason : Option String
  pub findings : List Emitted

-- `terminalJobStatuses`
unfoldable pub is_terminal : JobStatus → Bool
is_terminal JobStatus.succeeded = true
is_terminal JobStatus.failed = true
is_terminal JobStatus.skipped = true
is_terminal JobStatus.cancelled = true
is_terminal JobStatus.queued = false
is_terminal JobStatus.running = false

-- status IN ('queued', 'running')
abbrev pub is_open : ScanStatus → Bool
is_open ScanStatus.queued = true
is_open ScanStatus.running = true
is_open _ = false

-- Whether an UPDATE of the scan while it is queued or running finds its row.
abbrev pub has_open : ℕ → List ScanRow → Bool
has_open i scans = any (λ s. s.id == i && is_open s.status) scans

unfoldable pub update_job_status : JobResult → List JobRow → List JobRow
update_job_status r [] = []
update_job_status r (j ∷ js) =
    if j.id == r.job_id
    then record j { status = r.status; error_reason = r.error_reason; skip_reason = r.skip_reason }
      ∷ update_job_status r js
    else j ∷ update_job_status r js

abbrev pub has_finding : ℕ → ℕ → List FindingRow → Bool
has_finding scan fp fs = any (λ f. f.scan_id == scan && f.fingerprint == fp) fs

-- ON CONFLICT (scan_id, fingerprint) DO NOTHING
unfoldable pub insert_findings : ℕ → List Emitted → List FindingRow → List FindingRow
insert_findings scan [] fs = fs
insert_findings scan (e ∷ es) fs =
    if has_finding scan e.fingerprint fs
    then insert_findings scan es fs
    else insert_findings scan es
        (fs ++ record { scan_id = scan; fingerprint = e.fingerprint; severity = e.severity } ∷ [])

-- No job of the scan is queued or running.
unfoldable pub all_done : ℕ → List JobRow → Bool
all_done scan js = all (λ j. not (j.scan_id == scan) || is_terminal j.status) js

-- SELECT severity, count(*) ... GROUP BY severity
unfoldable pub count_findings : ℕ → List FindingRow → Severity → ℕ
count_findings scan fs sev = length (keep (λ f. f.scan_id == scan && severity_eq f.severity sev) fs)

unfoldable pub set_final : ℕ → (Severity → ℕ) → List ScanRow → List ScanRow
set_final i counts [] = []
set_final i counts (s ∷ ss) =
    if s.id == i && is_open s.status
    then record s {
      status = if s.cancel_requested then ScanStatus.cancelled else ScanStatus.completed;
      finding_counts = counts;
    }
      ∷ set_final i counts ss
    else s ∷ set_final i counts ss

-- `finalizeScanIfComplete`
unfoldable pub finalize_scan_if_complete : ℕ → Rows → Rows × Bool
finalize_scan_if_complete i rows =
    if all_done i rows.jobs
    then (
      record rows { scans = set_final i (count_findings i rows.findings) rows.scans },
      has_open i rows.scans,
    )
    else (rows, false)

-- `lockScan`
unfoldable pub scan_exists : ℕ → List ScanRow → Bool
scan_exists i scans = any (λ s. s.id == i) scans

-- The job and its findings, recorded.
abbrev pub recorded : JobResult → Rows → Rows
recorded r rows = record rows {
  jobs = update_job_status r rows.jobs;
  findings = insert_findings r.scan_id r.findings rows.findings;
}

-- `PersistJobResult`
unfoldable pub persist_job_result : JobResult → Rows → Result (Rows × Bool)
persist_job_result r rows =
    if scan_exists r.scan_id rows.scans
    then ok (finalize_scan_if_complete r.scan_id (recorded r rows))
    else err internal_error

-- The scans that are open although they have jobs and every job is terminal.
unfoldable pub is_stuck : Rows → ScanRow → Bool
is_stuck rows s =
    is_open s.status && any (λ j. j.scan_id == s.id) rows.jobs && all_done s.id rows.jobs

-- The loop of `FinalizeStuckScans` over its candidates.
unfoldable pub finalize_each : List ℕ → Rows → Rows × List ℕ
finalize_each [] rows = (rows, [])
finalize_each (i ∷ is) rows =
    let (rows', done) = finalize_scan_if_complete i rows in
    let (rows'', rest) = finalize_each is rows' in (rows'', if done then i ∷ rest else rest)

unfoldable pub finalize_stuck_scans : Rows → Rows × List ℕ
finalize_stuck_scans rows = finalize_each (map (λ s. s.id) (keep (is_stuck rows) rows.scans)) rows

-- `MarkStarted`
unfoldable pub mark_started : ℕ → List ScanRow → List ScanRow
mark_started i [] = []
mark_started i (s ∷ ss) = elim s.status [
  | ScanStatus.queued ↦
      (if s.id == i then record s { status = ScanStatus.running } else s) ∷ mark_started i ss
  | _ ↦ s ∷ mark_started i ss
]

-- `MarkRunning`
unfoldable pub set_running : ℕ → List JobRow → List JobRow
set_running i [] = []
set_running i (j ∷ js) =
    (if j.id == i then record j { status = JobStatus.running } else j) ∷ set_running i js

-- `SetCancelRequested`
unfoldable pub set_cancel : ℕ → List ScanRow → List ScanRow
set_cancel i [] = []
set_cancel i (s ∷ ss) =
    (if s.id == i then record s { cancel_requested = true } else s) ∷ set_cancel i ss
