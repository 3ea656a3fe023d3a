-- ===== src/Orchestrator/Worker.antt =====
-- internal/modules/orchestrator/worker.go and cancel.go: what a worker records of the job it has
-- claimed, the refund that follows, and the sweeper. The answers of the collaborators (repositories,
-- registry, target provider, workspace, engine, context) are a record that each step reads.
use guard_pipe.Prelude.{
  ℕ, ◌+◌, ◌-◌, Bool, true, false, not, List, [], ◌∷◌, Option, none, some, if◌then◌else◌, ltb,
  String,
}
use guard_pipe.Errors.{ok, err}
use guard_pipe.Domain.Engine.{EngineId, docreview, pentest, engine_eq}
use guard_pipe.Domain.Scan.{JobStatus}
use guard_pipe.Orchestrator.Rows.{
  Reason, engine_not_registered, no_pentest_target_attached, workspace_unavailable,
  credential_invalid, cancelled_while_running, engine_error, timeout, dns_rebinding_suspected,
  worker_lost, ScanRow, JobRow, Rows, Emitted, JobResult, persist_job_result, mark_started,
  set_running, set_cancel, finalize_stuck_scans,
}

-- How `workspaces.acquire` ends.
pub data Workspace : Type 0 where
  ready no_repository bad_credential other_failure : Workspace

-- The error of an engine run.
pub data RunError : Type 0 where
  rebinding_suspected other_run_error : RunError

-- What the engine did: the findings it emitted, its error, whether its context had ended, and
-- whether a cancel request ended it.
pub record EngineRun : Type 0 where
  pub findings : List Emitted
  pub error : Option RunError
  pub context_ended : Bool
  pub cancelled_by_user : Bool

-- The answers met on the way through `processJob`.
pub record Answers : Type 0 where
  pub job : Option JobRow
  pub scan : Option ScanRow
  pub registered : Bool
  pub marked_running : Bool
  pub target_attested : Bool
  pub workspace : Workspace
  pub not_applicable : Option String
  pub run : EngineRun

-- What is recorded of a job, before its identifiers are filled in.
pub record Ending : Type 0 where
  pub status : JobStatus
  pub error_reason : Option Reason
  pub skip_reason : Option String
  pub findings : List Emitted

abbrev pub failing : Reason → List Emitted → Ending
failing r fs = record {
  status = JobStatus.failed;
  error_reason = some r;
  skip_reason = none;
  findings = fs;
}

abbrev pub run_reason : EngineRun → RunError → Reason
run_reason run e =
    if run.context_ended
    then timeout
    else elim e [ rebinding_suspected ↦ dns_rebinding_suspected | other_run_error ↦ engine_error ]

-- From the end of the engine's run.
unfoldable pub after_run : EngineRun → Ending
after_run run =
    if run.cancelled_by_user
    then record {
      status = JobStatus.cancelled;
      error_reason = some cancelled_while_running;
      skip_reason = none;
      findings = run.findings;
    }
    else elim run.error [
      | some e ↦ failing (run_reason run e) run.findings
      | none ↦ record {
        status = JobStatus.succeeded;
        error_reason = none;
        skip_reason = none;
        findings = run.findings;
      }
    ]

-- From the prepared input: the engine may not apply.
unfoldable pub run_engine : Answers → Ending
unfolding after_run
run_engine a = elim a.not_applicable [
  | some why ↦ record {
    status = JobStatus.skipped;
    error_reason = none;
    skip_reason = some why;
    findings = [];
  }
  | none ↦ after_run a.run
]

-- The input of the engine: a target for a pentest, a workspace for every other engine, of which
-- docreview does without a repository.
unfoldable pub prepare : EngineId → Answers → Ending
unfolding engine_eq run_engine
prepare e a =
    if engine_eq e pentest
    then if a.target_attested then run_engine a else failing no_pentest_target_attached []
    else elim a.workspace [
      | ready ↦ run_engine a
      | no_repository ↦
          if engine_eq e docreview then run_engine a else failing workspace_unavailable []
      | bad_credential ↦ failing credential_invalid []
      | other_failure ↦ failing workspace_unavailable []
    ]

-- From the loaded job and scan; `none` records nothing.
unfoldable pub job_ending : JobRow → ScanRow → Answers → Option Ending
unfolding prepare
job_ending job scan a =
    if scan.cancel_requested
    then some (record {
      status = JobStatus.cancelled;
      error_reason = none;
      skip_reason = none;
      findings = [];
    })
    else if not a.registered
    then some (failing engine_not_registered [])
    else if not a.marked_running
    then none
    else some (prepare job.engine a)

-- The result of an ending.
abbrev pub result_of : JobRow → ScanRow → Ending → JobResult
result_of job scan e = record {
  job_id = job.id;
  scan_id = scan.id;
  engine = job.engine;
  status = e.status;
  error_reason = e.error_reason;
  skip_reason = e.skip_reason;
  findings = e.findings;
}

abbrev result_if : JobRow → ScanRow → Option Ending → Option JobResult
result_if job scan none = none
result_if job scan (some e) = some (result_of job scan e)

-- `processJob`: the result that is persisted, if any. A job or a scan that cannot be loaded is
-- left to the sweeper.
unfoldable pub process_job : Answers → Option JobResult
process_job a = elim a.job [
  | none ↦ none
  | some job ↦ elim a.scan [ none ↦ none | some scan ↦ result_if job scan (job_ending job scan a) ]
]

abbrev pub reason_is_cancelled_running : Option Reason → Bool
reason_is_cancelled_running (some cancelled_while_running) = true
reason_is_cancelled_running _ = false

abbrev pub reason_is_rebinding : Option Reason → Bool
reason_is_rebinding (some dns_rebinding_suspected) = true
reason_is_rebinding _ = false

unfoldable pub refundable : JobResult → Bool
refundable r = elim r.status [
  | JobStatus.skipped ↦ true
  | JobStatus.cancelled ↦ not (reason_is_cancelled_running r.error_reason)
  | JobStatus.failed ↦ not (reason_is_rebinding r.error_reason)
  | _ ↦ false
]

-- The rows, the jobs whose refund was asked for, and the scans handed to `afterFinalize`, the
-- latest first.
pub record Pool : Type 0 where
  pub rows : Rows
  pub refunds : List ℕ
  pub finished : List ℕ

abbrev pub refund_asked : JobResult → List ℕ → List ℕ
refund_asked r jobs = if refundable r then r.job_id ∷ jobs else jobs

-- `persist`: a failed write is logged, and the refund is asked for all the same.
unfoldable pub persist : JobResult → Pool → Pool
persist r p = elim (persist_job_result r p.rows) [
  | err e ↦ record p { refunds = refund_asked r p.refunds }
  | ok (rows, finalized) ↦ record {
    rows = rows;
    refunds = refund_asked r p.refunds;
    finished = if finalized then r.scan_id ∷ p.finished else p.finished;
  }
]

-- `timeoutFor`: an engine without a positive timeout of its own has the default.
unfoldable pub timeout_for : (EngineId → ℕ) → ℕ → EngineId → ℕ
timeout_for timeouts default e = if ltb 0 (timeouts e) then timeouts e else default

abbrev pub orphan_grace : ℕ
orphan_grace = 300_000_000_000

-- Whether the sweeper closes a running job that started at the time.
unfoldable pub is_orphan : (EngineId → ℕ) → ℕ → ℕ → EngineId → Option ℕ → Bool
is_orphan timeouts default now e none = false
is_orphan timeouts default now e (some started) =
    not (ltb (now - started) (timeout_for timeouts default e + orphan_grace))

-- What the sweeper records of an orphan.
unfoldable pub orphan_result : JobRow → ScanRow → JobResult
orphan_result job scan = record {
  job_id = job.id;
  scan_id = scan.id;
  engine = job.engine;
  status = if scan.cancel_requested then JobStatus.cancelled else JobStatus.failed;
  error_reason = some worker_lost;
  skip_reason = none;
  findings = [];
}

-- The writes of workers, the service and the sweeper on the rows, one transaction each.
pub data Event : Type 0 where
  -- a worker or the sweeper persists a result
  persists : JobResult → Event
  -- a worker starts a job of a scan
  starts : ℕ → ℕ → Event
  -- a user asks to cancel a scan
  cancels : ℕ → Event
  -- the sweeper closes stuck scans
  repairs : Event

-- The closed scans are handed over one after the other.
abbrev pub hand_over : List ℕ → List ℕ → List ℕ
hand_over [] js = js
hand_over (i ∷ is) js = hand_over is (i ∷ js)

abbrev pub after_repair : Rows × List ℕ → Pool → Pool
after_repair (rows, done) p = record p { rows = rows; finished = hand_over done p.finished }

unfoldable pub on_event : Event → Pool → Pool
on_event (persists r) p = persist r p
on_event (starts job scan) p = record p {
  rows = record p.rows {
    jobs = set_running job p.rows.jobs;
    scans = mark_started scan p.rows.scans;
  };
}
on_event (cancels scan) p = record p {
  rows = record p.rows { scans = set_cancel scan p.rows.scans };
}
on_event repairs p = after_repair (finalize_stuck_scans p.rows) p

unfoldable pub on_events : List Event → Pool → Pool
on_events [] p = p
on_events (e ∷ es) p = on_events es (on_event e p)
