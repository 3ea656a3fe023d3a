-- ===== src/Orchestrator/Create.antt =====
-- internal/modules/orchestrator/service.go, `CreateScan`: the engines are chosen, the organisation
-- is charged, and only then do the scan, its jobs and their places in the queue exist. The tokens
-- are the rows of Billing.Store, through the adapter of billing/orchestrator_adapter.go.
use guard_pipe.Prelude.{
  ℕ, suc, ◌+◌, Bool, false, not, ◌&&◌, List, [], ◌∷◌, ◌++◌, map, length, Option, none,
  if◌then◌else◌,
}
use guard_pipe.Errors.{
  Result, ok, err, ◌>>=◌, ◌>>◌, refuse_if, fail_with, unprocessable, internal_error, validation,
}
use guard_pipe.Domain.Engine.{EngineId}
use guard_pipe.Domain.Pentest.{PentestScanConfig}
use guard_pipe.Domain.Scan.{
  ScanStatus, JobStatus, TriggerSource, unknown_trigger, manual, scan_type_valid,
}
use guard_pipe.Billing.Store.{Store}
use guard_pipe.Billing.Tokens.{Calendar, with_org, plan_of}
use guard_pipe.Billing.Charge.{
  ChargeLine, ChargeRequest, charge, refund_job, allowed_engines, is_empty,
}
use guard_pipe.Billing.History.{settled}
use guard_pipe.Orchestrator.Rows.{ScanRow, JobRow, Rows}
use guard_pipe.Orchestrator.Engines.{
  Project, ScanRequest, resolve_engines, is_full, scan_config, charged_preset,
}

-- The tokens of the organisation, the rows of scans, the queue, and the supply of `id.New`.
pub record Desk : Type 0 where
  pub tokens : Store
  pub rows : Rows
  pub queue : List ℕ
  pub next_id : ℕ

-- Whether each write succeeds.
pub record Writes : Type 0 where
  pub scan_created : Bool
  pub job_created : ℕ → Bool
  pub enqueued : ℕ → Bool

-- What does not change during a call: the clock, the organisation, whether billing is on, the
-- operator's ceiling, the caller and the trigger.
pub record Call : Type 0 where
  pub calendar : Calendar
  pub org : ℕ
  pub now : ℕ
  pub billing_on : Bool
  pub ceiling : PentestScanConfig
  pub actor_id : Option ℕ
  pub trigger : TriggerSource

pub record NewScan : Type 0 where
  pub scan : ScanRow
  pub jobs : List JobRow
  pub config : Option PentestScanConfig

-- `AllowedEngines`, for a full scan when billing is on.
unfoldable pub included_engines :
    Call → ScanRequest → List EngineId → Store → Result (List EngineId × Store)
included_engines c req es s =
    if c.billing_on && is_full req.scan_type
    then with_org c.calendar c.org c.now (λ sub t. ok (allowed_engines (plan_of sub) es, t)) s
    else ok (es, s)

unfoldable pub new_jobs : ℕ → ℕ → List EngineId → List JobRow
new_jobs scan i [] = []
new_jobs scan i (e ∷ es) =
    record {
      id = i;
      scan_id = scan;
      engine = e;
      status = JobStatus.queued;
      error_reason = none;
      skip_reason = none;
    }
    ∷ new_jobs scan (suc i) es

abbrev pub new_scan : ℕ → ScanRow
new_scan i = record {
  id = i;
  status = ScanStatus.queued;
  cancel_requested = false;
  finding_counts = λ _. 0;
}

abbrev pub line_of : JobRow → ChargeLine
line_of j = record { job_id = j.id; engine = j.engine }

-- A scan without a trigger was started by hand.
abbrev pub trigger_of : TriggerSource → TriggerSource
trigger_of unknown_trigger = manual
trigger_of t = t

abbrev pub request_for : Call → ScanRequest → ℕ → List EngineId → List JobRow → ChargeRequest
request_for c req scan es jobs = record {
  scan_id = scan;
  lines = map line_of jobs;
  preset = charged_preset c.ceiling req es;
  trigger = trigger_of c.trigger;
  actor_id = c.actor_id;
}

-- The charge, when billing is on.
unfoldable pub pay : Call → ChargeRequest → Store → Result Store
pay c req s = if c.billing_on then charge c.calendar c.org c.now req s else ok s

-- The refunds of a creation that failed: their errors are ignored.
unfoldable pub refund_each : Call → List JobRow → Store → Store
refund_each c [] s = s
refund_each c (j ∷ js) s =
    refund_each c js
      (if c.billing_on then settled s (refund_job c.calendar c.org c.now j.id s) else s)

-- The loops of `CreateMany` and over the queue stop at the first failure: the jobs that were
-- written, and those from the failure on.
unfoldable pub until_failure : (ℕ → Bool) → List JobRow → List JobRow × List JobRow
until_failure works [] = ([], [])
until_failure works (j ∷ js) =
    let (written, rest) = until_failure works js in
    if works j.id then (j ∷ written, rest) else ([], j ∷ js)

abbrev pub id_of : JobRow → ℕ
id_of j = j.id

-- The queue, after every row is written. Jobs that are queued will run and stay paid for.
unfoldable pub enqueue_scan : Call → Writes → NewScan → Desk → Result NewScan × Desk
enqueue_scan c w n d =
    let (sent, unsent) = until_failure w.enqueued n.jobs in
    let queue = d.queue ++ map id_of sent in
    if is_empty unsent
    then (ok n, record d { queue = queue })
    else (err internal_error, record d { tokens = refund_each c unsent d.tokens; queue = queue })

-- From the paid charge to the end. A creation that fails gives every job's tokens back.
unfoldable pub write_scan : Call → Writes → NewScan → Desk → Result NewScan × Desk
write_scan c w n d =
    let refunded = refund_each c n.jobs d.tokens in
    let (created, missing) = until_failure w.job_created n.jobs in
    let written = record d.rows {
      scans = d.rows.scans ++ n.scan ∷ [];
      jobs = d.rows.jobs ++ created;
    } in
    if not w.scan_created
    then (err internal_error, record d { tokens = refunded })
    else if not (is_empty missing)
    then (err internal_error, record d { tokens = refunded; rows = written })
    else enqueue_scan c w n (record d { rows = written })

-- From the engines to the charge: a refused charge leaves no trace but the organisation's own
-- provisioning, which `AllowedEngines` may have committed.
unfoldable pub charge_and_write :
    Call → Writes → ScanRequest → List EngineId → Desk → Result NewScan × Desk
charge_and_write c w req es d =
    let jobs = new_jobs d.next_id (suc d.next_id) es in
    let n : NewScan = record {
      scan = new_scan d.next_id;
      jobs = jobs;
      config = scan_config c.ceiling req es;
    } in
    elim (pay c (request_for c req d.next_id es jobs) d.tokens) [
      | err e ↦ (err e, d)
      | ok paid ↦ write_scan c w n (record d { tokens = paid; next_id = suc d.next_id + length es })
    ]

unfoldable pub choose_engines :
    Call → Project → ScanRequest → Store → Result (List EngineId × Store)
choose_engines c p req s = do
  refuse_if (not (scan_type_valid req.scan_type)) (fail_with validation "scan.invalid_input")
  engines ← resolve_engines p req
  included_engines c req engines s

-- `CreateScan`, for a project that the caller may see.
unfoldable pub create_scan : Call → Writes → Project → ScanRequest → Desk → Result NewScan × Desk
create_scan c w p req d = elim (choose_engines c p req d.tokens) [
  | err e ↦ (err e, d)
  | ok (engines, tokens) ↦
      if is_empty engines
      then (err (fail_with unprocessable "scan.no_engines_available"), record d { tokens = tokens })
      else charge_and_write c w req engines (record d { tokens = tokens })
]
