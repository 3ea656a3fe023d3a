-- ===== src/Orchestrator/Scheduled.antt =====
-- internal/modules/orchestrator/schedule.go: the service that schedules use is CreateScan, with the
-- tokens, scans and queue of one organisation.
use guard_pipe.Prelude.{ℕ, Bool, none, some, ◌==◌, if◌then◌else◌}
use guard_pipe.Errors.{Result, ok, ◌>>=◌}
use guard_pipe.Domain.Engine.{Actor}
use guard_pipe.Domain.Pentest.{PentestScanConfig}
use guard_pipe.Domain.Scan.{scheduled}
use guard_pipe.Billing.Store.{Store}
use guard_pipe.Billing.Tokens.{Calendar}
use guard_pipe.Billing.Charge.{schedules, require_feature}
use guard_pipe.Billing.History.{settled}
use guard_pipe.Orchestrator.Engines.{Project}
use guard_pipe.Orchestrator.Create.{Desk, Writes, Call, create_scan}
use guard_pipe.Orchestrator.Schedules.{ScanService}

-- The configuration, which writes succeed, and each project as `CreateScan` sees it.
pub record Office : Type 0 where
  pub calendar : Calendar
  pub billing_on : Bool
  pub ceiling : PentestScanConfig
  pub writes : Writes
  pub project : ℕ → Project

-- `uuid.Nil` (0) is stored as no actor.
abbrev pub scheduled_call : Office → Actor → ℕ → Call
scheduled_call o actor now = record {
  calendar = o.calendar;
  org = actor.org_id;
  now = now;
  billing_on = o.billing_on;
  ceiling = o.ceiling;
  actor_id = if actor.user_id == 0 then none else some actor.user_id;
  trigger = scheduled;
}

abbrev granted : Result Store → Result (Unit {0})
granted answer = answer >>= λ _. ok tt

unfoldable pub office_service : Office → ScanService Desk
office_service o = record {
  require_schedules = λ org now d.
      let answer = require_feature o.calendar org now schedules d.tokens in
      if o.billing_on
      then (granted answer, record d { tokens = settled d.tokens answer })
      else (ok tt, d);
  create = λ actor project req now d.
      let made = create_scan (scheduled_call o actor now) o.writes (o.project project) req d in
      (made.0 >>= λ n. ok n.scan.id, made.1);
}
