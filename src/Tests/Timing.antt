-- ===== src/Tests/Timing.antt =====
-- internal/modules/orchestrator/schedule.go and scheduler.go at concrete inputs.
use guard_pipe.Prelude.{
  ℕ, ◌+◌, ◌<◌, ◌≡◌, refl, true, false, List, [], ◌∷◌, none, some, some_inj, subst, map, any, arith,
  String,
}
use guard_pipe.Domain.Pentest.{stealth_config}
use guard_pipe.Tests.Charging.{plain_calendar}
use guard_pipe.Tests.Creating.{desk, project, everything, second_lost}
use guard_pipe.Tests.Vault.{owner, shelf}
use guard_pipe.Tests.Teams.{team}
use guard_pipe.Billing.Pricing.{quote_scan}
use guard_pipe.Orchestrator.Engines.{charged_preset}
use guard_pipe.Project.Store.{project_by_id}
use guard_pipe.Domain.Engine.{engine_eq, contains_engine}
use guard_pipe.Domain.Scan.{scan_type_valid}
use guard_pipe.Billing.Catalog.{plans, allows, engine_price, is_live_trigger}
use guard_pipe.Billing.Pricing.{quote_line, full_price}
use guard_pipe.Billing.Store.{
  debits_for_job, spendable_buckets, sort_by_expiry, insert_by_expiry, balance, add_to_bucket,
  update_bucket, change_remaining, insert_ledger, ledger_key_exists, key_eq,
}
use guard_pipe.Billing.Tokens.{with_org, plan_of, move_tokens}
use guard_pipe.Billing.Charge.{
  allowed_engines, blocked_engines, charge, charge_on, charge_lines, spend, already_charged,
}
use guard_pipe.Orchestrator.Engines.{
  resolve_engines, has_attested_target, engines_for, runnable, engine_requires_repository,
  scan_config,
}
use guard_pipe.Orchestrator.Create.{
  Desk, create_scan, charge_and_write, choose_engines, included_engines, new_jobs, pay, write_scan,
  until_failure, enqueue_scan, refund_each,
}
use guard_pipe.Orchestrator.Schedules.{
  failed, record_run, next_after, ScanSchedule, Cron, Board, World, schedule_by_id, is_due,
  list_due, sort_by_run, insert_by_run,
}
use guard_pipe.Orchestrator.Scheduling.{
  tick, trigger_each, trigger_schedule, record_schedule_outcome, outcome_of, scheduled_actor,
  creates, updates, deletes, ticks, ScheduleCall, run_schedules,
}
use guard_pipe.Orchestrator.Scheduled.{Office, office_service}
use guard_pipe.Orchestrator.Spaced.{AreSpaced}
use guard_pipe.Orchestrator.Spaced.Histories.{run_schedules-AreSpaced}
use guard_pipe.Orchestrator.Ticks.{IsOldestFirst, fire_each, AreKeyed, Recurs}
use guard_pipe.Orchestrator.Ticks.Fires.{tick-fires}

abbrev daily : ℕ → ℕ
daily t = t + 86_400_000_000_000

-- Every expression runs daily.
abbrev every_day : Cron
every_day = record { trim = λ s. s; parse = λ s. some daily }

abbrev daily-later : (expr : String) → Recurs every_day expr
daily-later expr next found t = subst (λ (f : ℕ → ℕ). t < f t) (some_inj found) (omega arith)

abbrev office : Office
office = record {
  calendar = plain_calendar;
  billing_on = true;
  ceiling = stealth_config;
  writes = second_lost;
  project = λ i. project;
}

-- A schedule of a project that is there, and one of a project that is gone.
abbrev nightly : ScanSchedule
nightly = record {
  id = 50;
  project_id = 20;
  cron_expression = "0 3 * * *";
  profile = everything;
  assigned_to = none;
  created_by = some 7;
  enabled = true;
  next_run_at = 90;
  last_run_at = none;
  last_run_status = none;
}

abbrev orphan : ScanSchedule
orphan = record nightly { id = 51; project_id = 99; next_run_at = 80 }

abbrev board : Board Desk
board = record { schedules = nightly ∷ orphan ∷ []; next_id = 52; scans = desk }

abbrev world : World
world = record { projects = shelf; orgs = team }

oldest_first : map (λ (r : ScanSchedule). r.id) (list_due 100 board.schedules) ≡ 51 ∷ 50 ∷ []
unfolding list_due sort_by_run insert_by_run
oldest_first = refl

keyed : AreKeyed board.schedules
unfolding schedule_by_id
keyed = (refl, (refl, tt))

tick-fires_example :
    ((tick (office_service office) every_day world 100 (λ i. 100 + i) board).scans
      ≡ fire_each (office_service office) world (λ i. 100 + i) (list_due 100 board.schedules) desk)
    × (any
          (is_due 100)
          (tick (office_service office) every_day world 100 (λ i. 100 + i) board).schedules
        ≡ false)
    × IsOldestFirst (list_due 100 board.schedules)
tick-fires_example =
    tick-fires (office_service office) every_day world 100 (λ i. 100 + i) board (λ i. omega arith)
      keyed (daily-later nightly.cron_expression, (daily-later orphan.cron_expression, tt))

-- Schedules are made, changed and deleted around a tick.
abbrev day : List ScheduleCall
day =
    record {
      world = world;
      now = 10;
      request =
          creates owner 20
            (record { cron_expression = "0 4 * * *"; profile = everything; assigned_to = none });
    }
    ∷ record {
      world = world;
      now = 20;
      request = updates owner 50 (record {
        cron_expression = some "0 5 * * *";
        enabled = some false;
        assigned_to = none;
        clear_assigned_to = true;
      });
    }
    ∷ record { world = world; now = 100; request = ticks (λ i. 100 + i) }
    ∷ record { world = world; now = 200; request = deletes owner 50 }
    ∷ []

run_schedules-AreSpaced_example :
    AreSpaced every_day (run_schedules (office_service office) every_day day board).schedules
run_schedules-AreSpaced_example =
    run_schedules-AreSpaced (office_service office) every_day day board
      ((daily, 0, refl, omega arith), ((daily, 0, refl, omega arith), tt))

tick_outcome :
    let after = tick (office_service office) every_day world 100 (λ i. 100 + i) board in
    (after.scans.queue ≡ 41 ∷ [])
    × (map (λ (r : ScanSchedule). r.last_run_status) after.schedules
        ≡ some failed ∷ some failed ∷ [])
unfolding tick trigger_each trigger_schedule record_schedule_outcome record_run next_after
    outcome_of scheduled_actor schedule_by_id list_due sort_by_run insert_by_run project_by_id
    office_service create_scan charge_and_write choose_engines included_engines resolve_engines
    has_attested_target engines_for runnable engine_requires_repository engine_eq contains_engine
    scan_type_valid with_org allowed_engines allows plan_of plans new_jobs pay charge quote_scan
    quote_line engine_price is_live_trigger full_price charge_on charge_lines spend already_charged
    blocked_engines debits_for_job spendable_buckets sort_by_expiry insert_by_expiry balance
    move_tokens add_to_bucket update_bucket change_remaining insert_ledger ledger_key_exists key_eq
    write_scan until_failure enqueue_scan refund_each charged_preset scan_config
tick_outcome = (refl, refl)
