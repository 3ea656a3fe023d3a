-- ===== src/Tests/Creating.antt =====
-- internal/modules/orchestrator/service.go at concrete inputs: which engines a scan runs, and
-- creating it.
use guard_pipe.Prelude.{◌≡◌, refl, true, [], ◌∷◌, some, none, all, ◌==◌}
use guard_pipe.Errors.{OnOk}
use guard_pipe.Domain.Engine.{codescan, docreview, pentest}
use guard_pipe.Domain.Pentest.{stealth_config, deep_config}
use guard_pipe.Domain.Scan.{full_supply_chain, manual}
use guard_pipe.Billing.Pricing.{quote_scan}
use guard_pipe.Orchestrator.Engines.{
  Project, no_target, ScanRequest, scan_engines, previewed_preset, charged_preset,
}
use guard_pipe.Orchestrator.Choice.{can_run, scan_engines-can_run, preview-charge}
use guard_pipe.Domain.Engine.{engine_eq, contains_engine}
use guard_pipe.Domain.Scan.{scan_type_valid}
use guard_pipe.Billing.Catalog.{plans, allows, engine_price, is_live_trigger}
use guard_pipe.Billing.Pricing.{quote_line, full_price}
use guard_pipe.Billing.Store.{
  debits_for_job, spendable_buckets, sort_by_expiry, insert_by_expiry, balance, add_to_bucket,
  update_bucket, change_remaining, insert_ledger, ledger_key_exists, key_eq,
}
use guard_pipe.Billing.Tokens.{with_org, plan_of, move_tokens}
use guard_pipe.Billing.Charge.{
  allowed_engines, blocked_engines, charge, charge_on, charge_lines, spend, already_charged,
}
use guard_pipe.Orchestrator.Engines.{
  resolve_engines, has_attested_target, engines_for, runnable, engine_requires_repository,
  scan_config,
}
use guard_pipe.Orchestrator.Create.{
  Desk, Call, Writes, create_scan, charge_and_write, choose_engines, included_engines, new_jobs,
  pay, write_scan, until_failure, enqueue_scan, refund_each,
}
use guard_pipe.Orchestrator.Created.{Created, create_scan-Created}
use guard_pipe.Tests.Charging.{plain_calendar, two_buckets}

abbrev pub project : Project
project = record {
  registered = codescan ∷ pentest ∷ docreview ∷ [];
  has_repository = true;
  target = no_target;
}

abbrev pub everything : ScanRequest
everything = record {
  scan_type = full_supply_chain;
  engines = [];
  pentest_config = some deep_config;
}

scan_engines-can_run_example :
    OnOk (λ es. all (can_run project) es ≡ true) (scan_engines none project everything)
scan_engines-can_run_example = scan_engines-can_run none project everything

preview-charge_example :
    quote_scan (codescan ∷ docreview ∷ []) (previewed_preset stealth_config everything) manual
    ≡ quote_scan
        (codescan ∷ docreview ∷ [])
        (charged_preset stealth_config everything (codescan ∷ docreview ∷ []))
        manual
preview-charge_example = preview-charge stealth_config everything (codescan ∷ docreview ∷ []) manual

-- A full scan with billing on, whose second job cannot be queued.
abbrev pub desk : Desk
desk = record {
  tokens = two_buckets;
  rows = record { scans = []; jobs = []; findings = [] };
  queue = [];
  next_id = 40;
}

abbrev call : Call
call = record {
  calendar = plain_calendar;
  org = 1;
  now = 100;
  billing_on = true;
  ceiling = stealth_config;
  actor_id = some 3;
  trigger = manual;
}

abbrev pub second_lost : Writes
second_lost = record { scan_created = true; job_created = λ _. true; enqueued = λ i. i == 41 }

create_scan-Created_example :
    Created call project everything desk (create_scan call second_lost project everything desk)
create_scan-Created_example = create_scan-Created call second_lost project everything desk

first_queued : (create_scan call second_lost project everything desk).1.queue ≡ 41 ∷ []
unfolding create_scan charge_and_write choose_engines included_engines resolve_engines
    has_attested_target engines_for runnable engine_requires_repository engine_eq contains_engine
    scan_type_valid with_org allowed_engines allows plan_of plans new_jobs pay charge quote_scan
    quote_line engine_price is_live_trigger full_price charge_on charge_lines spend already_charged
    blocked_engines debits_for_job spendable_buckets sort_by_expiry insert_by_expiry balance
    move_tokens add_to_bucket update_bucket change_remaining insert_ledger ledger_key_exists key_eq
    write_scan until_failure enqueue_scan refund_each charged_preset scan_config
first_queued = refl
