-- ===== src/Tests/Scanning.antt =====
-- internal/modules/orchestrator and internal/engines/pentest/correlation at concrete inputs.
use guard_pipe.Prelude.{
  ◌*◌, ℕ, ◌≡◌, ◌≤◌, refl, true, false, not, ◌&&◌, ◌||◌, List, [], ◌∷◌, some, none, is_some, OnSome,
  if◌then◌else◌, any, ◌==◌,
}
use guard_pipe.Domain.Engine.{EngineId, codescan, depscan}
use guard_pipe.Domain.Finding.{Severity, Confidence}
use guard_pipe.Domain.Scan.{ScanStatus, JobStatus}
use guard_pipe.Orchestrator.Rows.{
  ScanRow, JobRow, JobResult, is_terminal, has_open, all_done, finalize_stuck_scans,
}
use guard_pipe.Orchestrator.Worker.{
  Answers, EngineRun, ready, process_job, refundable, Pool, persist, Event, persists, starts,
  cancels, repairs, on_events,
}
use guard_pipe.Orchestrator.Once.{Once, on_events-Once}
use guard_pipe.Orchestrator.Finish.{persist-finishes, finalize_stuck_scans-none_left}
use guard_pipe.Orchestrator.Refund.{engine_ran, earned, process_job-refundable}
use guard_pipe.Pentest.Confidence.{CorrelatedFinding}
use guard_pipe.Orchestrator.Progress.{
  PolledJob, reports, live_after, overall_pct, job_pct, running_job_progress, set_progress,
  clamp_pct, clear_progress, get_progress,
}
use guard_pipe.Middleware.RateLimit.{
  allow_at, fresh_counter, take_slot, allowed_of, allowed_of-limit,
}
use guard_pipe.Prelude.{pos, arith}
use guard_pipe.Orchestrator.Workspace.{
  Reachable, start, next, joins, ends_prepare, ends_wait, releases, created, join, end_prepare,
  end_wait, release, release_ref, IsShared, Reachable-IsShared,
}

abbrev scan : ScanRow
scan = record {
  id = 5;
  status = ScanStatus.running;
  cancel_requested = false;
  finding_counts = λ _. 0;
}

abbrev job : ℕ → EngineId → JobStatus → JobRow
job i e st = record {
  id = i;
  scan_id = 5;
  engine = e;
  status = st;
  error_reason = none;
  skip_reason = none;
}

abbrev clean_run : EngineRun
clean_run = record {
  findings = record { fingerprint = 77; severity = Severity.high } ∷ [];
  error = none;
  context_ended = false;
  cancelled_by_user = false;
}

abbrev answers : Answers
answers = record {
  job = some (job 6 codescan JobStatus.queued);
  scan = some scan;
  registered = true;
  marked_running = true;
  target_attested = false;
  workspace = ready;
  not_applicable = none;
  run = clean_run;
}

process_job-refundable_example :
    (is_some (process_job answers) ≡ (false || not true || true))
    × OnSome
        (λ r.
          (refundable r
            ≡ not (engine_ran (job 6 codescan JobStatus.queued) scan answers && earned clean_run))
          × (is_terminal r.status ≡ true)
          × (r.findings ≡ (
              if engine_ran (job 6 codescan JobStatus.queued) scan answers
              then clean_run.findings
              else [])))
        (process_job answers)
process_job-refundable_example =
    process_job-refundable answers (job 6 codescan JobStatus.queued) scan refl refl

abbrev done_result : ℕ → EngineId → JobResult
done_result i e = record {
  job_id = i;
  scan_id = 5;
  engine = e;
  status = JobStatus.succeeded;
  error_reason = none;
  skip_reason = none;
  findings = record { fingerprint = i; severity = Severity.low } ∷ [];
}

-- One job of the scan is done, the other is running.
abbrev pool : Pool
pool = record {
  rows = record {
    scans = scan ∷ [];
    jobs = job 6 codescan JobStatus.succeeded ∷ job 7 depscan JobStatus.running ∷ [];
    findings = [];
  };
  refunds = [];
  finished = [];
}

abbrev history : List Event
history =
    starts 7 5
    ∷ persists (done_result 7 depscan)
    ∷ cancels 5
    ∷ persists (done_result 7 depscan)
    ∷ repairs
    ∷ []

on_events-Once_example : Once (on_events history pool).rows.scans (on_events history pool).finished
on_events-Once_example = on_events-Once history pool refl

persist-finishes_example :
    ((persist (done_result 7 depscan) pool).finished ≡ 5 ∷ [])
    × (has_open 5 (persist (done_result 7 depscan) pool).rows.scans ≡ false)
unfolding is_terminal
persist-finishes_example =
    persist-finishes (done_result 7 depscan) pool refl refl (refl, (refl, tt))

finalize_stuck_scans-none_left_example :
    let after = (finalize_stuck_scans pool.rows).0 in
    (has_open 5 after.scans && any (λ j. j.scan_id == 5) after.jobs && all_done 5 after.jobs)
    ≡ false
finalize_stuck_scans-none_left_example = finalize_stuck_scans-none_left 5 pool.rows

abbrev finding : CorrelatedFinding
finding = record {
  severity = Severity.critical;
  confidence = Confidence.high;
  tools = "nuclei" ∷ [];
  conflicting_signals = true;
  has_evidence = true;
}

-- One job is done, the other has reported more than it may.
abbrev polled : List PolledJob
polled =
    record { id = 6; engine = codescan; status = JobStatus.succeeded; started_at = some 10 }
    ∷ record { id = 7; engine = depscan; status = JobStatus.running; started_at = some 10 }
    ∷ []

shown_below :
    overall_pct (λ _. 0) 600 100 (live_after (reports 7 (pos 250) "almost" ∷ []) []) polled ≡ 99
unfolding overall_pct job_pct running_job_progress live_after set_progress clamp_pct clear_progress
    get_progress
shown_below = refl

allowed_of-limit_example : allowed_of 2 60 (10 ∷ 20 ∷ 30 ∷ 75 ∷ 80 ∷ 90 ∷ []) none ≤ 2 * 2
allowed_of-limit_example =
    allowed_of-limit 2 60 10 1 (20 ∷ 30 ∷ 75 ∷ 80 ∷ 90 ∷ [])
      (omega arith, (omega arith, (omega arith, (omega arith, (omega arith, tt)))))

-- Both windows are used up.
windows_used : allowed_of 2 60 (10 ∷ 20 ∷ 30 ∷ 75 ∷ 80 ∷ 90 ∷ []) none ≡ 4
unfolding allowed_of allow_at fresh_counter take_slot
windows_used = refl

-- Two jobs share a clone, and both are done with it.
shared_twice : Reachable (release (release (end_wait true (end_prepare true (join created)))))
unfolding end_prepare end_wait release release_ref
shared_twice =
    next
      (next
        (next (next (next start (joins refl)) (ends_prepare true (omega arith)))
          (ends_wait true (omega arith) refl))
        (releases (omega arith)))
      (releases (omega arith))

Reachable-IsShared_example :
    IsShared (release (release (end_wait true (end_prepare true (join created)))))
Reachable-IsShared_example = Reachable-IsShared shared_twice
