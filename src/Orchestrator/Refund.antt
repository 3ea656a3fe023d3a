-- ===== src/Orchestrator/Refund.antt =====
-- internal/modules/orchestrator/worker.go: a job's tokens go back exactly when its engine did not
-- do the work, and a cancelled scan's job is never a failure.
use guard_pipe.Prelude.{
  ◌≡◌, Bool, true, false, not, ◌&&◌, ◌||◌, [], Option, none, some, if◌then◌else◌, arith, is_some,
  OnSome,
}
use guard_pipe.Domain.Engine.{EngineId, docreview, pentest, engine_eq}
use guard_pipe.Orchestrator.Rows.{JobRow, ScanRow, is_terminal}
use guard_pipe.Orchestrator.Worker.{
  ready, no_repository, RunError, rebinding_suspected, other_run_error, EngineRun, Answers,
  after_run, run_engine, prepare, job_ending, process_job, refundable,
}

-- Whether the engine gets its input: an attested target, a checkout, or, for docreview, no
-- repository at all.
abbrev pub has_input : EngineId → Answers → Bool
has_input e a =
    if engine_eq e pentest
    then a.target_attested
    else elim a.workspace [ ready ↦ true | no_repository ↦ engine_eq e docreview | _ ↦ false ]

-- Whether the engine of the job is run.
abbrev pub engine_ran : JobRow → ScanRow → Answers → Bool
engine_ran job scan a =
    not scan.cancel_requested
    && a.registered
    && has_input job.engine a
    && not (is_some a.not_applicable)

-- Whether a run is the client's to pay for: it came to its end, or the user stopped it, or the
-- target itself was at fault.
abbrev pub earned : EngineRun → Bool
earned run = run.cancelled_by_user || not_failed run.error
  where
    not_failed : Option RunError → Bool
    not_failed none = true
    not_failed (some rebinding_suspected) = not run.context_ended
    not_failed (some other_run_error) = false

-- A loaded job of a loaded scan has a result unless it was to start and could not be marked
-- running. The result is refunded exactly when the engine was not run, or its run was not earned; its status
-- is terminal, and findings are kept from a run only.
pub process_job-refundable :
    (a : Answers) (job : JobRow) (scan : ScanRow)
    → a.job ≡ some job
    → a.scan ≡ some scan
    → (is_some (process_job a) ≡ (scan.cancel_requested || not a.registered || a.marked_running))
      × OnSome
          (λ r.
            (refundable r ≡ not (engine_ran job scan a && earned a.run))
            × (is_terminal r.status ≡ true)
            × (r.findings ≡ (if engine_ran job scan a then a.run.findings else [])))
          (process_job a)
unfolding process_job job_ending prepare run_engine after_run refundable is_terminal
process_job-refundable a job scan j s = ground (arith, j, s)
