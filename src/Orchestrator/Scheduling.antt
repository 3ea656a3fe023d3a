-- ===== src/Orchestrator/Scheduling.antt =====
-- internal/modules/orchestrator/schedule.go and scheduler.go: the operations on schedules and the
-- tick that fires those that are due. A write to the table of schedules that fails is not modelled.
use guard_pipe.Prelude.{
  ℕ, suc, not, List, [], ◌∷◌, ◌++◌, none, some, if◌then◌else◌, ◌==◌, keep, str_eq,
}
use guard_pipe.Errors.{Result, ok, err, ◌>>=◌, ◌>>◌, refuse_if, fail_with, validation}
use guard_pipe.Domain.Engine.{admin, Actor}
use guard_pipe.Domain.Scan.{scan_type_valid}
use guard_pipe.Project.Store.{ProjectRow, project_by_id}
use guard_pipe.Project.Service.{get_owned_project, project_not_found}
use guard_pipe.Orchestrator.Schedules.{
  RunStatus, triggered, failed, skipped_insufficient_tokens, skipped_plan_required, ScanSchedule,
  CreateScheduleInput, UpdateScheduleInput, Cron, ScanService, Board, World, schedule_by_id,
  save_schedule, record_run, list_due, schedule_not_found, get_owned_schedule, next_after,
  new_schedule, changed,
}

-- What `CreateSchedule` checks before it asks for the feature.
unfoldable pub check_schedule : World → Actor → ℕ → CreateScheduleInput → Result (Unit {0})
check_schedule w actor project given = get_owned_project actor project w.projects >>= λ _.
    refuse_if (not (scan_type_valid given.profile.scan_type))
      (fail_with validation "schedule.invalid_input")

-- What the answer of `CreateScan` makes of a run.
unfoldable pub outcome_of : Result ℕ → RunStatus
outcome_of (ok scan) = triggered
outcome_of (err e) =
    if str_eq e.code "billing.insufficient_tokens"
    then skipped_insufficient_tokens
    else if str_eq e.code "billing.plan_required"
    then skipped_plan_required
    else failed

-- Who a scheduled scan is for: the creator, as an administrator of the owning organisation; `uuid.Nil`
-- where the creator is gone.
unfoldable pub scheduled_actor : ProjectRow → ScanSchedule → Actor
scheduled_actor p r = record {
  user_id = elim r.created_by [ none ↦ 0 | some user ↦ user ];
  org_id = p.org_id;
  role = admin;
  project_id = none;
}

module _ {S : Type 0} (svc : ScanService S) (cron : Cron) where
  unfoldable pub insert_new : Result ScanSchedule → Board S → Result ScanSchedule × Board S
  insert_new (err e) b = (err e, b)
  insert_new (ok r) b =
      (ok r, record b { schedules = b.schedules ++ r ∷ []; next_id = suc b.next_id })

  unfoldable pub create_schedule :
      World → ℕ → Actor → ℕ → CreateScheduleInput → Board S → Result ScanSchedule × Board S
  create_schedule w now actor project given b = elim (check_schedule w actor project given) [
    | err e ↦ (err e, b)
    | ok _ ↦
        let asked = svc.require_schedules actor.org_id now b.scans in
        insert_new (asked.0 >> new_schedule cron w now actor b.next_id project given)
          (record b { scans = asked.1 })
  ]

  unfoldable pub update_schedule :
      World → ℕ → Actor → ℕ → UpdateScheduleInput → Board S → Result ScanSchedule × Board S
  update_schedule w now actor i given b =
      elim (get_owned_schedule w actor i b.schedules >>= changed cron w now actor given) [
        | err e ↦ (err e, b)
        | ok r ↦ (ok r, record b { schedules = save_schedule r b.schedules })
      ]

  unfoldable pub delete_schedule : World → Actor → ℕ → Board S → Result (Unit {0}) × Board S
  delete_schedule w actor i b = elim (get_owned_schedule w actor i b.schedules) [
    | err e ↦ (err e, b)
    | ok r ↦ (
      ok tt,
      record b { schedules = keep (λ (s : ScanSchedule). not (s.id == r.id)) b.schedules },
    )
  ]

  unfoldable pub record_schedule_outcome : ℕ → ScanSchedule → RunStatus → Board S → Board S
  record_schedule_outcome now r status b = record b {
    schedules = record_run r.id now status (next_after cron now r.cron_expression) b.schedules;
  }

  unfoldable pub trigger_schedule : World → ℕ → ℕ → Board S → Result ℕ × Board S
  trigger_schedule w now i b = elim (schedule_by_id i b.schedules) [
    | none ↦ (err schedule_not_found, b)
    | some r ↦ elim (project_by_id r.project_id w.projects) [
      | none ↦ (err project_not_found, record_schedule_outcome now r failed b)
      | some p ↦
          let made = svc.create (scheduled_actor p r) r.project_id r.profile now b.scans in
          (made.0, record_schedule_outcome now r (outcome_of made.0) (record b { scans = made.1 }))
    ]
  ]

  -- The loop of a tick: an error is logged and the next schedule has its turn. `clock` is what the
  -- clock shows when a schedule is fired.
  unfoldable pub trigger_each : World → (ℕ → ℕ) → List ScanSchedule → Board S → Board S
  trigger_each w clock [] b = b
  trigger_each w clock (r ∷ rs) b =
      trigger_each w clock rs (trigger_schedule w (clock r.id) r.id b).1

  unfoldable pub tick : World → ℕ → (ℕ → ℕ) → Board S → Board S
  tick w now clock b = trigger_each w clock (list_due now b.schedules) b

-- The operations and the tick as one type.
pub data ScheduleRequest : Type 0 where
  creates : Actor → ℕ → CreateScheduleInput → ScheduleRequest
  updates : Actor → ℕ → UpdateScheduleInput → ScheduleRequest
  deletes : Actor → ℕ → ScheduleRequest
  ticks : (ℕ → ℕ) → ScheduleRequest

pub record ScheduleCall : Type 0 where
  pub world : World
  pub now : ℕ
  pub request : ScheduleRequest

module _ {S : Type 0} (svc : ScanService S) (cron : Cron) where
  unfoldable pub handle_schedule : World → ℕ → ScheduleRequest → Board S → Board S
  handle_schedule w now (creates actor project given) b =
      (create_schedule svc cron w now actor project given b).1
  handle_schedule w now (updates actor i given) b =
      (update_schedule svc cron w now actor i given b).1
  handle_schedule w now (deletes actor i) b = (delete_schedule svc cron w actor i b).1
  handle_schedule w now (ticks clock) b = tick svc cron w now clock b

  unfoldable pub run_schedules : List ScheduleCall → Board S → Board S
  run_schedules [] b = b
  run_schedules (c ∷ cs) b = run_schedules cs (handle_schedule c.world c.now c.request b)
