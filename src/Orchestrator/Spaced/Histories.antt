-- ===== src/Orchestrator/Spaced/Histories.antt =====
-- internal/modules/orchestrator/schedule.go: how often the schedules run after any sequence of operations.
use guard_pipe.Prelude.{ℕ, List, [], ◌∷◌, Option-cases, inl, inr, All-keep}
use guard_pipe.Errors.{◌>>=◌, ◌>>◌, OnOk, OnOk-bind, OnOk-ok, Result-cases}
use guard_pipe.Domain.Engine.{Actor}
use guard_pipe.Project.Store.{project_by_id}
use guard_pipe.Orchestrator.Schedules.{
  ScanSchedule, CreateScheduleInput, UpdateScheduleInput, Cron, ScanService, Board, World,
  schedule_by_id, save_schedule, record_run, get_owned_schedule, new_schedule, changed, list_due,
}
use guard_pipe.Orchestrator.Scheduling.{
  create_schedule, check_schedule, update_schedule, delete_schedule, record_schedule_outcome,
  trigger_schedule, trigger_each, tick, ScheduleRequest, creates, updates, deletes, ticks,
  ScheduleCall, handle_schedule, run_schedules,
}
use guard_pipe.Orchestrator.Spaced.{
  IsHourly, AreSpaced, new_schedule-IsSpaced, changed-IsSpaced, update_where-AreSpaced,
  owned-IsSpaced, new_board-AreSpaced,
}

module _ {S : Type 0} (svc : ScanService S) (cron : Cron) where
  create_schedule-AreSpaced :
      (w : World) (now : ℕ) (actor : Actor) (project : ℕ) (given : CreateScheduleInput)
      (b : Board S)
      → AreSpaced cron b.schedules
      → AreSpaced cron (create_schedule svc cron w now actor project given b).1.schedules
  unfolding create_schedule
  create_schedule-AreSpaced w now actor project given b all =
      elim (Result-cases (check_schedule w actor project given)) [
        | inr bad ↦ rw (bad.1, create_schedule) all
        | inl fine ↦
            let asked = svc.require_schedules actor.org_id now b.scans in
            let row = new_schedule cron w now actor b.next_id project given in
            rw (fine.1, create_schedule)
              (new_board-AreSpaced cron svc (asked.0 >> row) (record b { scans = asked.1 })
                (elim (Result-cases asked.0) [
                  | inl granted ↦
                      rw granted.1 (new_schedule-IsSpaced cron w now actor b.next_id project given)
                  | inr denied ↦ rw denied.1 tt
                ])
                all)
      ]

  update_schedule-AreSpaced :
      (w : World) (now : ℕ) (actor : Actor) (i : ℕ) (given : UpdateScheduleInput) (b : Board S)
      → AreSpaced cron b.schedules
      → AreSpaced cron (update_schedule svc cron w now actor i given b).1.schedules
  unfolding update_schedule save_schedule
  update_schedule-AreSpaced w now actor i given b all =
      let m = get_owned_schedule w actor i b.schedules >>= changed cron w now actor given in
      let good : OnOk (λ (r : ScanSchedule). IsHourly cron r.cron_expression) m =
        OnOk-bind _ _ (get_owned_schedule w actor i b.schedules) (changed cron w now actor given)
          (owned-IsSpaced cron w actor i b.schedules all)
          (λ r h. changed-IsSpaced cron w now actor given r h) in
      elim (Result-cases m) [
        | inr bad ↦ rw (bad.1, update_schedule) all
        | inl fine ↦
            rw (fine.1, update_schedule)
              (update_where-AreSpaced cron fine.0.id _ b.schedules (λ r h. OnOk-ok _ m fine.1 good)
                all)
      ]

  delete_schedule-AreSpaced :
      (w : World) (actor : Actor) (i : ℕ) (b : Board S)
      → AreSpaced cron b.schedules
      → AreSpaced cron (delete_schedule svc cron w actor i b).1.schedules
  unfolding delete_schedule
  delete_schedule-AreSpaced w actor i b all =
      elim (Result-cases (get_owned_schedule w actor i b.schedules)) [
        | inr bad ↦ rw (bad.1, delete_schedule) all
        | inl fine ↦ rw (fine.1, delete_schedule) (All-keep _ _ b.schedules all)
      ]

  trigger_schedule-AreSpaced :
      (w : World) (now i : ℕ) (b : Board S)
      → AreSpaced cron b.schedules
      → AreSpaced cron (trigger_schedule svc cron w now i b).1.schedules
  unfolding trigger_schedule record_schedule_outcome record_run
  trigger_schedule-AreSpaced w now i b all = elim (Option-cases (schedule_by_id i b.schedules)) [
    | inl gone ↦ rw (gone, trigger_schedule) all
    | inr found ↦ elim (Option-cases (project_by_id found.0.project_id w.projects)) [
      | inl lost ↦
          rw (found.1, trigger_schedule, lost)
            (update_where-AreSpaced cron found.0.id _ b.schedules (λ r h. h) all)
      | inr held ↦
          rw (found.1, trigger_schedule, held.1)
            (update_where-AreSpaced cron found.0.id _ b.schedules (λ r h. h) all)
    ]
  ]

  trigger_each-AreSpaced :
      (w : World) (clock : ℕ → ℕ) (rs : List ScanSchedule) (b : Board S)
      → AreSpaced cron b.schedules
      → AreSpaced cron (trigger_each svc cron w clock rs b).schedules
  unfolding trigger_each
  trigger_each-AreSpaced w clock [] b all = all
  trigger_each-AreSpaced w clock (r ∷ rs) b all =
      trigger_each-AreSpaced w clock rs (trigger_schedule svc cron w (clock r.id) r.id b).1
        (trigger_schedule-AreSpaced w (clock r.id) r.id b all)

  handle_schedule-AreSpaced :
      (w : World) (now : ℕ) (request : ScheduleRequest) (b : Board S)
      → AreSpaced cron b.schedules
      → AreSpaced cron (handle_schedule svc cron w now request b).schedules
  unfolding handle_schedule tick
  handle_schedule-AreSpaced w now (creates actor project given) b all =
      create_schedule-AreSpaced w now actor project given b all
  handle_schedule-AreSpaced w now (updates actor i given) b all =
      update_schedule-AreSpaced w now actor i given b all
  handle_schedule-AreSpaced w now (deletes actor i) b all =
      delete_schedule-AreSpaced w actor i b all
  handle_schedule-AreSpaced w now (ticks clock) b all =
      trigger_each-AreSpaced w clock (list_due now b.schedules) b all

-- Every stored expression can be read, and there is a time from which its next two runs are an hour or
-- more apart: this holds after any sequence of created, changed and deleted schedules and ticks, whoever
-- asks and whatever the service of scans answers, if it held before.
pub run_schedules-AreSpaced :
    {S : Type 0} (svc : ScanService S) (cron : Cron) (calls : List ScheduleCall) (b : Board S)
    → AreSpaced cron b.schedules
    → AreSpaced cron (run_schedules svc cron calls b).schedules
unfolding run_schedules
run_schedules-AreSpaced svc cron [] b all = all
run_schedules-AreSpaced svc cron (c ∷ cs) b all =
    run_schedules-AreSpaced svc cron cs (handle_schedule svc cron c.world c.now c.request b)
      (handle_schedule-AreSpaced svc cron c.world c.now c.request b all)
