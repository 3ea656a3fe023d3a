-- ===== src/Orchestrator/Spaced.antt =====
-- internal/modules/orchestrator/schedule.go: how often a stored schedule runs.
pub mod Histories
use guard_pipe.Prelude.{
  ℕ, ◌-◌, ◌≤◌, ◌≡◌, refl, Bool, true, false, not, List, [], ◌∷◌, Option, none, some, All,
  All-append, Bool-cases, Option-cases, inl, inr, if◌then◌else◌, ◌==◌, ltb, keep, find?, All-find?,
  All-keep, String, str_eq, arith,
}
use guard_pipe.Errors.{
  Result, ok, err, ◌>>=◌, ◌>>◌, refuse_if, fail_with, validation, OnOk, OnOk-bind, OnOk-ok,
  Result-cases, bind-eq-ok,
}
use guard_pipe.Domain.Engine.{Actor}
use guard_pipe.Project.Store.{project_by_id}
use guard_pipe.Project.Service.{get_owned_project}
use guard_pipe.Orchestrator.Schedules.{
  RunStatus, failed, ScanSchedule, CreateScheduleInput, UpdateScheduleInput, Cron, ScanService,
  Board, World, min_schedule_interval, schedule_by_id, update_where, save_schedule, record_run,
  get_owned_schedule, check_assignee, parse_expression, parse_and_clamp, next_after, new_schedule,
  rescheduled, switched, reassigned, changed, list_due,
}
use guard_pipe.Orchestrator.Scheduling.{
  outcome_of, scheduled_actor, insert_new, create_schedule, check_schedule, update_schedule,
  delete_schedule, record_schedule_outcome, trigger_schedule, trigger_each, tick, ScheduleRequest,
  creates, updates, deletes, ticks, ScheduleCall, handle_schedule, run_schedules,
}

module _ (cron : Cron) where
  -- There is a time from which the expression's next two runs are an hour or more apart.
  abbrev pub IsHourly : String → Type 0
  IsHourly expr =
      (next : ℕ → ℕ) × (at : ℕ) × (cron.parse expr ≡ some next)
      × (min_schedule_interval ≤ next (next at) - next at)

  abbrev IsSpaced : ScanSchedule → Type 0
  IsSpaced r = IsHourly r.cron_expression

  abbrev pub AreSpaced : List ScanSchedule → Type 0
  AreSpaced rows = All IsSpaced rows

  parse_expression-parse :
      (expr : String) → OnOk (λ next. cron.parse expr ≡ some next) (parse_expression cron expr)
  unfolding parse_expression
  parse_expression-parse expr = elim (Option-cases (cron.parse expr)) [
    | inl bad ↦ rw (bad, parse_expression) tt
    | inr good ↦ rw (good.1, parse_expression) refl
  ]

  parse_and_clamp-IsHourly :
      (now : ℕ) (text : String)
      → OnOk (λ _. IsHourly (cron.trim text)) (parse_and_clamp cron now text)
  unfolding parse_and_clamp
  parse_and_clamp-IsHourly now text = elim (Bool-cases (str_eq (cron.trim text) "")) [
    | inl empty ↦ rw empty tt
    | inr full ↦ rw full (
        OnOk-bind (λ next. cron.parse (cron.trim text) ≡ some next) (λ _. IsHourly (cron.trim text))
          (parse_expression cron (cron.trim text))
          (λ next.
            refuse_if (ltb (next (next now) - next now) min_schedule_interval)
              (fail_with validation "schedule.interval_too_short")
            >> ok next)
          (parse_expression-parse (cron.trim text))
          (λ next found.
            elim (Bool-cases (ltb (next (next now) - next now) min_schedule_interval)) [
              | inl short ↦ rw short tt
              | inr long ↦ rw long (next, now, found, ground (arith, long))
            ]))
  ]

  pub new_schedule-IsSpaced :
      (w : World) (now : ℕ) (actor : Actor) (i project : ℕ) (given : CreateScheduleInput)
      → OnOk IsSpaced (new_schedule cron w now actor i project given)
  unfolding new_schedule
  new_schedule-IsSpaced w now actor i project given =
      OnOk-bind (λ _. IsHourly (cron.trim given.cron_expression)) IsSpaced
        (parse_and_clamp cron now given.cron_expression) _
        (parse_and_clamp-IsHourly now given.cron_expression)
        (λ next good. elim (Result-cases (check_assignee w actor given.assigned_to)) [
          | inl fine ↦ rw fine.1 good
          | inr bad ↦ rw bad.1 tt
        ])

  rescheduled-IsSpaced :
      (now : ℕ) (text : Option String) (r : ScanSchedule)
      → IsSpaced r
      → OnOk IsSpaced (rescheduled cron now text r)
  unfolding rescheduled
  rescheduled-IsSpaced now none r h = h
  rescheduled-IsSpaced now (some text) r h =
      OnOk-bind (λ _. IsHourly (cron.trim text)) IsSpaced (parse_and_clamp cron now text) _
        (parse_and_clamp-IsHourly now text) (λ next good. good)

  switched-IsSpaced : (on : Option Bool) (r : ScanSchedule) → IsSpaced r → IsSpaced (switched on r)
  switched-IsSpaced none r h = h
  switched-IsSpaced (some on) r h = h

  reassigned-IsSpaced :
      (w : World) (actor : Actor) (clear : Bool) (user : Option ℕ) (r : ScanSchedule)
      → IsSpaced r
      → OnOk IsSpaced (reassigned w actor clear user r)
  unfolding reassigned
  reassigned-IsSpaced w actor true user r h = h
  reassigned-IsSpaced w actor false none r h = h
  reassigned-IsSpaced w actor false (some user) r h =
      elim (Result-cases (check_assignee w actor (some user))) [
        | inl fine ↦ rw fine.1 h
        | inr bad ↦ rw bad.1 tt
      ]

  pub changed-IsSpaced :
      (w : World) (now : ℕ) (actor : Actor) (given : UpdateScheduleInput) (r : ScanSchedule)
      → IsSpaced r
      → OnOk IsSpaced (changed cron w now actor given r)
  unfolding changed
  changed-IsSpaced w now actor given r h =
      OnOk-bind IsSpaced IsSpaced (rescheduled cron now given.cron_expression r) _
        (rescheduled-IsSpaced now given.cron_expression r h)
        (λ s good.
          reassigned-IsSpaced w actor given.clear_assigned_to given.assigned_to
            (switched given.enabled s) (switched-IsSpaced given.enabled s good))

  pub update_where-AreSpaced :
      (i : ℕ) (f : ScanSchedule → ScanSchedule) (rows : List ScanSchedule)
      → ((r : ScanSchedule) → IsSpaced r → IsSpaced (f r))
      → AreSpaced rows
      → AreSpaced (update_where i f rows)
  update_where-AreSpaced i f [] h all = tt
  update_where-AreSpaced i f (r ∷ rs) h all = elim (Bool-cases (r.id == i)) [
    | inl hit ↦ rw hit (h r all.0, update_where-AreSpaced i f rs h all.1)
    | inr miss ↦ rw miss (all.0, update_where-AreSpaced i f rs h all.1)
  ]

  pub owned-IsSpaced :
      (w : World) (actor : Actor) (i : ℕ) (rows : List ScanSchedule)
      → AreSpaced rows
      → OnOk IsSpaced (get_owned_schedule w actor i rows)
  unfolding get_owned_schedule schedule_by_id
  owned-IsSpaced w actor i rows all =
      elim (Option-cases (find? (λ (r : ScanSchedule). r.id == i) rows)) [
        | inl gone ↦ rw (gone, get_owned_schedule, schedule_by_id) tt
        | inr found ↦ elim (Result-cases (get_owned_project actor found.0.project_id w.projects)) [
          | inl fine ↦
              rw (found.1, get_owned_schedule, schedule_by_id, fine.1)
                (All-find? IsSpaced (λ (r : ScanSchedule). r.id == i) rows all found.1)
          | inr bad ↦ rw (found.1, get_owned_schedule, schedule_by_id, bad.1) tt
        ]
      ]

  pub new_board-AreSpaced :
      {S : Type 0} (svc : ScanService S) (m : Result ScanSchedule) (b : Board S)
      → OnOk IsSpaced m
      → AreSpaced b.schedules
      → AreSpaced (insert_new svc cron m b).1.schedules
  unfolding insert_new
  new_board-AreSpaced svc (err e) b good all = all
  new_board-AreSpaced svc (ok r) b good all =
      All-append IsSpaced b.schedules (r ∷ []) all (good, tt)
