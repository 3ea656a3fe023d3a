-- ===== src/Orchestrator/Schedules.antt =====
-- internal/modules/orchestrator/schedule.go and scheduler.go, and
-- internal/store/repo/scan_schedule_repo.go. The library of cron expressions is a record; what the
-- schedules ask of the service of scans and of billing is a record of operations on its state.
use guard_pipe.Prelude.{
  ℕ, ◌+◌, ◌-◌, Bool, true, false, not, ◌&&◌, ◌||◌, List, [], ◌∷◌, map, Option, none, some,
  if◌then◌else◌, ltb, leb, ◌==◌, any, keep, find?, String, str_eq,
}
use guard_pipe.Errors.{
  AppError, Result, ok, err, ◌>>=◌, ◌>>◌, refuse_if, fail_with, not_found, validation,
}
use guard_pipe.Domain.Engine.{Actor}
use guard_pipe.Identity.Store.{User, MemberRow}
use guard_pipe.Organization.Store.{OrgStore}
use guard_pipe.Project.Store.{Projects}
use guard_pipe.Project.Service.{get_owned_project}
use guard_pipe.Orchestrator.Engines.{ScanRequest}

pub data RunStatus : Type 0 where
  triggered failed skipped_insufficient_tokens skipped_plan_required : RunStatus

-- The profile has the fields of a request that choose engines; its branch is not modelled.
pub record ScanSchedule : Type 0 where
  pub id : ℕ
  pub project_id : ℕ
  pub cron_expression : String
  pub profile : ScanRequest
  pub assigned_to : Option ℕ
  pub created_by : Option ℕ
  pub enabled : Bool
  pub next_run_at : ℕ
  pub last_run_at : Option ℕ
  pub last_run_status : Option RunStatus

pub record CreateScheduleInput : Type 0 where
  pub cron_expression : String
  pub profile : ScanRequest
  pub assigned_to : Option ℕ

pub record UpdateScheduleInput : Type 0 where
  pub cron_expression : Option String
  pub enabled : Option Bool
  pub assigned_to : Option ℕ
  pub clear_assigned_to : Bool

-- `parse` gives the function `Next` of an expression.
pub record Cron : Type 0 where
  pub trim : String → String
  pub parse : String → Option (ℕ → ℕ)

-- `RequireFeature` for schedules, and `CreateScan` with the trigger `scheduled`, which answers the scan.
pub record ScanService (S : Type 0) : Type 0 where
  pub require_schedules : ℕ → ℕ → S → Result (Unit {0}) × S
  pub create : Actor → ℕ → ScanRequest → ℕ → S → Result ℕ × S

-- The schedules, the supply of `id.New`, and the state of the service of scans.
pub record Board (S : Type 0) : Type 0 where
  pub schedules : List ScanSchedule
  pub next_id : ℕ
  pub scans : S

-- The rows that an operation only reads.
pub record World : Type 0 where
  pub projects : Projects
  pub orgs : OrgStore

-- One hour
abbrev pub min_schedule_interval : ℕ
min_schedule_interval = 3_600_000_000_000

-- The queries. A key is unique, so a statement that names one touches no other row.
unfoldable pub schedule_by_id : ℕ → List ScanSchedule → Option ScanSchedule
schedule_by_id i rows = find? (λ r. r.id == i) rows

abbrev pub update_where : ℕ → (ScanSchedule → ScanSchedule) → List ScanSchedule → List ScanSchedule
update_where i f rows = map (λ r. if r.id == i then f r else r) rows

unfoldable pub save_schedule : ScanSchedule → List ScanSchedule → List ScanSchedule
save_schedule s rows =
    update_where s.id
      (λ r. record r {
        cron_expression = s.cron_expression;
        profile = s.profile;
        assigned_to = s.assigned_to;
        enabled = s.enabled;
        next_run_at = s.next_run_at;
      })
      rows

unfoldable pub record_run : ℕ → ℕ → RunStatus → ℕ → List ScanSchedule → List ScanSchedule
record_run i at status next rows =
    update_where i
      (λ r. record r { last_run_at = some at; last_run_status = some status; next_run_at = next })
      rows

abbrev pub is_due : ℕ → ScanSchedule → Bool
is_due at r = r.enabled && leb r.next_run_at at

-- ORDER BY next_run_at
unfoldable pub insert_by_run : ScanSchedule → List ScanSchedule → List ScanSchedule
insert_by_run r [] = r ∷ []
insert_by_run r (s ∷ ss) =
    let rest = insert_by_run r ss in
    if leb r.next_run_at s.next_run_at then r ∷ s ∷ ss else s ∷ rest

unfoldable pub sort_by_run : List ScanSchedule → List ScanSchedule
sort_by_run [] = []
sort_by_run (r ∷ rs) = insert_by_run r (sort_by_run rs)

unfoldable pub list_due : ℕ → List ScanSchedule → List ScanSchedule
list_due at rows = sort_by_run (keep (is_due at) rows)

unfoldable pub is_org_member : ℕ → ℕ → OrgStore → Bool
is_org_member org user s =
    any (λ (u : User). u.id == user && u.org_id == org) s.database.users
    || any (λ (m : MemberRow). m.org_id == org && m.user_id == user) s.database.members

abbrev pub schedule_not_found : AppError
schedule_not_found = fail_with not_found "schedule.not_found"

unfoldable pub get_owned_schedule : World → Actor → ℕ → List ScanSchedule → Result ScanSchedule
get_owned_schedule w actor i rows = elim (schedule_by_id i rows) [
  | none ↦ err schedule_not_found
  | some r ↦ get_owned_project actor r.project_id w.projects >>= λ _. ok r
]

-- `requireOrgMember`, where there is somebody to assign.
unfoldable pub check_assignee : World → Actor → Option ℕ → Result (Unit {0})
check_assignee w actor none = ok tt
check_assignee w actor (some user) =
    refuse_if (not (is_org_member actor.org_id user w.orgs))
      (fail_with validation "schedule.not_org_member")

abbrev pub switched : Option Bool → ScanSchedule → ScanSchedule
switched none r = r
switched (some on) r = record r { enabled = on }

unfoldable pub reassigned : World → Actor → Bool → Option ℕ → ScanSchedule → Result ScanSchedule
reassigned w actor true user r = ok (record r { assigned_to = none })
reassigned w actor false none r = ok r
reassigned w actor false (some user) r =
    check_assignee w actor (some user) >> ok (record r { assigned_to = some user })

module _ (cron : Cron) where
  unfoldable pub parse_expression : String → Result (ℕ → ℕ)
  parse_expression expr = elim (cron.parse expr) [
    | none ↦ err (fail_with validation "schedule.invalid_cron")
    | some next ↦ ok next
  ]

  unfoldable pub parse_and_clamp : ℕ → String → Result (ℕ → ℕ)
  parse_and_clamp now text =
      refuse_if (str_eq (cron.trim text) "") (fail_with validation "schedule.invalid_input")
      >> (parse_expression (cron.trim text) >>= λ next.
          refuse_if (ltb (next (next now) - next now) min_schedule_interval)
            (fail_with validation "schedule.interval_too_short")
          >> ok next)

  -- The time after a run; an hour later where the stored expression cannot be read.
  unfoldable pub next_after : ℕ → String → ℕ
  next_after now expr = elim (cron.parse expr) [
    | none ↦ now + min_schedule_interval
    | some next ↦ next now
  ]

  unfoldable pub new_schedule :
      World → ℕ → Actor → ℕ → ℕ → CreateScheduleInput → Result ScanSchedule
  new_schedule w now actor i project given = parse_and_clamp now given.cron_expression >>= λ next.
      check_assignee w actor given.assigned_to
      >> ok record {
        id = i;
        project_id = project;
        cron_expression = cron.trim given.cron_expression;
        profile = given.profile;
        assigned_to = given.assigned_to;
        created_by = some actor.user_id;
        enabled = true;
        next_run_at = next now;
        last_run_at = none;
        last_run_status = none;
      }

  unfoldable pub rescheduled : ℕ → Option String → ScanSchedule → Result ScanSchedule
  rescheduled now none r = ok r
  rescheduled now (some text) r = parse_and_clamp now text >>= λ next.
      ok (record r { cron_expression = cron.trim text; next_run_at = next now })

  -- The row that `UpdateSchedule` writes.
  unfoldable pub changed :
      World → ℕ → Actor → UpdateScheduleInput → ScanSchedule → Result ScanSchedule
  changed w now actor given r = rescheduled now given.cron_expression r >>= λ s.
      reassigned w actor given.clear_assigned_to given.assigned_to (switched given.enabled s)
