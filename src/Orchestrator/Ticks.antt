-- ===== src/Orchestrator/Ticks.antt =====
-- internal/modules/orchestrator/scheduler.go: the list of a tick, and what firing it does to the rows.
pub mod Fires
use guard_pipe.Prelude.{
  ℕ, ◌+◌, ◌≤◌, ◌<◌, ◌≡◌, refl, sym, ap, ◌∙◌, subst, Bool, true, false, not, ◌&&◌, ◌||◌, List, [],
  ◌∷◌, Option, none, some, All, All-map, All-keep, Bool-cases, Option-cases, inl, inr,
  if◌then◌else◌, ◌==◌, ==_iff, ==_refl, leb, any, keep, find?, find?-holds, some_inj, String, arith,
}
use guard_pipe.Errors.{Result, ok, err}
use guard_pipe.Project.Store.{project_by_id}
use guard_pipe.Orchestrator.Engines.{ScanRequest}
use guard_pipe.Orchestrator.Schedules.{
  RunStatus, failed, ScanSchedule, Cron, ScanService, Board, World, min_schedule_interval,
  schedule_by_id, update_where, record_run, is_due, insert_by_run, sort_by_run, list_due,
  next_after,
}
use guard_pipe.Orchestrator.Scheduling.{
  outcome_of, scheduled_actor, record_schedule_outcome, trigger_schedule, trigger_each, tick,
}

-- One request for a scan of a schedule, and none where its project is gone.
unfoldable pub fire : {S : Type 0} → ScanService S → World → ℕ → ScanSchedule → S → S
fire svc w now r s = elim (project_by_id r.project_id w.projects) [
  | none ↦ s
  | some p ↦ (svc.create (scheduled_actor p r) r.project_id r.profile now s).1
]

unfoldable pub fire_each :
    {S : Type 0} → ScanService S → World → (ℕ → ℕ) → List ScanSchedule → S → S
fire_each svc w clock [] s = s
fire_each svc w clock (r ∷ rs) s = fire_each svc w clock rs (fire svc w (clock r.id) r s)

-- The expression comes round again after every time.
abbrev pub Recurs : Cron → String → Type 0
Recurs cron expr = (next : ℕ → ℕ) → cron.parse expr ≡ some next → (t : ℕ) → t < next t

-- A row is what a search for its key finds.
abbrev pub AreKeyed : List ScanSchedule → Type 0
AreKeyed rows = All (λ r. schedule_by_id r.id rows ≡ some r) rows

-- What a run does not change.
abbrev pub Job : Type 0
Job = ℕ × Option ℕ × ScanRequest × String

abbrev pub job_of : ScanSchedule → Job
job_of r = (r.project_id, r.created_by, r.profile, r.cron_expression)

abbrev pub job_found : Option ScanSchedule → Option Job
job_found none = none
job_found (some r) = some (job_of r)

abbrev pub HasJob : List ScanSchedule → ScanSchedule → Type 0
HasJob rows r = job_found (schedule_by_id r.id rows) ≡ some (job_of r)

pub next_after-later :
    (cron : Cron) (now t : ℕ) (expr : String)
    → now ≤ t
    → Recurs cron expr
    → now < next_after cron t expr
unfolding next_after
next_after-later cron now t expr le recurs = elim (Option-cases (cron.parse expr)) [
  | inl bad ↦ rw (bad, next_after) (omega (arith, le))
  | inr good ↦ rw (good.1, next_after) (omega (arith, le, recurs good.0 good.1 t))
]

pub fire-job :
    {S : Type 0} (svc : ScanService S) (w : World) (now : ℕ) (r x : ScanSchedule) (s : S)
    → job_of x ≡ job_of r
    → fire svc w now x s ≡ fire svc w now r s
unfolding fire scheduled_actor
fire-job svc w now r x s same =
    let project : x.project_id ≡ r.project_id = ap (λ (j : Job). j.0) same in
    let creator : x.created_by ≡ r.created_by = ap (λ (j : Job). j.1) same in
    let profile : x.profile ≡ r.profile = ap (λ (j : Job). j.2) same in
    rw (project, creator, profile) refl

module _ (i at next : ℕ) (status : RunStatus) where
  pub find-record_run :
      (j : ℕ) (rows : List ScanSchedule)
      → job_found (schedule_by_id j (record_run i at status next rows))
        ≡ job_found (schedule_by_id j rows)
  unfolding record_run schedule_by_id
  find-record_run j [] = refl
  find-record_run j (r ∷ rs) = elim (Bool-cases (r.id == i)) [
    | inl hit ↦ elim (Bool-cases (r.id == j)) [
      | inl here ↦ rw (hit, here) refl
      | inr there ↦ rw (hit, there) (find-record_run j rs)
    ]
    | inr miss ↦ elim (Bool-cases (r.id == j)) [
      | inl here ↦ rw (miss, here) refl
      | inr there ↦ rw (miss, there) (find-record_run j rs)
    ]
  ]

-- The rows that are due are among those still to fire.
abbrev pub Waits : ℕ → List ScanSchedule → ScanSchedule → Type 0
Waits now rs s = is_due now s ≡ true → any (λ r. r.id == s.id) rs ≡ true

pub record_run-Waits :
    (now at next : ℕ) (status : RunStatus) (r : ScanSchedule) (rs rows : List ScanSchedule)
    → now < next
    → All (Waits now (r ∷ rs)) rows
    → All (Waits now rs) (record_run r.id at status next rows)
unfolding record_run
record_run-Waits now at next status r rs [] later all = tt
record_run-Waits now at next status r rs (s ∷ ss) later all = elim (Bool-cases (s.id == r.id)) [
  | inl hit ↦ rw hit (
    (λ due. absurd (ground (arith, due, later))),
    record_run-Waits now at next status r rs ss later all.1,
  )
  | inr miss ↦ rw miss (
    (λ due. let found = all.0 due in ground (arith, found, miss)),
    record_run-Waits now at next status r rs ss later all.1,
  )
]

pub none_due :
    (now : ℕ) (rows : List ScanSchedule) → All (Waits now []) rows → any (is_due now) rows ≡ false
none_due now [] all = refl
none_due now (s ∷ ss) all = elim (Bool-cases (is_due now s)) [
  | inl due ↦ absurd (ground (arith, all.0 due))
  | inr fine ↦ rw fine (none_due now ss all.1)
]

All-insert_by_run :
    (P : ScanSchedule → Type 0) (r : ScanSchedule) (rows : List ScanSchedule)
    → P r
    → All P rows
    → All P (insert_by_run r rows)
unfolding insert_by_run
All-insert_by_run P r [] h all = (h, tt)
All-insert_by_run P r (s ∷ ss) h all = elim (Bool-cases (leb r.next_run_at s.next_run_at)) [
  | inl first ↦ rw first (h, all)
  | inr later ↦ rw later (all.0, All-insert_by_run P r ss h all.1)
]

All-sort_by_run :
    (P : ScanSchedule → Type 0) (rows : List ScanSchedule) → All P rows → All P (sort_by_run rows)
unfolding sort_by_run
All-sort_by_run P [] all = tt
All-sort_by_run P (r ∷ rs) all =
    All-insert_by_run P r (sort_by_run rs) all.0 (All-sort_by_run P rs all.1)

pub All-list_due :
    (P : ScanSchedule → Type 0) (now : ℕ) (rows : List ScanSchedule)
    → All P rows
    → All P (list_due now rows)
unfolding list_due
All-list_due P now rows all =
    All-sort_by_run P (keep (is_due now) rows) (All-keep P (is_due now) rows all)

-- The schedule that has waited longest comes first.
abbrev pub IsOldestFirst : List ScanSchedule → Type 0
IsOldestFirst [] = Unit
IsOldestFirst (r ∷ rs) = All (λ s. r.next_run_at ≤ s.next_run_at) rs × IsOldestFirst rs

insert_by_run-IsOldestFirst :
    (r : ScanSchedule) (rows : List ScanSchedule)
    → IsOldestFirst rows
    → IsOldestFirst (insert_by_run r rows)
unfolding insert_by_run
insert_by_run-IsOldestFirst r [] h = (tt, tt)
insert_by_run-IsOldestFirst r (s ∷ ss) h = elim (Bool-cases (leb r.next_run_at s.next_run_at)) [
  | inl first ↦
      let le : r.next_run_at ≤ s.next_run_at = ground (arith, first) in
      rw first (
        (
          le,
          All-map (λ (x : ScanSchedule). s.next_run_at ≤ x.next_run_at)
              (λ (x : ScanSchedule). r.next_run_at ≤ x.next_run_at) ss
              (λ x after. omega (arith, le, after)) h.0,
        ),
        h,
      )
  | inr later ↦ rw later (
    All-insert_by_run (λ (x : ScanSchedule). s.next_run_at ≤ x.next_run_at) r ss
        (ground (arith, later)) h.0,
    insert_by_run-IsOldestFirst r ss h.1,
  )
]

sort_by_run-IsOldestFirst : (rows : List ScanSchedule) → IsOldestFirst (sort_by_run rows)
unfolding sort_by_run
sort_by_run-IsOldestFirst [] = tt
sort_by_run-IsOldestFirst (r ∷ rs) =
    insert_by_run-IsOldestFirst r (sort_by_run rs) (sort_by_run-IsOldestFirst rs)

pub list_due-IsOldestFirst :
    (now : ℕ) (rows : List ScanSchedule) → IsOldestFirst (list_due now rows)
unfolding list_due
list_due-IsOldestFirst now rows = sort_by_run-IsOldestFirst (keep (is_due now) rows)

any-insert_by_run :
    (p : ScanSchedule → Bool) (r : ScanSchedule) (rows : List ScanSchedule)
    → any p (insert_by_run r rows) ≡ (p r || any p rows)
unfolding insert_by_run
any-insert_by_run p r [] = refl
any-insert_by_run p r (s ∷ ss) = elim (Bool-cases (leb r.next_run_at s.next_run_at)) [
  | inl first ↦ rw first refl
  | inr later ↦ rw (later, any-insert_by_run p r ss) (ground arith)
]

any-sort_by_run :
    (p : ScanSchedule → Bool) (rows : List ScanSchedule) → any p (sort_by_run rows) ≡ any p rows
unfolding sort_by_run
any-sort_by_run p [] = refl
any-sort_by_run p (r ∷ rs) = rw (any-insert_by_run p r (sort_by_run rs), any-sort_by_run p rs) refl

-- At the start every row that is due is on the list.
kept-Waits : (now : ℕ) (rows : List ScanSchedule) → All (Waits now (keep (is_due now) rows)) rows
kept-Waits now [] = tt
kept-Waits now (r ∷ rs) = elim (Bool-cases (is_due now r)) [
  | inl due ↦
      let here : keep (is_due now) (r ∷ rs) ≡ r ∷ keep (is_due now) rs = rw due refl in
      subst (λ ks. All (Waits now ks) (r ∷ rs)) (sym here)
        (
          (λ _. rw (==_refl r.id) refl),
          All-map (Waits now (keep (is_due now) rs)) (Waits now (r ∷ keep (is_due now) rs)) rs
              (λ s waits ready. let found = waits ready in ground (arith, found))
              (kept-Waits now rs),
        )
  | inr fine ↦
      let here : keep (is_due now) (r ∷ rs) ≡ keep (is_due now) rs = rw fine refl in
      subst (λ ks. All (Waits now ks) (r ∷ rs)) (sym here)
        ((λ due. absurd (ground (arith, due, fine))), kept-Waits now rs)
]

pub listed-Waits : (now : ℕ) (rows : List ScanSchedule) → All (Waits now (list_due now rows)) rows
unfolding list_due
listed-Waits now rows =
    All-map (Waits now (keep (is_due now) rows)) (Waits now (list_due now rows)) rows
      (λ s waits ready.
        any-sort_by_run (λ (r : ScanSchedule). r.id == s.id) (keep (is_due now) rows) ∙ waits ready)
      (kept-Waits now rows)
