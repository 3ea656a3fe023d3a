-- ===== src/Orchestrator/Ticks/Fires.antt =====
-- internal/modules/orchestrator/scheduler.go: what a tick fires, and what it leaves due.
use guard_pipe.Prelude.{
  ℕ, ◌≤◌, ◌≡◌, refl, sym, ap, ◌∙◌, subst, true, false, List, [], ◌∷◌, none, some, All, All-map,
  Option-cases, inl, inr, ◌==◌, any, find?-holds, some_inj, arith,
}
use guard_pipe.Project.Store.{project_by_id}
use guard_pipe.Orchestrator.Schedules.{
  RunStatus, failed, ScanSchedule, Cron, ScanService, Board, World, schedule_by_id, record_run,
  is_due, list_due, next_after,
}
use guard_pipe.Orchestrator.Scheduling.{
  outcome_of, scheduled_actor, record_schedule_outcome, trigger_schedule, trigger_each, tick,
}
use guard_pipe.Orchestrator.Ticks.{
  fire, fire_each, Recurs, AreKeyed, Job, job_of, job_found, HasJob, Waits, next_after-later,
  fire-job, find-record_run, record_run-Waits, none_due, All-list_due, listed-Waits, IsOldestFirst,
  list_due-IsOldestFirst,
}

key_found :
    (i : ℕ) (rows : List ScanSchedule) {x : ScanSchedule}
    → schedule_by_id i rows ≡ some x
    → x.id ≡ i
unfolding schedule_by_id
key_found i rows {x} found =
    let hit : (x.id == i) ≡ true = find?-holds (λ (r : ScanSchedule). r.id == i) rows found in
    ground (arith, hit)

module _ {S : Type 0} (svc : ScanService S) (cron : Cron) (w : World) where
  -- What one trigger does to a schedule that is there.
  fired :
      (t i : ℕ) (x : ScanSchedule) (b : Board S)
      → schedule_by_id i b.schedules ≡ some x
      → (status : RunStatus) × ((trigger_schedule svc cron w t i b).1 ≡ record b {
        scans = fire svc w t x b.scans;
        schedules = record_run x.id t status (next_after cron t x.cron_expression) b.schedules;
      })
  unfolding trigger_schedule record_schedule_outcome fire
  fired t i x b found = elim (Option-cases (project_by_id x.project_id w.projects)) [
    | inl lost ↦ (failed, rw (found, trigger_schedule, lost, fire) refl)
    | inr held ↦ (
      outcome_of (svc.create (scheduled_actor held.0 x) x.project_id x.profile t b.scans).0,
      rw (found, trigger_schedule, held.1, fire) refl,
    )
  ]

  -- The same of a schedule whose row has changed since it was listed.
  trigger_schedule-fires :
      (t : ℕ) (r : ScanSchedule) (b : Board S)
      → HasJob b.schedules r
      → (status : RunStatus) × ((trigger_schedule svc cron w t r.id b).1 ≡ record b {
        scans = fire svc w t r b.scans;
        schedules = record_run r.id t status (next_after cron t r.cron_expression) b.schedules;
      })
  unfolding trigger_schedule record_schedule_outcome
  trigger_schedule-fires t r b has = elim (Option-cases (schedule_by_id r.id b.schedules)) [
    | inl gone ↦ let lost : none ≡ some (job_of r) = rw gone at has in cc
    | inr found ↦
        let x = found.0 in
        let same : job_of x ≡ job_of r = some_inj (rw found.1 at has) in
        let key : x.id ≡ r.id = key_found r.id b.schedules found.1 in
        let expr : x.cron_expression ≡ r.cron_expression = ap (λ (j : Job). j.3) same in
        let done = fired t r.id x b found.1 in
        (done.0, done.1 ∙ rw (fire-job svc w t r x b.scans same, key, expr) refl)
  ]

  trigger_each-fires :
      (now : ℕ) (clock : ℕ → ℕ) (rs : List ScanSchedule) (b : Board S)
      → ((i : ℕ) → now ≤ clock i)
      → All (HasJob b.schedules) rs
      → All (λ r. Recurs cron r.cron_expression) rs
      → All (Waits now rs) b.schedules
      → ((trigger_each svc cron w clock rs b).scans ≡ fire_each svc w clock rs b.scans)
        × (any (is_due now) (trigger_each svc cron w clock rs b).schedules ≡ false)
  unfolding trigger_each fire_each
  trigger_each-fires now clock [] b after jobs recur waits = (refl, none_due now b.schedules waits)
  trigger_each-fires now clock (r ∷ rs) b after jobs recur waits =
      let t = clock r.id in
      let next = next_after cron t r.cron_expression in
      let did = trigger_schedule-fires t r b jobs.0 in
      let rows = record_run r.id t did.0 next b.schedules in
      let c : Board S = record b { scans = fire svc w t r b.scans; schedules = rows } in
      subst
        (λ (d : Board S).
          ((trigger_each svc cron w clock rs d).scans
            ≡ fire_each svc w clock rs (fire svc w t r b.scans))
          × (any (is_due now) (trigger_each svc cron w clock rs d).schedules ≡ false))
        (sym did.1)
        (trigger_each-fires now clock rs c after
          (All-map (HasJob b.schedules) (HasJob rows) rs
            (λ s has. find-record_run r.id t next did.0 s.id b.schedules ∙ has) jobs.1)
          recur.1
          (record_run-Waits now t next did.0 r rs b.schedules
            (next_after-later cron now t r.cron_expression (after r.id) recur.0) waits))

-- A tick asks for one scan for each schedule that is due and whose project is there, the one that has
-- waited longest (by its next run) first, as the rows were at its start and whatever the earlier requests answer, and for
-- no other scan; afterwards no schedule is due at the time of the tick. The clock does not go back during
-- the tick, a row is what a search for its key finds, and each expression that can be read comes round
-- again.
pub tick-fires :
    {S : Type 0} (svc : ScanService S) (cron : Cron) (w : World) (now : ℕ) (clock : ℕ → ℕ)
    (b : Board S)
    → ((i : ℕ) → now ≤ clock i)
    → AreKeyed b.schedules
    → All (λ r. Recurs cron r.cron_expression) b.schedules
    → ((tick svc cron w now clock b).scans
        ≡ fire_each svc w clock (list_due now b.schedules) b.scans)
      × (any (is_due now) (tick svc cron w now clock b).schedules ≡ false)
      × IsOldestFirst (list_due now b.schedules)
unfolding tick
tick-fires svc cron w now clock b after keyed recur =
    let listed : (P : ScanSchedule → Type 0)
        → All P b.schedules
        → All P (list_due now b.schedules) =
      λ P all. All-list_due P now b.schedules all in
    let fired =
      trigger_each-fires svc cron w now clock (list_due now b.schedules) b after
        (listed (HasJob b.schedules)
          (All-map _ (HasJob b.schedules) b.schedules (λ r found. ap job_found found) keyed))
        (listed (λ r. Recurs cron r.cron_expression) recur) (listed-Waits now b.schedules) in
    (fired.0, fired.1, list_due-IsOldestFirst now b.schedules)
