-- ===== src/Orchestrator/Progress.antt =====
-- internal/modules/orchestrator/progress_store.go and `GetProgress` of service.go: the progress that
-- a poll shows. The live store is an association list, the latest entry of a job first.
use guard_pipe.Prelude.{
  ℕ, ◌-◌, ◌*◌, ◌/◌, ◌≤◌, ◌<◌, ◌≡◌, refl, ◌↔◌, true, false, List, [], ◌∷◌, Option, none, some,
  if◌then◌else◌, ltb, ◌==◌, min, max, length, sum_of, all, arith, String, ℤ, pos, negsuc,
  Bool-cases, Option-cases, inl, inr, OnSome,
}
use native.Mathlib.Nat.{div-le_of_le-mul, le-div_iff_mul-le}
use guard_pipe.Domain.Engine.{EngineId}
use guard_pipe.Domain.Scan.{JobStatus}
use guard_pipe.Orchestrator.Rows.{is_terminal}
use guard_pipe.Orchestrator.Worker.{timeout_for}

pub record JobProgress : Type 0 where
  pub pct : ℕ
  pub activity : String

pub record LiveEntry : Type 0 where
  pub job_id : ℕ
  pub progress : JobProgress

-- What an engine reports is clamped to 0..99.
unfoldable pub clamp_pct : ℤ → ℕ
clamp_pct (negsuc _) = 0
clamp_pct (pos n) = if ltb 99 n then 99 else n

-- `Clear`
unfoldable pub clear_progress : ℕ → List LiveEntry → List LiveEntry
clear_progress job [] = []
clear_progress job (e ∷ es) =
    if e.job_id == job then clear_progress job es else e ∷ clear_progress job es

-- `Set`
unfoldable pub set_progress : ℕ → ℤ → String → List LiveEntry → List LiveEntry
unfolding clamp_pct
set_progress job pct activity es =
    record { job_id = job; progress = record { pct = clamp_pct pct; activity = activity } }
    ∷ clear_progress job es

-- `Get`
unfoldable pub get_progress : ℕ → List LiveEntry → Option JobProgress
get_progress job [] = none
get_progress job (e ∷ es) = if e.job_id == job then some e.progress else get_progress job es

-- `elapsedFallbackPct`, from the time that has passed.
unfoldable pub elapsed_fallback_pct : ℕ → ℕ → ℕ
elapsed_fallback_pct elapsed timeout =
    if timeout == 0 then 50 else min (max (elapsed * 100 / timeout) 1) 95

-- A job as the poll reads it.
pub record PolledJob : Type 0 where
  pub id : ℕ
  pub engine : EngineId
  pub status : JobStatus
  pub started_at : Option ℕ

module _ (timeouts : EngineId → ℕ) (default now : ℕ) (live : List LiveEntry) where
  -- `runningJobProgress`, the percentage.
  unfoldable pub running_job_progress : PolledJob → ℕ
  running_job_progress j = elim (get_progress j.id live) [
    | some p ↦ p.pct
    | none ↦ elim j.started_at [
      | none ↦ 5
      | some started ↦ elapsed_fallback_pct (now - started) (timeout_for timeouts default j.engine)
    ]
  ]

  unfoldable pub job_pct : PolledJob → ℕ
  unfolding is_terminal
  job_pct j = elim j.status [
    | JobStatus.queued ↦ 0
    | JobStatus.running ↦ running_job_progress j
    | _ ↦ 100
  ]

  -- The mean of `GetProgress`.
  unfoldable pub overall_pct : List PolledJob → ℕ
  overall_pct js = if length js == 0 then 0 else sum_of job_pct js / length js

-- What engines and workers do to the live store.
pub data LiveOp : Type 0 where
  reports : ℕ → ℤ → String → LiveOp
  clears : ℕ → LiveOp

unfoldable pub live_after : List LiveOp → List LiveEntry → List LiveEntry
live_after [] es = es
live_after (reports job pct activity ∷ ops) es = live_after ops (set_progress job pct activity es)
live_after (clears job ∷ ops) es = live_after ops (clear_progress job es)

-- Every entry of the live store is below 100.
abbrev pub AllBelow : List LiveEntry → Type 0
AllBelow [] = Unit
AllBelow (e ∷ es) = (e.progress.pct ≤ 99) × AllBelow es

clear_progress-AllBelow :
    (job : ℕ) (es : List LiveEntry) → AllBelow es → AllBelow (clear_progress job es)
unfolding clear_progress
clear_progress-AllBelow job [] h = tt
clear_progress-AllBelow job (e ∷ es) h = elim (Bool-cases (e.job_id == job)) [
  | inl mine ↦ rw mine (clear_progress-AllBelow job es h.1)
  | inr other ↦ rw other (h.0, clear_progress-AllBelow job es h.1)
]

live_after-AllBelow :
    (ops : List LiveOp) (es : List LiveEntry) → AllBelow es → AllBelow (live_after ops es)
unfolding live_after set_progress clamp_pct
live_after-AllBelow [] es h = h
live_after-AllBelow (reports job pct activity ∷ ops) es h =
    live_after-AllBelow ops (set_progress job pct activity es)
      (ground arith, clear_progress-AllBelow job es h)
live_after-AllBelow (clears job ∷ ops) es h =
    live_after-AllBelow ops (clear_progress job es) (clear_progress-AllBelow job es h)

get_progress-AllBelow :
    (job : ℕ) (es : List LiveEntry) → AllBelow es → OnSome (λ p. p.pct ≤ 99) (get_progress job es)
unfolding get_progress
get_progress-AllBelow job [] h = tt
get_progress-AllBelow job (e ∷ es) h = elim (Bool-cases (e.job_id == job)) [
  | inl mine ↦ rw mine h.0
  | inr other ↦ rw other (get_progress-AllBelow job es h.1)
]

module _ (timeouts : EngineId → ℕ) (default now : ℕ) (live : List LiveEntry)
    (below : AllBelow live) where
  running-below : (j : PolledJob) → running_job_progress timeouts default now live j ≤ 99
  unfolding running_job_progress elapsed_fallback_pct
  running-below j = elim (Option-cases (get_progress j.id live)) [
    | inl unreported ↦ rw (running_job_progress, unreported) (ground arith)
    | inr (p, reported) ↦
        rw (running_job_progress, reported) (rw reported at (get_progress-AllBelow j.id live below))
  ]

  job_pct-terminal :
      (j : PolledJob)
      → (job_pct timeouts default now live j ≤ 100)
        × ((is_terminal j.status ≡ true) ↔ (job_pct timeouts default now live j ≡ 100))
  unfolding job_pct is_terminal
  job_pct-terminal j = ground (arith, running-below j)

  sum_of-terminal :
      (js : List PolledJob)
      → (sum_of (job_pct timeouts default now live) js ≤ length js * 100)
        × ((all (λ j. is_terminal j.status) js ≡ true)
            ↔ (length js * 100 ≤ sum_of (job_pct timeouts default now live) js))
  sum_of-terminal [] = (omega arith, ((λ h. omega arith), λ h. refl))
  sum_of-terminal (j ∷ js) = ground (arith, sum_of-terminal js, job_pct-terminal j)

  overall_below :
      (js : List PolledJob)
      → 0 < length js
      → (overall_pct timeouts default now live js ≤ 100)
        × ((all (λ j. is_terminal j.status) js ≡ true)
            ↔ (overall_pct timeouts default now live js ≡ 100))
  unfolding overall_pct
  overall_below js some_job =
      let s = sum_of (job_pct timeouts default now live) js in
      let (most, done) = sum_of-terminal js in
      let small : s / length js ≤ 100 = div-le_of_le-mul (length js) most in
      let full = le-div_iff_mul-le {x = 100} {y = s} some_job in
      let counted : (length js == 0) ≡ false = ground (arith, some_job) in
      rw (overall_pct, counted)
        (
          small,
          (
            (λ all_done. omega (arith, small, full.1 (omega (arith, done.0 all_done)))),
            λ e. done.1 (omega (arith, full.0 (omega (arith, e)))),
          ),
        )

-- Whatever engines reported and workers cleared, in any order, the percentage that a poll shows of
-- a scan with jobs is at most 100, and it is 100 exactly when every job is terminal.
pub overall_pct-done :
    (timeouts : EngineId → ℕ) (default now : ℕ) (ops : List LiveOp) (js : List PolledJob)
    → 0 < length js
    → let shown = overall_pct timeouts default now (live_after ops []) js in
      (shown ≤ 100) × ((all (λ j. is_terminal j.status) js ≡ true) ↔ (shown ≡ 100))
overall_pct-done timeouts default now ops js some_job =
    overall_below timeouts default now (live_after ops []) (live_after-AllBelow ops [] tt) js
      some_job
