-- ===== src/Orchestrator/Finish.antt =====
-- internal/store/repo/job_result_repo.go: the last result of a scan closes it, and a repair leaves no
-- scan stuck.
use guard_pipe.Prelude.{
  ℕ, ◌≡◌, refl, ◌∙◌, true, false, not, ◌&&◌, ◌||◌, List, [], ◌∷◌, arith, ◌==◌, any, keep, map, All,
  Bool-cases, inl, inr,
}
use guard_pipe.Orchestrator.Rows.{
  ScanRow, JobRow, Rows, JobResult, is_open, is_terminal, has_open, all_done,
  finalize_scan_if_complete, finalize_each, finalize_stuck_scans, is_stuck, scan_exists,
  update_job_status,
}
use guard_pipe.Orchestrator.Worker.{Pool, persist}
use guard_pipe.Orchestrator.Once.{has_open-set_final, has_open-set_final_self, persist-recorded}

-- The jobs of the scan, apart from the one given, are terminal.
abbrev pub OthersDone : ℕ → ℕ → List JobRow → Type 0
OthersDone scan job =
    All λ j. (not (j.scan_id == scan) || j.id == job || is_terminal j.status) ≡ true

all_done-last :
    (r : JobResult) (js : List JobRow)
    → is_terminal r.status ≡ true
    → OthersDone r.scan_id r.job_id js
    → all_done r.scan_id (update_job_status r js) ≡ true
unfolding all_done update_job_status
all_done-last r [] t o = refl
all_done-last r (j ∷ js) t o = ground (arith, all_done-last r js t o.1)

has_open-exists : (i : ℕ) (ss : List ScanRow) → has_open i ss ≡ true → scan_exists i ss ≡ true
unfolding scan_exists
has_open-exists i [] h = h
has_open-exists i (s ∷ ss) h = ground (arith, has_open-exists i ss)

-- The result of a scan's last job closes the scan: if the scan is open and every other job of it
-- is terminal, a terminal result hands the scan over and leaves it closed.
pub persist-finishes :
    (r : JobResult) (p : Pool)
    → is_terminal r.status ≡ true
    → has_open r.scan_id p.rows.scans ≡ true
    → OthersDone r.scan_id r.job_id p.rows.jobs
    → ((persist r p).finished ≡ r.scan_id ∷ p.finished)
      × (has_open r.scan_id (persist r p).rows.scans ≡ false)
unfolding finalize_scan_if_complete
persist-finishes r p t o d = rw (persist-recorded r p (has_open-exists r.scan_id p.rows.scans o)) (
    rw (finalize_scan_if_complete, all_done-last r p.rows.jobs t d, o)
      (refl, has_open-set_final_self r.scan_id _ p.rows.scans))

module _ (i : ℕ) where
  finalize_scan-jobs : (k : ℕ) (rows : Rows) → (finalize_scan_if_complete k rows).0.jobs ≡ rows.jobs
  unfolding finalize_scan_if_complete
  finalize_scan-jobs k rows = elim (Bool-cases (all_done k rows.jobs)) [
    | inl complete ↦ rw complete refl
    | inr in_flight ↦ rw in_flight refl
  ]

  finalize_scan-shut :
      (k : ℕ) (rows : Rows)
      → has_open i rows.scans ≡ false
      → has_open i (finalize_scan_if_complete k rows).0.scans ≡ false
  unfolding finalize_scan_if_complete
  finalize_scan-shut k rows h = elim (Bool-cases (all_done k rows.jobs)) [
    | inl complete ↦ rw complete (has_open-set_final i k _ rows.scans h)
    | inr in_flight ↦ rw in_flight h
  ]

  finalize_scan_self :
      (rows : Rows)
      → all_done i rows.jobs ≡ true
      → has_open i (finalize_scan_if_complete i rows).0.scans ≡ false
  unfolding finalize_scan_if_complete
  finalize_scan_self rows complete = rw complete (has_open-set_final_self i _ rows.scans)

  finalize_each-jobs : (ids : List ℕ) (rows : Rows) → (finalize_each ids rows).0.jobs ≡ rows.jobs
  unfolding finalize_each
  finalize_each-jobs [] rows = refl
  finalize_each-jobs (k ∷ ids) rows =
      finalize_each-jobs ids (finalize_scan_if_complete k rows).0 ∙ finalize_scan-jobs k rows

  finalize_each-shut :
      (ids : List ℕ) (rows : Rows)
      → has_open i rows.scans ≡ false
      → has_open i (finalize_each ids rows).0.scans ≡ false
  unfolding finalize_each
  finalize_each-shut [] rows h = h
  finalize_each-shut (k ∷ ids) rows h =
      finalize_each-shut ids (finalize_scan_if_complete k rows).0 (finalize_scan-shut k rows h)

  finalize_each-closes :
      (ids : List ℕ) (rows : Rows)
      → all_done i rows.jobs ≡ true
      → any (λ k. k == i) ids ≡ true
      → has_open i (finalize_each ids rows).0.scans ≡ false
  unfolding finalize_each
  finalize_each-closes [] rows complete here = absurd (ground (arith, here))
  finalize_each-closes (k ∷ ids) rows complete here = elim (Bool-cases (k == i)) [
    | inl same ↦
        let e : k ≡ i = ground (arith, same) in
        finalize_each-shut ids (finalize_scan_if_complete k rows).0
          (rw e (finalize_scan_self rows complete))
    | inr other ↦
        finalize_each-closes ids (finalize_scan_if_complete k rows).0
          (rw (finalize_scan-jobs k rows) complete) (rw other at here)
  ]

  open-is_stuck :
      (rows : Rows) (s : ScanRow)
      → any (λ j. j.scan_id == i) rows.jobs ≡ true
      → all_done i rows.jobs ≡ true
      → (s.id == i && is_open s.status) ≡ true
      → is_stuck rows s ≡ true
  unfolding is_stuck
  open-is_stuck rows s has complete o =
      let e : s.id ≡ i = ground (arith, o) in rw (is_stuck, e, has, complete) (ground (arith, o))

  candidate :
      (rows : Rows) (ss : List ScanRow)
      → any (λ j. j.scan_id == i) rows.jobs ≡ true
      → all_done i rows.jobs ≡ true
      → has_open i ss ≡ true
      → any (λ k. k == i) (map (λ s. s.id) (keep (is_stuck rows) ss)) ≡ true
  candidate rows [] has complete o = o
  candidate rows (s ∷ ss) has complete o = elim (Bool-cases (is_stuck rows s)) [
    | inl stuck ↦ elim (Bool-cases (s.id == i)) [
      | inl same ↦ rw (stuck, same) refl
      | inr other ↦ rw (stuck, other) (candidate rows ss has complete (rw other at o))
    ]
    | inr free ↦ elim (Bool-cases (s.id == i && is_open s.status)) [
      | inl mine ↦ absurd (ground (arith, free, open-is_stuck rows s has complete mine))
      | inr not_mine ↦ rw free (candidate rows ss has complete (rw not_mine at o))
    ]
  ]

  -- After a repair no scan is left that is open, has jobs, and has no job queued or running.
  pub finalize_stuck_scans-none_left :
      (rows : Rows)
      → let after = (finalize_stuck_scans rows).0 in
        (has_open i after.scans && any (λ j. j.scan_id == i) after.jobs && all_done i after.jobs)
        ≡ false
  unfolding finalize_stuck_scans
  finalize_stuck_scans-none_left rows =
      let ids = map (λ s. s.id) (keep (is_stuck rows) rows.scans) in
      let after = (finalize_each ids rows).0 in
      let same : after.jobs ≡ rows.jobs = finalize_each-jobs ids rows in
      elim (Bool-cases (any (λ j. j.scan_id == i) rows.jobs)) [
        | inr jobless ↦ rw (finalize_stuck_scans, same, jobless) (ground arith)
        | inl has ↦ elim (Bool-cases (all_done i rows.jobs)) [
          | inr in_flight ↦ rw (finalize_stuck_scans, same, in_flight) (ground arith)
          | inl complete ↦
              let shut : has_open i after.scans ≡ false =
                elim (Bool-cases (has_open i rows.scans)) [
                  | inr before ↦ finalize_each-shut ids rows before
                  | inl waiting ↦
                      finalize_each-closes ids rows complete
                        (candidate rows rows.scans has complete waiting)
                ] in
              rw (finalize_stuck_scans, shut) refl
        ]
      ]
