-- ===== src/Orchestrator/Once.antt =====
-- internal/store/repo/job_result_repo.go with internal/modules/orchestrator/worker.go: every scan
-- is handed to scoring and notifications once, by its last job or by the sweeper.
use guard_pipe.Prelude.{
  ℕ, ◌≡◌, refl, ap, ◌∙◌, sym, Bool, true, false, List, [], ◌∷◌, if◌then◌else◌, arith, ◌==◌, All,
  All-map, Bool-cases, inl, inr,
}
use guard_pipe.Domain.Finding.{Severity}
use guard_pipe.Orchestrator.Rows.{
  ScanRow, Rows, JobResult, has_open, all_done, set_final, count_findings,
  finalize_scan_if_complete, finalize_each, finalize_stuck_scans, scan_exists, recorded,
  persist_job_result, mark_started, set_cancel,
}
use guard_pipe.Orchestrator.Worker.{
  Pool, persist, refund_asked, Event, persists, starts, cancels, repairs, hand_over, on_event,
  on_events,
}

-- No operation opens a closed scan again.
module _ (i : ℕ) where
  pub has_open-set_final :
      (j : ℕ) (counts : Severity → ℕ) (ss : List ScanRow)
      → has_open i ss ≡ false
      → has_open i (set_final j counts ss) ≡ false
  unfolding set_final
  has_open-set_final j counts [] h = refl
  has_open-set_final j counts (s ∷ ss) h = ground (arith, has_open-set_final j counts ss)

  pub has_open-set_final_self :
      (counts : Severity → ℕ) (ss : List ScanRow) → has_open i (set_final i counts ss) ≡ false
  unfolding set_final
  has_open-set_final_self counts [] = refl
  has_open-set_final_self counts (s ∷ ss) = ground (arith, has_open-set_final_self counts ss)

  has_open-mark_started :
      (j : ℕ) (ss : List ScanRow) → has_open i (mark_started j ss) ≡ has_open i ss
  unfolding mark_started
  has_open-mark_started j [] = refl
  has_open-mark_started j (s ∷ ss) = ground (arith, has_open-mark_started j ss)

  has_open-set_cancel : (j : ℕ) (ss : List ScanRow) → has_open i (set_cancel j ss) ≡ has_open i ss
  unfolding set_cancel
  has_open-set_cancel j [] = refl
  has_open-set_cancel j (s ∷ ss) = ground (arith, has_open-set_cancel j ss)

abbrev pub NotAmong : ℕ → List ℕ → Type 0
NotAmong i = All λ j. (j == i) ≡ false

abbrev pub NoRepeats : List ℕ → Type 0
NoRepeats [] = Unit
NoRepeats (i ∷ is) = NotAmong i is × NoRepeats is

-- Every scan handed over is closed, and none was handed over twice.
abbrev pub Once : List ScanRow → List ℕ → Type 0
Once ss is = All (λ i. has_open i ss ≡ false) is × NoRepeats is

==-false :
    (ss : List ScanRow) (i j : ℕ) → has_open i ss ≡ true → has_open j ss ≡ false → (j == i) ≡ false
==-false ss i j o c = elim (Bool-cases (j == i)) [
  | inr apart ↦ apart
  | inl same ↦
      let e : j ≡ i = ground (arith, same) in
      absurd (ground (arith, sym c ∙ ap (λ k. has_open k ss) e ∙ o))
]

open-NotAmong :
    (ss : List ScanRow) (i : ℕ) (is : List ℕ)
    → has_open i ss ≡ true
    → All (λ j. has_open j ss ≡ false) is
    → NotAmong i is
open-NotAmong ss i [] o c = tt
open-NotAmong ss i (j ∷ js) o c = (==-false ss i j o c.0, open-NotAmong ss i js o c.1)

-- One finalisation.
abbrev pub handed : ℕ → Bool → List ℕ → List ℕ
handed i done is = if done then i ∷ is else is

finalize-Once :
    (i : ℕ) (rows : Rows) (is : List ℕ)
    → Once rows.scans is
    → let (rows', done) = finalize_scan_if_complete i rows in Once rows'.scans (handed i done is)
unfolding finalize_scan_if_complete
finalize-Once i rows is o = elim (Bool-cases (all_done i rows.jobs)) [
  | inr in_flight ↦ rw in_flight o
  | inl complete ↦
      let ss = set_final i (count_findings i rows.findings) rows.scans in
      let closed : All (λ j. has_open j ss ≡ false) is =
        All-map (λ j. has_open j rows.scans ≡ false) (λ j. has_open j ss ≡ false) is
          (λ j h. has_open-set_final j i (count_findings i rows.findings) rows.scans h) o.0 in
      elim (Bool-cases (has_open i rows.scans)) [
        | inr shut ↦ rw (complete, shut) (closed, o.1)
        | inl waiting ↦
            rw (complete, waiting)
              (
                (has_open-set_final_self i (count_findings i rows.findings) rows.scans, closed),
                (open-NotAmong rows.scans i is waiting o.0, o.1),
              )
      ]
]

finalize_each-Once :
    (ids : List ℕ) (rows : Rows) (is : List ℕ)
    → Once rows.scans is
    → let (rows', done) = finalize_each ids rows in Once rows'.scans (hand_over done is)
unfolding finalize_each
finalize_each-Once [] rows is o = o
finalize_each-Once (i ∷ ids) rows is o =
    let first = finalize_scan_if_complete i rows in
    let rest = finalize_each-Once ids first.0 (handed i first.1 is) (finalize-Once i rows is o) in
    elim (Bool-cases first.1) [
      | inl done ↦ rw done (rw done at rest)
      | inr not_done ↦ rw not_done (rw not_done at rest)
    ]

pub persist-recorded :
    (r : JobResult) (p : Pool)
    → scan_exists r.scan_id p.rows.scans ≡ true
    → let (rows, done) = finalize_scan_if_complete r.scan_id (recorded r p.rows) in
      persist r p ≡ record {
        rows = rows;
        refunds = refund_asked r p.refunds;
        finished = handed r.scan_id done p.finished;
      }
unfolding persist persist_job_result
persist-recorded r p there = rw (persist, there) refl

persist-missing :
    (r : JobResult) (p : Pool)
    → scan_exists r.scan_id p.rows.scans ≡ false
    → persist r p ≡ record p { refunds = refund_asked r p.refunds }
unfolding persist persist_job_result
persist-missing r p missing = rw (persist, missing) refl

persist-Once :
    (r : JobResult) (p : Pool)
    → Once p.rows.scans p.finished
    → Once (persist r p).rows.scans (persist r p).finished
persist-Once r p o = elim (Bool-cases (scan_exists r.scan_id p.rows.scans)) [
  | inl there ↦
      rw (persist-recorded r p there) (finalize-Once r.scan_id (recorded r p.rows) p.finished o)
  | inr missing ↦ rw (persist-missing r p missing) o
]

Once-same :
    (ss ts : List ScanRow) (is : List ℕ)
    → ((i : ℕ) → has_open i ts ≡ has_open i ss)
    → Once ss is
    → Once ts is
Once-same ss ts is same o = (
  All-map (λ i. has_open i ss ≡ false) (λ i. has_open i ts ≡ false) is (λ i h. same i ∙ h) o.0,
  o.1,
)

on_event-Once :
    (e : Event) (p : Pool)
    → Once p.rows.scans p.finished
    → Once (on_event e p).rows.scans (on_event e p).finished
unfolding on_event finalize_stuck_scans
on_event-Once (persists r) p o = persist-Once r p o
on_event-Once (starts job scan) p o =
    Once-same p.rows.scans _ p.finished (λ i. has_open-mark_started i scan p.rows.scans) o
on_event-Once (cancels scan) p o =
    Once-same p.rows.scans _ p.finished (λ i. has_open-set_cancel i scan p.rows.scans) o
on_event-Once repairs p o = finalize_each-Once _ p.rows p.finished o

events_from-Once :
    (es : List Event) (p : Pool)
    → Once p.rows.scans p.finished
    → Once (on_events es p).rows.scans (on_events es p).finished
unfolding on_events
events_from-Once [] p o = o
events_from-Once (e ∷ es) p o = events_from-Once es (on_event e p) (on_event-Once e p o)

-- From a pool that has handed nothing over, after every sequence of results (of workers and of
-- the sweeper), starts, cancel requests and repairs, in any order and with any repetitions, every
-- scan handed to scoring and notifications is closed, and none was handed over twice.
pub on_events-Once :
    (es : List Event) (p : Pool)
    → p.finished ≡ []
    → Once (on_events es p).rows.scans (on_events es p).finished
on_events-Once es p fresh = events_from-Once es p (rw fresh (tt, tt))
