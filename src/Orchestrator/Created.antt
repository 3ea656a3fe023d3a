-- ===== src/Orchestrator/Created.antt =====
-- internal/modules/orchestrator/service.go, `CreateScan`: what a created scan consists of, and what
-- stays paid for when its creation fails.
use guard_pipe.Prelude.{
  ℕ, suc, ◌+◌, ◌≡◌, refl, sym, ap, ◌∙◌, ◌⊎◌, inl, inr, Bool, true, false, ◌&&◌, List, [], ◌∷◌, ◌++◌,
  map, length, arith, all, Bool-cases,
}
use guard_pipe.Errors.{AppError, Result, ok, err, OnOk, OnOk-bind, OnOk-ok, Result-cases}
use guard_pipe.Domain.Engine.{EngineId}
use guard_pipe.Domain.Scan.{scan_type_valid}
use guard_pipe.Billing.Store.{Store}
use guard_pipe.Billing.Charge.{is_empty}
use guard_pipe.Orchestrator.Rows.{JobRow, Rows}
use guard_pipe.Orchestrator.Engines.{Project, ScanRequest, is_full, resolve_engines, scan_config}
use guard_pipe.Billing.Frame.{with_org-OnOk}
use guard_pipe.Billing.Tokens.{plan_of}
use guard_pipe.Orchestrator.Choice.{can_run, resolve_engines-can_run, allowed-all}
use guard_pipe.Orchestrator.Create.{
  Desk, Writes, Call, NewScan, new_jobs, new_scan, request_for, pay, refund_each, until_failure,
  id_of, enqueue_scan, write_scan, charge_and_write, choose_engines, create_scan, included_engines,
}

is_empty-eq {ℓ} : {A : Type ℓ} (xs : List A) → is_empty xs ≡ true → xs ≡ []
is_empty-eq [] h = refl
is_empty-eq (x ∷ xs) h = absurd (ground (arith, h))

-- The two parts are the whole list, in order.
until_failure-append :
    (works : ℕ → Bool) (js : List JobRow)
    → let (written, rest) = until_failure works js in written ++ rest ≡ js
unfolding until_failure
until_failure-append works [] = refl
until_failure-append works (j ∷ js) = elim (Bool-cases (works j.id)) [
  | inl fine ↦ rw fine (ap (λ xs. j ∷ xs) (until_failure-append works js))
  | inr failed ↦ rw failed refl
]

append_nil {ℓ} : {A : Type ℓ} (xs : List A) → xs ++ [] ≡ xs
append_nil [] = refl
append_nil (x ∷ xs) = ap (λ ys. x ∷ ys) (append_nil xs)

until_failure_all :
    (works : ℕ → Bool) (js : List JobRow)
    → is_empty (until_failure works js).1 ≡ true
    → (until_failure works js).0 ≡ js
until_failure_all works js e =
    sym (append_nil (until_failure works js).0)
    ∙ ap (λ xs. (until_failure works js).0 ++ xs) (sym (is_empty-eq _ e))
    ∙ until_failure-append works js

-- The rows that a failed creation leaves: none of its own, or the scan and the first of its jobs.
abbrev Leaves : NewScan → Rows → Rows → Type 0
Leaves n before after =
    (after ≡ before)
    ⊎ ((created : List JobRow) × (missing : List JobRow) × (created ++ missing ≡ n.jobs)
        × (after
            ≡ record before { scans = before.scans ++ n.scan ∷ []; jobs = before.jobs ++ created }))

-- What a paid creation leaves: every job in the queue and paid for, or an error with the jobs
-- split into those in the queue and those whose tokens were asked back.
abbrev pub Written : Call → NewScan → Desk → Result NewScan × Desk → Type 0
Written c n d (ok m, d') =
    (m ≡ n)
    × (d'.tokens ≡ d.tokens)
    × (d'.rows
        ≡ record d.rows { scans = d.rows.scans ++ n.scan ∷ []; jobs = d.rows.jobs ++ n.jobs })
    × (d'.queue ≡ d.queue ++ map id_of n.jobs)
Written c n d (err e, d') =
    (sent : List JobRow) × (unsent : List JobRow) × (sent ++ unsent ≡ n.jobs)
    × (is_empty unsent ≡ false)
    × (d'.queue ≡ d.queue ++ map id_of sent)
    × (d'.tokens ≡ refund_each c unsent d.tokens)
    × Leaves n d.rows d'.rows

-- Every creation that was paid for ends with the scan, all of its jobs and their places in the
-- queue, and the tokens spent; or it fails, and the tokens of exactly the jobs that are not in
-- the queue are asked back. The scan has at least one job.
pub write_scan-Written :
    (c : Call) (w : Writes) (n : NewScan) (d : Desk)
    → is_empty n.jobs ≡ false
    → Written c n d (write_scan c w n d)
unfolding write_scan enqueue_scan
write_scan-Written c w n d some_jobs = elim (Bool-cases w.scan_created) [
  | inr no_scan ↦
      rw (write_scan, no_scan)
        ([], n.jobs, refl, some_jobs, sym (append_nil d.queue), refl, inl refl)
  | inl scan_there ↦ elim (Bool-cases (is_empty (until_failure w.job_created n.jobs).1)) [
    | inr no_jobs ↦
        rw (write_scan, scan_there, no_jobs)
          (
            [],
            n.jobs,
            refl,
            some_jobs,
            sym (append_nil d.queue),
            refl,
            inr (
              (until_failure w.job_created n.jobs).0,
              (until_failure w.job_created n.jobs).1,
              until_failure-append w.job_created n.jobs,
              refl,
            ),
          )
    | inl jobs_there ↦ elim (Bool-cases (is_empty (until_failure w.enqueued n.jobs).1)) [
      | inr stopped ↦
          rw (write_scan, scan_there, jobs_there, enqueue_scan, stopped)
            (
              (until_failure w.enqueued n.jobs).0,
              (until_failure w.enqueued n.jobs).1,
              until_failure-append w.enqueued n.jobs,
              stopped,
              refl,
              refl,
              inr (
                (until_failure w.job_created n.jobs).0,
                (until_failure w.job_created n.jobs).1,
                until_failure-append w.job_created n.jobs,
                refl,
              ),
            )
      | inl sent ↦
          rw
            (
              write_scan,
              scan_there,
              jobs_there,
              enqueue_scan,
              sent,
              until_failure_all w.job_created n.jobs jobs_there,
              until_failure_all w.enqueued n.jobs sent,
            )
            (refl, refl, refl, refl)
    ]
  ]
]

new_jobs-engines : (scan i : ℕ) (es : List EngineId) → map (λ j. j.engine) (new_jobs scan i es) ≡ es
unfolding new_jobs
new_jobs-engines scan i [] = refl
new_jobs-engines scan i (e ∷ es) = ap (λ xs. e ∷ xs) (new_jobs-engines scan (suc i) es)

new_jobs-some :
    (scan i : ℕ) (es : List EngineId) → is_empty es ≡ false → is_empty (new_jobs scan i es) ≡ false
unfolding new_jobs
new_jobs-some scan i [] h = h
new_jobs-some scan i (e ∷ es) h = refl

included_engines-can_run :
    (c : Call) (p : Project) (req : ScanRequest) (es : List EngineId) (s : Store)
    → all (can_run p) es ≡ true
    → OnOk (λ r. all (can_run p) r.0 ≡ true) (included_engines c req es s)
unfolding included_engines
included_engines-can_run c p req es s h =
    elim (Bool-cases (c.billing_on && is_full req.scan_type)) [
      | inr all_asked ↦ rw (included_engines, all_asked) h
      | inl by_plan ↦
          rw (included_engines, by_plan)
            (with_org-OnOk (λ r. all (can_run p) r.0 ≡ true) c.calendar c.org c.now _ s
              (λ sub t. allowed-all (can_run p) (plan_of sub) es h))
    ]

choose_engines-can_run :
    (c : Call) (p : Project) (req : ScanRequest) (s : Store)
    → OnOk (λ r. all (can_run p) r.0 ≡ true) (choose_engines c p req s)
unfolding choose_engines
choose_engines-can_run c p req s = elim (Bool-cases (scan_type_valid req.scan_type)) [
  | inr unknown ↦ rw (choose_engines, unknown) tt
  | inl known ↦
      rw (choose_engines, known)
        (OnOk-bind (λ es. all (can_run p) es ≡ true) (λ r. all (can_run p) r.0 ≡ true)
          (resolve_engines p req) _ (resolve_engines-can_run p req)
          (λ es h. included_engines-can_run c p req es s h))
]

-- The scan that a paid creation writes.
abbrev planned : Call → ScanRequest → List EngineId → ℕ → NewScan
planned c req es i = record {
  scan = new_scan i;
  jobs = new_jobs i (suc i) es;
  config = scan_config c.ceiling req es;
}

-- The engines were chosen and the organisation charged: from the tokens before it to those after.
abbrev PaidFor : Call → Project → ScanRequest → Desk → NewScan → Store → Type 0
PaidFor c p req d n paid =
    (es : List EngineId) × (t : Store) × (choose_engines c p req d.tokens ≡ ok (es, t))
    × (map (λ j. j.engine) n.jobs ≡ es)
    × (is_empty n.jobs ≡ false)
    × (all (can_run p) es ≡ true)
    × (pay c (request_for c req n.scan.id es n.jobs) t ≡ ok paid)

-- No charge was made: the engines could not be chosen, and nothing changed; or there were none, or the
-- charge was refused, and nothing changed but what choosing them left of the tokens.
abbrev Unpaid : Call → Project → ScanRequest → Desk → Desk → Type 0
Unpaid c p req d d' =
    ((e : AppError) × (choose_engines c p req d.tokens ≡ err e) × (d' ≡ d))
    ⊎ ((es : List EngineId) × (t : Store) × (choose_engines c p req d.tokens ≡ ok (es, t))
        × ((is_empty es ≡ true)
            ⊎ ((e : AppError) × (pay c
                    (request_for c req d.next_id es (new_jobs d.next_id (suc d.next_id) es)) t
                  ≡ err e)))
        × (d' ≡ record d { tokens = t }))

-- What a call of `CreateScan` ends with.
abbrev pub Created : Call → Project → ScanRequest → Desk → Result NewScan × Desk → Type 0
Created c p req d (ok n, d') =
    PaidFor c p req d n d'.tokens
    × (d'.rows
        ≡ record d.rows { scans = d.rows.scans ++ n.scan ∷ []; jobs = d.rows.jobs ++ n.jobs })
    × (d'.queue ≡ d.queue ++ map id_of n.jobs)
Created c p req d (err e, d') =
    Unpaid c p req d d'
    ⊎ ((n : NewScan) × (paid : Store) × PaidFor c p req d n paid
        × ((sent : List JobRow) × (unsent : List JobRow) × (sent ++ unsent ≡ n.jobs)
            × (is_empty unsent ≡ false)
            × (d'.queue ≡ d.queue ++ map id_of sent)
            × (d'.tokens ≡ refund_each c unsent paid)
            × Leaves n d.rows d'.rows))

Written-Created :
    (c : Call) (p : Project) (req : ScanRequest) (d : Desk) (n : NewScan) (paid : Store) (next : ℕ)
    (r : Result NewScan × Desk)
    → PaidFor c p req d n paid
    → Written c n (record d { tokens = paid; next_id = next }) r
    → Created c p req d r
Written-Created c p req d n paid next (ok m, d') charged w = rw (w.0, w.1) (charged, w.2, w.3)
Written-Created c p req d n paid next (err x, d') charged w = inr (n, paid, charged, w)

charge_and_write-Created :
    (c : Call) (w : Writes) (p : Project) (req : ScanRequest) (d : Desk) (es : List EngineId)
    (t : Store)
    → choose_engines c p req d.tokens ≡ ok (es, t)
    → is_empty es ≡ false
    → Created c p req d (charge_and_write c w req es (record d { tokens = t }))
unfolding charge_and_write
charge_and_write-Created c w p req d es t chosen some_engine =
    let jobs = new_jobs d.next_id (suc d.next_id) es in
    elim (Result-cases (pay c (request_for c req d.next_id es jobs) t)) [
      | inr (e, refused) ↦
          rw (charge_and_write, refused) (inl (inr (es, t, chosen, inr (e, refused), refl)))
      | inl (paid, charged) ↦
          let some_job = new_jobs-some d.next_id (suc d.next_id) es some_engine in
          let runnable =
            OnOk-ok (λ r. all (can_run p) r.0 ≡ true) _ chosen
              (choose_engines-can_run c p req d.tokens) in
          rw (charge_and_write, charged)
            (Written-Created c p req d (planned c req es d.next_id) paid (suc d.next_id + length es)
              _
              (
                es,
                t,
                chosen,
                new_jobs-engines d.next_id (suc d.next_id) es,
                some_job,
                runnable,
                charged,
              )
              (write_scan-Written c w (planned c req es d.next_id) _ some_job))
    ]

-- However a call of `CreateScan` is made, and whichever of its writes fail: if it answers a scan, the
-- organisation was charged for its jobs (when billing is on), one for each chosen engine, all of which
-- the project can run, and the scan, its jobs and their places in the queue are exactly what was added.
-- If it fails, either no charge was made, since the engines could not be chosen, there were none or the
-- charge was refused, and nothing changed but the tokens as choosing the engines left them (a new
-- organisation is provisioned then); or the charge was made, and the tokens of exactly the jobs that are
-- not in the queue were asked back, and of its rows there are none, or the scan and the first of its jobs.
pub create_scan-Created :
    (c : Call) (w : Writes) (p : Project) (req : ScanRequest) (d : Desk)
    → Created c p req d (create_scan c w p req d)
unfolding create_scan
create_scan-Created c w p req d = elim (Result-cases (choose_engines c p req d.tokens)) [
  | inr (e, refused) ↦ rw (create_scan, refused) (inl (inl (e, refused, refl)))
  | inl ((es, t), chosen) ↦ elim (Bool-cases (is_empty es)) [
    | inl none_left ↦
        rw (create_scan, chosen, none_left) (inl (inr (es, t, chosen, inl none_left, refl)))
    | inr some_engine ↦
        rw (create_scan, chosen, some_engine)
          (charge_and_write-Created c w p req d es t chosen some_engine)
  ]
]
