-- ===== src/Billing/Audit/Operations.antt =====
-- internal/modules/billing/service.go: every whole operation keeps the ledger in step.
use guard_pipe.Prelude.{
  ℕ, Bool, true, false, not, List, map, Option, arith, ℤ, Option-cases, Bool-cases, inl, inr,
}
use guard_pipe.Errors.{Result, ok, err, ◌>>=◌, OnOk, OnOk-bind, refuse_if}
use guard_pipe.Domain.Engine.{Actor, EngineId}
use guard_pipe.Domain.Pentest.{PentestPreset}
use guard_pipe.Domain.Scan.{TriggerSource}
use guard_pipe.Billing.Catalog.{AiAction, ai_price, ItemCode}
use guard_pipe.Billing.Pricing.{quote_scan}
use guard_pipe.Billing.Store.{
  Store, spendable_buckets, debits_for_job, get_checkout, set_checkout_status, update_subscription,
  insert_checkout,
}
use guard_pipe.Billing.Tokens.{Calendar}
use guard_pipe.Billing.Charge.{
  ChargeLine, ChargeRequest, charge_on, charge, ai_row, charge_ai, refund_job, admin_adjust,
  estimate, require_feature, Feature, is_zero, is_empty,
}
use guard_pipe.Billing.Checkout.{
  Mode, demo, stripe, off, Outcome, Confirmed, start_on, start_checkout, read_checkout,
  get_checkout_for, confirm_on, confirm_demo, set_cancel_on, set_cancel_at_period_end,
  require_billing_admin, is_demo, is_off, settle, was_declined, done,
}
use guard_pipe.Billing.Renewal.{renew_org, admin_advance_cycle, pull_forward}
use guard_pipe.Billing.Conserved.{Conserved, with_org-Conserved}
use guard_pipe.Billing.History.{settled, rows}
use guard_pipe.Billing.Audit.Loops.{
  spend-Conserved, charge_on-Conserved, refund_debits-Conserved, adjust_on-Conserved,
  confirm_session-Conserved, renew_locked-Conserved,
}

pub settled-Conserved :
    (s : Store) (r : Result Store) → Conserved s → OnOk Conserved r → Conserved (settled s r)
settled-Conserved s (ok t) c h = h
settled-Conserved s (err e) c h = c

pub rows-Conserved {ℓ} :
    {A : Type ℓ} (s : Store) (r : Result (A × Store))
    → Conserved s
    → OnOk (λ x. Conserved x.1) r
    → Conserved (settled s (rows r))
rows-Conserved s (ok x) c h = h
rows-Conserved s (err e) c h = c

module _ (cal : Calendar) (org now : ℕ) (s : Store) (c : Conserved s) where
  pub charge-Conserved : (req : ChargeRequest) → OnOk Conserved (charge cal org now req s)
  unfolding charge
  charge-Conserved req = elim (Bool-cases (is_empty req.lines)) [
    | inl nothing ↦ rw (nothing, charge) c
    | inr lines ↦
        let quoted =
          quote_scan (map (λ (l : ChargeLine). l.engine) req.lines) req.preset req.trigger in
        elim (Option-cases quoted) [
          | inl no_price ↦ rw (lines, no_price, charge) tt
          | inr (q, priced) ↦
              rw (lines, priced, charge)
                (with_org-Conserved Conserved cal org now (charge_on req now q) s c
                  (λ sub t h. charge_on-Conserved req now q sub t h))
        ]
  ]

  pub charge_ai-Conserved :
      (actor : Option ℕ) (scan finding : ℕ) (action : AiAction)
      → OnOk (λ r. Conserved r.1) (charge_ai cal org now actor scan finding action s)
  unfolding charge_ai
  charge_ai-Conserved actor scan finding action = elim (Option-cases (ai_price action)) [
    | inl unknown ↦ rw (unknown, charge_ai) tt
    | inr (price, known) ↦
        rw (known, charge_ai)
          (with_org-Conserved (λ r. Conserved r.1) cal org now _ s c
            (λ sub t h. ground (
              arith,
              spend-Conserved (ai_row scan finding action price actor) now 0 price
                  (spendable_buckets now t) t h,
            )))
  ]

  pub refund_job-Conserved : (job : ℕ) → OnOk Conserved (refund_job cal org now job s)
  unfolding refund_job
  refund_job-Conserved job = elim (Bool-cases (is_empty (debits_for_job job s))) [
    | inl nothing ↦ rw (nothing, refund_job) c
    | inr some_debit ↦
        rw (some_debit, refund_job)
          (with_org-Conserved Conserved cal org now _ s c
            (λ sub t h. refund_debits-Conserved job now (debits_for_job job t) t h))
  ]

  pub admin_adjust-Conserved :
      (operator : ℕ) (delta : ℤ) → OnOk Conserved (admin_adjust cal operator org now delta s)
  unfolding admin_adjust
  admin_adjust-Conserved operator delta = elim (Bool-cases (is_zero delta)) [
    | inl zero_delta ↦ rw (zero_delta, admin_adjust) tt
    | inr some_delta ↦
        rw (some_delta, admin_adjust)
          (with_org-Conserved Conserved cal org now _ s c
            (λ sub t h. adjust_on-Conserved operator org now t.next_id delta _ h))
  ]

  pub estimate-Conserved :
      (engines : List EngineId) (preset : PentestPreset) (trigger : TriggerSource)
      → OnOk (λ r. Conserved r.1) (estimate cal org now engines preset trigger s)
  unfolding estimate
  estimate-Conserved engines preset trigger =
      elim (Option-cases (quote_scan engines preset trigger)) [
        | inl no_price ↦ rw (no_price, estimate) tt
        | inr (q, priced) ↦
            rw (priced, estimate)
              (with_org-Conserved (λ r. Conserved r.1) cal org now _ s c (λ sub t h. h))
      ]

  pub require_feature-Conserved :
      (feature : Feature) → OnOk Conserved (require_feature cal org now feature s)
  unfolding require_feature
  require_feature-Conserved feature =
      with_org-Conserved Conserved cal org now _ s c (λ sub t h. ground arith)

  pub renew_org-Conserved : OnOk Conserved (renew_org cal org now s)
  unfolding renew_org
  renew_org-Conserved =
      with_org-Conserved Conserved cal org now _ s c
        (λ sub t h. renew_locked-Conserved cal false now sub t h)

  pub admin_advance_cycle-Conserved :
      (mode : Mode) → OnOk Conserved (admin_advance_cycle cal mode org now s)
  unfolding admin_advance_cycle
  admin_advance_cycle-Conserved demo =
      with_org-Conserved Conserved cal org now _ s c
        (λ sub t h. renew_locked-Conserved cal true now (pull_forward now sub) t h)
  admin_advance_cycle-Conserved stripe = tt
  admin_advance_cycle-Conserved off = tt

settle-Conserved :
    (s : Store) (r : Result (Confirmed × Store))
    → Conserved s
    → OnOk (λ x. Conserved x.1) r
    → Conserved (settle s r).1
settle-Conserved s (ok (done k, t)) c h = h
settle-Conserved s (ok (was_declined, t)) c h = h
settle-Conserved s (err e) c h = c

anything_ok {ℓ} : {A : Type ℓ} (r : Result A) → OnOk (λ _. Unit {0}) r
anything_ok (ok a) = tt
anything_ok (err e) = tt

guarded-OnOk {ℓ κ} :
    {A : Type ℓ} (P : A → Type κ) (g : Result (Unit {0})) (m : Result A)
    → OnOk P m
    → OnOk P (g >>= λ _. m)
guarded-OnOk P (ok u) m h = h
guarded-OnOk P (err e) m h = tt

module _ (cal : Calendar) (actor : Actor) (now : ℕ) (s : Store) (c : Conserved s) where
  pub start_checkout-Conserved :
      (mode : Mode) (provider_ok : Bool) (item : ItemCode)
      → OnOk (λ r. Conserved r.1) (start_checkout cal mode provider_ok actor item now s)
  unfolding start_checkout start_on insert_checkout
  start_checkout-Conserved mode provider_ok item =
      guarded-OnOk (λ r. Conserved r.1) (require_billing_admin actor) _
        (guarded-OnOk (λ r. Conserved r.1) (refuse_if (is_off mode) _) _
          (with_org-Conserved (λ r. Conserved r.1) cal actor.org_id now _ s c
            (λ sub t h. ground arith)))

  pub get_checkout_for-Conserved :
      (i : ℕ) → OnOk (λ r. Conserved r.1) (get_checkout_for cal actor i now s)
  unfolding get_checkout_for read_checkout set_checkout_status
  get_checkout_for-Conserved i =
      guarded-OnOk (λ r. Conserved r.1) (require_billing_admin actor) _
        (with_org-Conserved (λ r. Conserved r.1) cal actor.org_id now _ s c
          (λ sub t h. ground arith))

  pub set_cancel-Conserved :
      (cancel : Bool) → OnOk Conserved (set_cancel_at_period_end cal actor cancel now s)
  unfolding set_cancel_at_period_end set_cancel_on update_subscription
  set_cancel-Conserved cancel =
      guarded-OnOk Conserved (require_billing_admin actor) _
        (with_org-Conserved Conserved cal actor.org_id now _ s c (λ sub t h. ground arith))

  pub confirm_demo-Conserved :
      (mode : Mode) (i : ℕ) (outcome : Outcome)
      → Conserved (confirm_demo cal mode actor i outcome now s).1
  unfolding confirm_demo confirm_on
  confirm_demo-Conserved mode i outcome = settle-Conserved s _ c (
      guarded-OnOk (λ r. Conserved r.1) (refuse_if (not (is_demo mode)) _) _
        (guarded-OnOk (λ r. Conserved r.1) (require_billing_admin actor) _
          (with_org-Conserved (λ r. Conserved r.1) cal actor.org_id now _ s c
            (λ sub t h.
              OnOk-bind (λ _. Unit {0}) (λ r. Conserved r.1) (get_checkout i t) _
                (anything_ok (get_checkout i t))
                (λ k _. confirm_session-Conserved cal k outcome now sub t h)))))
