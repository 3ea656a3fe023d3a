-- ===== src/Billing/Audit.antt =====
-- internal/modules/billing/service.go: the ledger accounts for every token after every history of
-- operations.
mod Loops
mod Operations
use guard_pipe.Prelude.{
  ℕ, suc, ◌+◌, ◌-◌, ◌≡◌, zero, refl, min, Bool, true, false, not, List, [], ◌∷◌, map, Option, none,
  some, arith, ltb, leb, ◌==◌, ℤ, pos, negsuc, neg, sub_ℕ, Option-cases, Bool-cases, inl, inr,
  sum_of,
}
use guard_pipe.Errors.{Result, ok, err, ◌>>=◌, OnOk, OnOk-bind, refuse_if, AppError}
use guard_pipe.Domain.Engine.{Actor, EngineId}
use guard_pipe.Domain.Pentest.{PentestPreset}
use guard_pipe.Domain.Scan.{TriggerSource}
use guard_pipe.Billing.Catalog.{
  PlanCode, AiAction, ai_price, ItemCode, plan_item, topup_100k, topup_250k, topup_600k, other_item,
  packs, Pack,
}
use guard_pipe.Billing.Pricing.{QuoteLine, Quote, quote_scan}
use guard_pipe.Billing.Store.{
  Store, Bucket, LedgerEntry, Key, Subscription, spendable_buckets, debits_for_job, get_checkout,
  CheckoutSession, set_checkout_status, update_subscription, insert_checkout, paid, expired_buckets,
  ledger_key_exists, ai_key, failed, expired_checkout,
}
use guard_pipe.Billing.Tokens.{Calendar, move_tokens, with_org}
use guard_pipe.Billing.Charge.{
  ChargeLine, ChargeRequest, spend, debit_row, charge_lines, charge_on, charge, ai_row, charge_ai,
  refund_debits, refund_row, refund_job, adjust_on, admin_adjust, estimate, require_feature,
  already_charged, Feature, is_zero, is_empty,
}
use guard_pipe.Billing.Checkout.{
  Mode, demo, stripe, off, Outcome, success, declined, Confirmed, start_on, start_checkout,
  read_checkout, get_checkout_for, start_plan, start_pack, deliver, fulfil, confirm_session,
  confirm_on, confirm_demo, set_cancel_on, set_cancel_at_period_end, require_billing_admin,
  price_item, is_demo, is_off, was_declined, done, answer,
}
use guard_pipe.Billing.Renewal.{
  renew_rounds, renew_locked, renew_org, admin_advance_cycle, renew_subscription, pull_forward,
}
use guard_pipe.Billing.Conserved.{
  Conserved, move_tokens-Conserved, add_bucket-Conserved, expire_all-Conserved,
  grant_plan_tokens-Conserved, with_org-Conserved,
}
use guard_pipe.Billing.History.{
  Op, charges, charges_ai, refunds, adjusts, estimates, requires, starts_checkout, gets_checkout,
  confirms, cancels, renews, advances, settled, rows, step, run, no_rows,
}
use guard_pipe.Billing.Audit.Operations.{
  settled-Conserved, rows-Conserved, charge-Conserved, charge_ai-Conserved, refund_job-Conserved,
  admin_adjust-Conserved, estimate-Conserved, require_feature-Conserved, renew_org-Conserved,
  admin_advance_cycle-Conserved, start_checkout-Conserved, get_checkout_for-Conserved,
  set_cancel-Conserved, confirm_demo-Conserved,
}

module _ (cal : Calendar) (mode : Mode) (org : ℕ) where
  -- No operation creates or loses a token that the ledger does not record.
  pub step-Conserved :
      (now : ℕ) (op : Op) (s : Store) → Conserved s → Conserved (step cal mode org now op s)
  unfolding step
  step-Conserved now (charges req) s c =
      settled-Conserved s _ c (charge-Conserved cal org now s c req)
  step-Conserved now (charges_ai actor scan finding action) s c =
      rows-Conserved s _ c (charge_ai-Conserved cal org now s c actor scan finding action)
  step-Conserved now (refunds job) s c =
      settled-Conserved s _ c (refund_job-Conserved cal org now s c job)
  step-Conserved now (adjusts operator delta) s c =
      settled-Conserved s _ c (admin_adjust-Conserved cal org now s c operator delta)
  step-Conserved now (estimates engines preset trigger) s c =
      rows-Conserved s _ c (estimate-Conserved cal org now s c engines preset trigger)
  step-Conserved now (requires feature) s c =
      settled-Conserved s _ c (require_feature-Conserved cal org now s c feature)
  step-Conserved now (starts_checkout provider_ok actor item) s c =
      rows-Conserved s _ c (start_checkout-Conserved cal actor now s c mode provider_ok item)
  step-Conserved now (gets_checkout actor i) s c =
      rows-Conserved s _ c (get_checkout_for-Conserved cal actor now s c i)
  step-Conserved now (confirms actor i outcome) s c =
      confirm_demo-Conserved cal actor now s c mode i outcome
  step-Conserved now (cancels actor cancel) s c =
      settled-Conserved s _ c (set_cancel-Conserved cal actor now s c cancel)
  step-Conserved now renews s c = settled-Conserved s _ c (renew_org-Conserved cal org now s c)
  step-Conserved now advances s c =
      settled-Conserved s _ c (admin_advance_cycle-Conserved cal org now s c mode)

  run_from-Conserved :
      (ops : List (ℕ × Op)) (s : Store) → Conserved s → Conserved (run cal mode org ops s)
  unfolding run
  run_from-Conserved [] s c = c
  run_from-Conserved ((now, op) ∷ rest) s c =
      run_from-Conserved rest (step cal mode org now op s) (step-Conserved now op s c)

  -- After every history of operations of an organisation, at any times and in any order, the
  -- tokens in its buckets (expired buckets included) plus all debits of its ledger are the
  -- ledger's credits.
  pub run-Conserved : (ops : List (ℕ × Op)) → Conserved (run cal mode org ops no_rows)
  run-Conserved ops = run_from-Conserved ops no_rows (unfold no_rows in refl)
