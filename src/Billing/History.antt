-- ===== src/Billing/History.antt =====
-- The operations of internal/modules/billing/service.go that change rows, as one type, and their
-- histories: each is a transaction at a time, and one that fails leaves the rows as they were.
use guard_pipe.Prelude.{ℕ, Bool, List, [], ◌∷◌, Option, none, ℤ}
use guard_pipe.Errors.{Result, ok, err}
use guard_pipe.Domain.Engine.{EngineId, Actor}
use guard_pipe.Domain.Pentest.{PentestPreset}
use guard_pipe.Domain.Scan.{TriggerSource}
use guard_pipe.Billing.Catalog.{AiAction, ItemCode}
use guard_pipe.Billing.Store.{Store}
use guard_pipe.Billing.Tokens.{Calendar}
use guard_pipe.Billing.Charge.{
  ChargeRequest, Feature, charge, charge_ai, refund_job, admin_adjust, estimate, require_feature,
}
use guard_pipe.Billing.Checkout.{
  Mode, Outcome, start_checkout, get_checkout_for, confirm_demo, set_cancel_at_period_end,
}
use guard_pipe.Billing.Renewal.{renew_org, admin_advance_cycle}

pub data Op : Type 0 where
  charges : ChargeRequest → Op
  charges_ai : Option ℕ → ℕ → ℕ → AiAction → Op
  refunds : ℕ → Op
  adjusts : ℕ → ℤ → Op
  estimates : List EngineId → PentestPreset → TriggerSource → Op
  requires : Feature → Op
  starts_checkout : Bool → Actor → ItemCode → Op
  gets_checkout : Actor → ℕ → Op
  confirms : Actor → ℕ → Outcome → Op
  cancels : Actor → Bool → Op
  renews : Op
  advances : Op

-- The rows after a transaction.
abbrev pub settled : Store → Result Store → Store
settled s (ok t) = t
settled s (err e) = s

abbrev pub rows {ℓ} : {A : Type ℓ} → Result (A × Store) → Result Store
rows (ok r) = ok r.1
rows (err e) = err e

module _ (cal : Calendar) (mode : Mode) (org : ℕ) where
  unfoldable pub step : ℕ → Op → Store → Store
  step now (charges req) s = settled s (charge cal org now req s)
  step now (charges_ai actor scan finding action) s =
      settled s (rows (charge_ai cal org now actor scan finding action s))
  step now (refunds job) s = settled s (refund_job cal org now job s)
  step now (adjusts operator delta) s = settled s (admin_adjust cal operator org now delta s)
  step now (estimates engines preset trigger) s =
      settled s (rows (estimate cal org now engines preset trigger s))
  step now (requires feature) s = settled s (require_feature cal org now feature s)
  step now (starts_checkout provider_ok actor item) s =
      settled s (rows (start_checkout cal mode provider_ok actor item now s))
  step now (gets_checkout actor i) s = settled s (rows (get_checkout_for cal actor i now s))
  step now (confirms actor i outcome) s = (confirm_demo cal mode actor i outcome now s).1
  step now (cancels actor cancel) s = settled s (set_cancel_at_period_end cal actor cancel now s)
  step now renews s = settled s (renew_org cal org now s)
  step now advances s = settled s (admin_advance_cycle cal mode org now s)

  unfoldable pub run : List (ℕ × Op) → Store → Store
  run [] s = s
  run ((now, op) ∷ ops) s = run ops (step now op s)

-- An organisation that billing has never seen.
unfoldable pub no_rows : Store
no_rows = record { subscription = none; buckets = []; ledger = []; checkouts = []; next_id = 1 }
