-- ===== src/Billing/Renewal.antt =====
-- internal/modules/billing/service.go, renewal: `renewLocked`, the body of `RenewDue` at one
-- organisation, and `AdminAdvanceCycle`. The loop makes thirteen rounds at most.
use guard_pipe.Prelude.{
  ℕ, zero, suc, ◌+◌, ◌-◌, ◌/◌, Bool, true, false, ◌&&◌, not, if◌then◌else◌, leb,
}
use guard_pipe.Errors.{Result, ok, ◌>>=◌, ◌>>◌, fail_with, refuse_if, not_found}
use guard_pipe.Billing.Catalog.{free, plan_eq}
use guard_pipe.Billing.Store.{
  Store, Subscription, active, update_subscription, grant_monthly, expired_buckets,
}
use guard_pipe.Billing.Tokens.{Calendar, expire_all, grant_plan_tokens, plan_of, with_org}
use guard_pipe.Billing.Checkout.{period_end, Mode, is_demo}

-- A paid plan whose period has ended is renewed in a demonstration, and falls back to Free
-- otherwise.
unfoldable pub end_paid_period : Calendar → Bool → Subscription → Subscription
end_paid_period cal demo_renew sub =
    if not (plan_eq sub.plan_code free) && leb sub.period_end sub.next_grant_at
    then if demo_renew && not sub.cancel_at_period_end
      then record sub {
        period_start = sub.period_end;
        period_end = period_end cal sub.period_end (plan_of sub).period;
      }
      else record sub {
        plan_code = free;
        status = active;
        cancel_at_period_end = false;
        period_start = sub.next_grant_at;
        period_end = cal.add_months sub.next_grant_at 1;
      }
    else sub

-- A free period that is over is followed by the next one.
unfoldable pub roll_free_period : Calendar → Subscription → Subscription
roll_free_period cal sub =
    if plan_eq sub.plan_code free && leb sub.period_end sub.next_grant_at
    then record sub {
      period_start = sub.next_grant_at;
      period_end = cal.add_months sub.next_grant_at 1;
    }
    else sub

-- `NextGrantAt.Unix()`
abbrev pub unix : ℕ → ℕ
unix t = t / 1_000_000_000

-- One round: the period, the next due time, and the grant of the round.
unfoldable pub renew_subscription : Calendar → Bool → Subscription → Subscription
renew_subscription cal demo_renew sub =
    let sub' = roll_free_period cal (end_paid_period cal demo_renew sub) in
    record sub' { next_grant_at = cal.add_months sub'.next_grant_at 1 }

unfoldable pub renew_rounds :
    Calendar → Bool → ℕ → ℕ → Subscription → Store → Result (Subscription × Store)
renew_rounds cal demo_renew now zero sub s = ok (sub, s)
renew_rounds cal demo_renew now (suc rounds) sub s = elim (leb sub.next_grant_at now) [
  | false ↦ ok (sub, s)
  | true ↦
      let next = renew_subscription cal demo_renew sub in
      let key = grant_monthly sub.org_id (unix sub.next_grant_at) in
      grant_plan_tokens cal next now key (update_subscription next s) >>= λ t.
      renew_rounds cal demo_renew now rounds next t
]

unfoldable pub renew_locked : Calendar → Bool → ℕ → Subscription → Store → Result Store
renew_locked cal demo_renew now sub s = do
  r ← renew_rounds cal demo_renew now 13 sub s
  expire_all now (expired_buckets now r.1) r.1

-- `RenewDue` at one organisation that is due.
unfoldable pub renew_org : Calendar → ℕ → ℕ → Store → Result Store
renew_org cal org now s = with_org cal org now (renew_locked cal false now) s

-- `sub.PeriodEnd.Add(-shift)`, for the signed shift `next - now`.
abbrev shift_end : ℕ → ℕ → ℕ → ℕ
shift_end t next now = if leb now next then t - (next - now) else t + (now - next)

-- The next grant is made due now, with the paid period moved along.
unfoldable pub pull_forward : ℕ → Subscription → Subscription
pull_forward now sub = record sub {
  next_grant_at = now;
  period_end =
      if plan_eq sub.plan_code free
      then sub.period_end
      else shift_end sub.period_end sub.next_grant_at now;
}

unfoldable pub admin_advance_cycle : Calendar → Mode → ℕ → ℕ → Store → Result Store
admin_advance_cycle cal mode org now s = do
  refuse_if (not (is_demo mode)) (fail_with not_found "billing.not_found")
  with_org cal org now (λ sub t. renew_locked cal true now (pull_forward now sub) t) s
