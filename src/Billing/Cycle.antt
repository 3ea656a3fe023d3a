-- ===== src/Billing/Cycle.antt =====
-- internal/modules/billing/service.go, `renewLocked`: the rounds of a renewal.
use guard_pipe.Prelude.{
  ℕ, zero, suc, ◌+◌, ◌*◌, ◌≤◌, ◌<◌, ◌≡◌, refl, inl, inr, Bool, false, not, ◌&&◌, arith, leb,
  if◌then◌else◌, Bool-cases,
}
use guard_pipe.Errors.{ok}
use guard_pipe.Billing.Catalog.{free, plan_eq}
use guard_pipe.Billing.Store.{Store, Subscription, update_subscription, grant_monthly}
use guard_pipe.Billing.Tokens.{Calendar}
use guard_pipe.Billing.Renewal.{
  unix, end_paid_period, roll_free_period, renew_subscription, renew_rounds,
}
use guard_pipe.Billing.Granted.{IsKeyed, grant_plan_tokens-Succeeds}

renew_subscription-advances :
    (cal : Calendar) (demo : Bool) (sub : Subscription)
    → (renew_subscription cal demo sub).next_grant_at ≡ cal.add_months sub.next_grant_at 1
unfolding renew_subscription roll_free_period end_paid_period
renew_subscription-advances cal demo sub = ground arith

module _ (cal : Calendar) (demo : Bool) (now step : ℕ)
    (advance : (t : ℕ) → t + step ≤ cal.add_months t 1) where
  -- The rounds of a renewal succeed, and end with the next grant in the future, when the time of the
  -- first missed grant plus one step for each round is past now, a step being a length that every month
  -- has at least, and the buckets have different identifiers, all below the next one to be given.
  pub renew_rounds-caught_up :
      (rounds : ℕ) (sub : Subscription) (s : Store)
      → now < sub.next_grant_at + rounds * step
      → IsKeyed s
      → (r : Subscription × Store) × (renew_rounds cal demo now rounds sub s ≡ ok r)
        × (now < r.0.next_grant_at)
  unfolding renew_rounds update_subscription
  renew_rounds-caught_up zero sub s h keyed = ((sub, s), refl, omega (arith, h))
  renew_rounds-caught_up (suc n) sub s h keyed = elim (Bool-cases (leb sub.next_grant_at now)) [
    | inr future ↦ ((sub, s), rw (future, renew_rounds) refl, ground (arith, future))
    | inl due ↦
        let next = renew_subscription cal demo sub in
        let (t, granted, after) =
          grant_plan_tokens-Succeeds cal next now
            (grant_monthly sub.org_id (unix sub.next_grant_at)) (update_subscription next s)
            keyed in
        let (r, rest, ahead) =
          renew_rounds-caught_up n next t
            (omega (arith, h, renew_subscription-advances cal demo sub, advance sub.next_grant_at))
            after in
        (r, rw (due, renew_rounds, granted) rest, ahead)
  ]

-- One round of a renewal changes the plan in one case only: a paid plan whose period is over by
-- the due time falls back to Free, unless a demonstration renews it and it was not cancelled; the
-- plan it had is kept in every other case, and a plan that fell back is no longer cancelling.
pub renew_subscription-falls_back :
    (cal : Calendar) (demo : Bool) (sub : Subscription)
    → let over = not (plan_eq sub.plan_code free) && leb sub.period_end sub.next_grant_at in
      let falls = over && not (demo && not sub.cancel_at_period_end) in
      let next = renew_subscription cal demo sub in
      (next.plan_code ≡ (if falls then free else sub.plan_code))
      × (next.cancel_at_period_end ≡ (if falls then false else sub.cancel_at_period_end))
unfolding renew_subscription roll_free_period end_paid_period
renew_subscription-falls_back cal demo sub = ground arith
