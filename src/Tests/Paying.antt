-- ===== src/Tests/Paying.antt =====
-- internal/modules/billing/service.go at concrete inputs: paying a checkout and renewing.
use guard_pipe.Prelude.{ℕ, ◌+◌, ◌≡◌, ◌<◌, ◌≤◌, refl, true, false, [], ◌∷◌, some, none, arith}
use guard_pipe.Errors.{ok}
use guard_pipe.Domain.Engine.{Actor, admin, is_admin}
use guard_pipe.Billing.Catalog.{topup_100k, packs}
use guard_pipe.Billing.Store.{
  Store, CheckoutSession, pending, paid, set_status, set_checkout_status, get_checkout,
  ledger_key_exists, key_eq, expire_key, grant_monthly, plan_grant_buckets, sort_by_expiry,
  insert_by_expiry, insert_bucket, insert_ledger,
}
use guard_pipe.Billing.Tokens.{add_bucket, with_org, grant_plan_tokens, plan_of}
use guard_pipe.Billing.Checkout.{
  demo, success, declined, confirm_demo, confirm_on, confirm_session, fulfil, deliver, start_pack,
  require_billing_admin, require_org_billing, is_paid,
}
use guard_pipe.Billing.Renewal.{renew_rounds}
use guard_pipe.Billing.Paid.{confirm-twice}
use guard_pipe.Billing.Store.{Subscription, Store}
use guard_pipe.Billing.Granted.{IsKeyed}
use guard_pipe.Billing.Cycle.{renew_rounds-caught_up}
use guard_pipe.Billing.Replaced.{granted, NotExpired, grant_plan_tokens-replaces}
use guard_pipe.Tests.Charging.{plain_calendar, pro, two_buckets}

abbrev owner : Actor
owner = record { user_id = 3; org_id = 1; role = admin; project_id = none }

abbrev session : CheckoutSession
session = record {
  id = 20;
  created_by = 3;
  item_code = topup_100k;
  amount_cents = 900;
  status = pending;
  paid_at = none;
  expires_at = 400;
}

abbrev with_session : Store
with_session = record two_buckets { checkouts = session ∷ [] }

abbrev paid_session : CheckoutSession
paid_session = record session { status = paid; paid_at = some 100 }

session_paid :
    (confirm_demo plain_calendar demo owner 20 success 100 with_session).0 ≡ ok paid_session
unfolding confirm_demo confirm_on confirm_session fulfil deliver start_pack packs
    require_billing_admin require_org_billing is_admin with_org get_checkout set_checkout_status
    set_status add_bucket ledger_key_exists key_eq insert_bucket insert_ledger
session_paid = refl

confirm-twice_example :
    let t = (confirm_demo plain_calendar demo owner 20 success 100 with_session).1 in
    (is_paid paid_session.status ≡ true)
    × (confirm_demo plain_calendar demo owner 20 declined 500 t ≡ (ok paid_session, t))
confirm-twice_example =
    confirm-twice plain_calendar demo owner 20 success declined 100 500 pro with_session
      paid_session refl session_paid

a_month_at_least : (t : ℕ) → t + 2_592_000_000_000_000 ≤ plain_calendar.add_months t 1
a_month_at_least t = omega arith

-- Half a year after the first missed grant.
two_buckets-IsKeyed : IsKeyed two_buckets
two_buckets-IsKeyed = (((refl, tt), (tt, tt)), (omega arith, (omega arith, tt)))

renew_rounds-caught_up_example :
    (r : Subscription × Store) × (renew_rounds plain_calendar false 15_552_000_000_000_000 13 pro
        two_buckets
      ≡ ok r)
    × (15_552_000_000_000_000 < r.0.next_grant_at)
renew_rounds-caught_up_example =
    renew_rounds-caught_up plain_calendar false 15_552_000_000_000_000 2_592_000_000_000_000
      a_month_at_least 13 pro two_buckets (omega arith) two_buckets-IsKeyed

nothing_expired : NotExpired 900 two_buckets.ledger (plan_grant_buckets two_buckets)
unfolding plan_grant_buckets sort_by_expiry insert_by_expiry ledger_key_exists
nothing_expired = (refl, tt)

other_kind : (b : ℕ) → key_eq (expire_key b 900) (grant_monthly 1 900) ≡ false
unfolding key_eq
other_kind b = refl

new_grant : ledger_key_exists (grant_monthly 1 900) two_buckets.ledger ≡ false
unfolding ledger_key_exists
new_grant = refl

-- The eight thousand tokens that are left of the plan's grant give way to the new ones.
grant_plan_tokens-replaces_example :
    (s' : Store) × (grant_plan_tokens plain_calendar pro 900 (grant_monthly 1 900) two_buckets
      ≡ ok s')
    × (granted s'.buckets ≡ (plan_of pro).monthly_grant)
grant_plan_tokens-replaces_example =
    grant_plan_tokens-replaces plain_calendar pro 900 (grant_monthly 1 900) two_buckets other_kind
      ((refl, tt), (tt, tt)) nothing_expired new_grant
