-- ===== src/Billing/Checkout.antt =====
-- internal/modules/billing/service.go, buying: `StartCheckout`, `GetCheckout`, `ConfirmDemo`,
-- `fulfil` and `SetCancelAtPeriodEnd`.
use guard_pipe.Prelude.{
  ℕ, suc, ◌+◌, ◌-◌, ◌*◌, ◌/◌, Bool, true, false, ◌&&◌, not, Option, none, some, if◌then◌else◌, ltb,
  leb, is_some,
}
use guard_pipe.Errors.{
  Result, ok, err, ◌>>=◌, ◌>>◌, fail_with, refuse_if, forbidden, not_found, conflict, validation,
  external, payment_required,
}
use guard_pipe.Domain.Engine.{Actor, is_admin}
use guard_pipe.Billing.Catalog.{
  PlanCode, free, pro_monthly, pro_annual, plan_eq, plans, Pack, packs, ItemCode, plan_item, Period,
  month, year, checkout_ttl, topup_validity,
}
use guard_pipe.Billing.Store.{
  Store, Subscription, Bucket, SubStatus, active, CheckoutSession, CheckoutStatus, pending, paid,
  failed, expired_checkout, get_checkout, insert_checkout, set_checkout_status, update_subscription,
  topup, grant_purchase, topup_key, topup_kind,
}
use guard_pipe.Billing.Tokens.{Calendar, add_bucket, entry, grant_plan_tokens, plan_of, with_org}

pub data Mode : Type 0 where
  demo stripe off : Mode

abbrev pub is_off : Mode → Bool
is_off off = true
is_off _ = false

abbrev pub is_demo : Mode → Bool
is_demo demo = true
is_demo _ = false

unfoldable pub require_org_billing : Actor → Result (Unit {0})
require_org_billing a =
    refuse_if (is_some a.project_id) (fail_with forbidden "billing.not_available")

unfoldable pub require_billing_admin : Actor → Result (Unit {0})
unfolding require_org_billing is_admin
require_billing_admin a = do
  require_org_billing a
  refuse_if (not (is_admin a.role)) (fail_with forbidden "billing.admin_required")

abbrev pub is_active : SubStatus → Bool
is_active active = true
is_active _ = false

-- `periodEnd`
unfoldable pub period_end : Calendar → ℕ → Period → ℕ
period_end cal start year = cal.add_year start
period_end cal start month = cal.add_months start 1

-- Whether the subscription is active and its period is not over.
abbrev pub is_running : Subscription → ℕ → Bool
is_running sub now = is_active sub.status && ltb now sub.period_end

price_plan : PlanCode → Subscription → ℕ → Result ℕ
unfolding plan_eq plans
price_plan code sub now = do
  refuse_if (plan_eq code free) (fail_with validation "billing.invalid_item")
  refuse_if (is_running sub now && plan_eq sub.plan_code code)
      (fail_with conflict "billing.already_subscribed")
  refuse_if (is_running sub now && plan_eq sub.plan_code pro_annual && plan_eq code pro_monthly)
      (fail_with conflict "billing.already_subscribed")
  ok (plans code).price_cents

price_pack : Option Pack → Subscription → Result ℕ
unfolding plan_of
price_pack none sub = err (fail_with validation "billing.invalid_item")
price_pack (some pack) sub =
    let d = (plan_of sub).topup_discount in
    ok (if ltb 0 d then pack.price_cents * (100 - d) / 100 else pack.price_cents)

-- `priceItem`
unfoldable pub price_item : ItemCode → Subscription → ℕ → Result ℕ
unfolding price_plan price_pack packs
price_item (plan_item code) sub now = price_plan code sub now
price_item item sub now = price_pack (packs item) sub

-- The body of `StartCheckout`. `provider_ok` is whether the payment provider opened a session.
unfoldable pub start_on :
    Bool → Actor → ItemCode → ℕ → Subscription → Store → Result (CheckoutSession × Store)
start_on provider_ok actor item now sub s = do
  amount ← price_item item sub now
  let sess : CheckoutSession = record {
    id = s.next_id;
    created_by = actor.user_id;
    item_code = item;
    amount_cents = amount;
    status = pending;
    paid_at = none;
    expires_at = now + checkout_ttl;
  }
  refuse_if (not provider_ok) (fail_with external "billing.provider_error")
  ok (sess, insert_checkout sess (record s { next_id = suc s.next_id }))

unfoldable pub start_checkout :
    Calendar → Mode → Bool → Actor → ItemCode → ℕ → Store → Result (CheckoutSession × Store)
start_checkout cal mode provider_ok actor item now s = do
  require_billing_admin actor
  refuse_if (is_off mode) (fail_with not_found "billing.disabled")
  with_org cal actor.org_id now (start_on provider_ok actor item now) s

abbrev pub is_pending : CheckoutStatus → Bool
is_pending pending = true
is_pending _ = false

abbrev pub is_paid : CheckoutStatus → Bool
is_paid paid = true
is_paid _ = false

-- The body of the service's `GetCheckout`: an overdue session is closed.
unfoldable pub read_checkout : ℕ → ℕ → Store → Result (CheckoutSession × Store)
read_checkout i now s = do
  c ← get_checkout i s
  ok (
      if is_pending c.status && leb c.expires_at now
      then (record c { status = expired_checkout }, set_checkout_status i expired_checkout none s)
      else (c, s))

unfoldable pub get_checkout_for :
    Calendar → Actor → ℕ → ℕ → Store → Result (CheckoutSession × Store)
get_checkout_for cal actor i now s = do
  require_billing_admin actor
  with_org cal actor.org_id now (λ _ t. read_checkout i now t) s

-- A paid plan starts a new period with a fresh grant.
unfoldable pub start_plan : Calendar → PlanCode → ℕ → ℕ → Subscription → Store → Result Store
start_plan cal code sess now sub s =
    let sub' = record sub {
      plan_code = code;
      status = active;
      period_start = now;
      period_end = period_end cal now (plans code).period;
      next_grant_at = cal.add_months now 1;
      cancel_at_period_end = false;
    } in
    grant_plan_tokens cal sub' now (grant_purchase sess) (update_subscription sub' s)

-- A paid pack adds a bucket of its own.
unfoldable pub start_pack : Option Pack → ℕ → ℕ → Subscription → Store → Result Store
start_pack none sess now sub s = ok s
start_pack (some pack) sess now sub s =
    let b : Bucket = record {
      id = 0;
      org_id = sub.org_id;
      source = topup;
      amount = pack.tokens;
      remaining = 0;
      expires_at = now + topup_validity;
      checkout_id = some sess;
    } in
    add_bucket now b (entry topup_kind (topup_key sess)) s

-- What a paid item brings.
unfoldable pub deliver : Calendar → ItemCode → ℕ → ℕ → Subscription → Store → Result Store
deliver cal (plan_item code) sess now sub s = start_plan cal code sess now sub s
deliver cal item sess now sub s = start_pack (packs item) sess now sub s

-- `fulfil`, without its audit row.
unfoldable pub fulfil : Calendar → CheckoutSession → ℕ → Subscription → Store → Result Store
fulfil cal sess now sub s =
    deliver cal sess.item_code sess.id now sub (set_checkout_status sess.id paid (some now) s)

pub data Outcome : Type 0 where
  success declined : Outcome

pub data Confirmed : Type 0 where
  -- paid now, or paid before
  done : CheckoutSession → Confirmed
  -- the card was refused: the session is closed, and the caller gets a payment error
  was_declined : Confirmed

-- The cases of `ConfirmDemo` at the session found. An overdue session is marked expired, but the
-- error that follows rolls that mark back.
unfoldable pub confirm_session :
    Calendar → CheckoutSession → Outcome → ℕ → Subscription → Store → Result (Confirmed × Store)
confirm_session cal c outcome now sub s =
    if is_paid c.status
    then ok (done c, s)
    else if not (is_pending c.status)
    then err (fail_with conflict "billing.checkout_closed")
    else if leb c.expires_at now
    then err (fail_with conflict "billing.checkout_expired")
    else elim outcome [
      | declined ↦ ok (was_declined, set_checkout_status c.id failed none s)
      | success ↦ fulfil cal c now sub s >>= λ t.
          ok (done (record c { status = paid; paid_at = some now }), t)
    ]

unfoldable pub confirm_on :
    Calendar → ℕ → Outcome → ℕ → Subscription → Store → Result (Confirmed × Store)
confirm_on cal i outcome now sub s = do
  c ← get_checkout i s
  confirm_session cal c outcome now sub s

-- What the caller of `ConfirmDemo` gets, beside the rows that the transaction leaves.
abbrev pub answer : Confirmed × Store → Result CheckoutSession × Store
answer (done c, s) = (ok c, s)
answer (was_declined, s) = (err (fail_with payment_required "billing.payment_declined"), s)

-- A transaction that fails leaves the rows as they were.
abbrev pub commit {ℓ} : {A : Type ℓ} → Store → Result (A × Store) → Result A × Store
commit s (ok (a, t)) = (ok a, t)
commit s (err e) = (err e, s)

abbrev pub settle : Store → Result (Confirmed × Store) → Result CheckoutSession × Store
settle s (ok r) = answer r
settle s (err e) = (err e, s)

unfoldable pub confirm_demo :
    Calendar → Mode → Actor → ℕ → Outcome → ℕ → Store → Result CheckoutSession × Store
confirm_demo cal mode actor i outcome now s = settle s do
  refuse_if (not (is_demo mode)) (fail_with not_found "billing.checkout_not_found")
  require_billing_admin actor
  with_org cal actor.org_id now (confirm_on cal i outcome now) s

-- The body of `SetCancelAtPeriodEnd`.
unfoldable pub set_cancel_on : Bool → Subscription → Store → Result Store
set_cancel_on cancel sub s = do
  refuse_if (plan_eq sub.plan_code free) (fail_with conflict "billing.nothing_to_cancel")
  ok (update_subscription (record sub { cancel_at_period_end = cancel }) s)

unfoldable pub set_cancel_at_period_end : Calendar → Actor → Bool → ℕ → Store → Result Store
set_cancel_at_period_end cal actor cancel now s = do
  require_billing_admin actor
  with_org cal actor.org_id now (set_cancel_on cancel) s
