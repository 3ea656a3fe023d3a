-- ===== src/Tests/Charging.antt =====
-- internal/modules/billing/service.go at concrete inputs: charging, refunding, and a history.
use guard_pipe.Prelude.{
  ℕ, ◌+◌, ◌*◌, ◌≤◌, ◌≡◌, refl, false, List, [], ◌∷◌, some, none, inr, arith, pos, negsuc, ◌-◌,
}
use guard_pipe.Errors.{ok}
use guard_pipe.Domain.Engine.{EngineId, codescan, docreview, engine_eq, contains_engine}
use guard_pipe.Domain.Pentest.{standard}
use guard_pipe.Domain.Scan.{manual}
use guard_pipe.Billing.Catalog.{
  pro_monthly, plans, allows, explain, engine_price, is_live_trigger, price_version,
}
use guard_pipe.Billing.Pricing.{Quote, quote_scan, quote_line, full_price}
use guard_pipe.Billing.Store.{
  Store, Subscription, active, Bucket, plan_grant, topup, balance, debits_for_job,
  ledger_key_exists, key_eq, LedgerEntry, debit, debit_key, refund, refund_key, spendable_buckets,
  sort_by_expiry, insert_by_expiry, update_bucket, change_remaining, add_to_bucket, insert_ledger,
}
use guard_pipe.Billing.Tokens.{Calendar, plan_of, with_org, move_tokens}
use guard_pipe.Billing.Charge.{
  ChargeRequest, charge, charge_on, charge_lines, spend, already_charged, blocked_engines,
  estimate_on, refund_job, refund_debits,
}
use guard_pipe.Billing.Checkout.{demo}
use guard_pipe.Billing.History.{charges, charges_ai, refunds, adjusts, renews, run, no_rows}
use guard_pipe.Billing.Conserved.{Conserved, held}
use guard_pipe.Billing.Audit.{run-Conserved}
use guard_pipe.Billing.Spend.{job_debits}
use guard_pipe.Billing.Exact.{ChargedExactly, charge-exact}
use guard_pipe.Billing.Retry.{Agrees, charge-estimate, charge-twice}
use guard_pipe.Billing.Refunds.{refund-twice, refund-exact}

-- Months of thirty days.
abbrev pub plain_calendar : Calendar
plain_calendar = record {
  add_months = λ t n. t + n * 2_592_000_000_000_000;
  add_year = λ t. t + 31_536_000_000_000_000;
}

abbrev pub pro : Subscription
pro = record {
  org_id = 1;
  plan_code = pro_monthly;
  status = active;
  period_start = 0;
  period_end = 1000;
  next_grant_at = 1000;
  cancel_at_period_end = false;
}

-- Eight thousand tokens that expire first, and a topup.
abbrev pub two_buckets : Store
two_buckets = record {
  subscription = some pro;
  buckets =
      record {
        id = 1;
        org_id = 1;
        source = topup;
        amount = 100_000;
        remaining = 100_000;
        expires_at = 5000;
        checkout_id = some 9;
      }
      ∷ record {
        id = 2;
        org_id = 1;
        source = plan_grant;
        amount = 500_000;
        remaining = 8_000;
        expires_at = 1000;
        checkout_id = none;
      }
      ∷ [];
  ledger = [];
  checkouts = [];
  next_id = 10;
}

abbrev request : ChargeRequest
request = record {
  scan_id = 5;
  lines = record { job_id = 6; engine = codescan } ∷ record { job_id = 7; engine = docreview } ∷ [];
  preset = standard;
  trigger = manual;
  actor_id = some 3;
}

abbrev price : Quote
price = record {
  lines =
      record { engine = codescan; tokens = 5_000; full_tokens = 5_000 }
      ∷ record { engine = docreview; tokens = 6_000; full_tokens = 6_000 }
      ∷ [];
  total = 11_000;
  live_discount = false;
  version = price_version;
}

price_of_request : quote_scan (codescan ∷ docreview ∷ []) standard manual ≡ some price
unfolding quote_scan quote_line engine_price is_live_trigger full_price engine_eq
price_of_request = refl

all_allowed : blocked_engines (plan_of pro) (codescan ∷ docreview ∷ []) ≡ []
unfolding blocked_engines plan_of plans allows contains_engine engine_eq
all_allowed = refl

not_yet : already_charged request.lines two_buckets ≡ false
unfolding already_charged debits_for_job
not_yet = refl

enough : price.total ≤ balance 100 two_buckets.buckets
unfolding balance
enough = omega arith

charge-exact_example :
    (s' : Store) × (charge plain_calendar 1 100 request two_buckets ≡ ok s')
    × ChargedExactly 100 request.lines price.lines two_buckets s'
charge-exact_example =
    charge-exact plain_calendar 1 100 request price pro two_buckets refl price_of_request
      all_allowed not_yet enough ((refl, tt), (tt, tt)) (tt, (refl, tt), (tt, tt, tt))

charge-estimate_example :
    Agrees 100
      (estimate_on 100 price (codescan ∷ docreview ∷ []) pro two_buckets)
      two_buckets
      (charge plain_calendar 1 100 request two_buckets)
charge-estimate_example =
    charge-estimate plain_calendar 1 100 request price pro two_buckets refl price_of_request refl
      not_yet ((refl, tt), (tt, tt)) (tt, (refl, tt), (tt, tt, tt))

run-Conserved_example : Conserved (
    run plain_calendar demo 1
      ((10, charges request)
        ∷ (20, charges_ai (some 3) 5 8 explain)
        ∷ (30, refunds 6)
        ∷ (40, adjusts 2 (negsuc 99))
        ∷ (50, renews)
        ∷ [])
      no_rows)
run-Conserved_example = run-Conserved plain_calendar demo 1 _

-- After the request: the early bucket is empty, the topup paid the rest.
abbrev debit_of : ℕ → ℕ → ℕ → ℕ → EngineId → ℕ → ℕ → LedgerEntry
debit_of i job bucket tokens e left now = record {
  id = i;
  kind = debit;
  delta = negsuc (tokens - 1);
  balance_after = left;
  bucket_id = some bucket;
  scan_id = some 5;
  scan_job_id = some job;
  engine = some e;
  actor_user_id = some 3;
  key = debit_key job bucket;
}

abbrev paid_buckets : List Bucket
paid_buckets =
    record {
      id = 1;
      org_id = 1;
      source = topup;
      amount = 100_000;
      remaining = 97_000;
      expires_at = 5000;
      checkout_id = some 9;
    }
    ∷ record {
      id = 2;
      org_id = 1;
      source = plan_grant;
      amount = 500_000;
      remaining = 0;
      expires_at = 1000;
      checkout_id = none;
    }
    ∷ []

abbrev after_request : Store
after_request = record two_buckets {
  buckets = paid_buckets;
  ledger =
      debit_of 10 6 2 5_000 codescan 103_000 100
      ∷ debit_of 11 7 2 3_000 docreview 100_000 100
      ∷ debit_of 12 7 1 3_000 docreview 97_000 100
      ∷ [];
  next_id = 13;
}

request_charged : charge plain_calendar 1 100 request two_buckets ≡ ok after_request
unfolding charge charge_on charge_lines spend with_org move_tokens add_to_bucket update_bucket
    change_remaining insert_ledger ledger_key_exists key_eq spendable_buckets sort_by_expiry
    insert_by_expiry balance debits_for_job already_charged blocked_engines plan_of plans allows
    contains_engine engine_eq quote_scan quote_line engine_price is_live_trigger full_price
request_charged = refl

charge-twice_example : charge plain_calendar 1 900 request after_request ≡ ok after_request
charge-twice_example =
    charge-twice plain_calendar 1 100 900 request price pro two_buckets after_request refl
      price_of_request refl ((refl, tt), (tt, tt)) (inr (tt, (refl, tt), (tt, tt, tt)))
      request_charged

-- After the refund of job 7: three thousand tokens are back in each bucket.
abbrev refund_of_7 : ℕ → ℕ → ℕ → LedgerEntry
refund_of_7 i bucket left = record {
  id = i;
  kind = refund;
  delta = pos 3_000;
  balance_after = left;
  bucket_id = some bucket;
  scan_id = some 5;
  scan_job_id = some 7;
  engine = some docreview;
  actor_user_id = none;
  key = refund_key 7 bucket;
}

abbrev refunded_buckets : List Bucket
refunded_buckets =
    record {
      id = 1;
      org_id = 1;
      source = topup;
      amount = 100_000;
      remaining = 100_000;
      expires_at = 5000;
      checkout_id = some 9;
    }
    ∷ record {
      id = 2;
      org_id = 1;
      source = plan_grant;
      amount = 500_000;
      remaining = 3_000;
      expires_at = 1000;
      checkout_id = none;
    }
    ∷ []

abbrev after_refund : Store
after_refund = record after_request {
  buckets = refunded_buckets;
  ledger =
      debit_of 10 6 2 5_000 codescan 103_000 100
      ∷ debit_of 11 7 2 3_000 docreview 100_000 100
      ∷ debit_of 12 7 1 3_000 docreview 97_000 100
      ∷ refund_of_7 13 2 100_000
      ∷ refund_of_7 14 1 103_000
      ∷ [];
  next_id = 15;
}

job_refunded : refund_job plain_calendar 1 200 7 after_request ≡ ok after_refund
unfolding refund_job refund_debits with_org move_tokens add_to_bucket update_bucket change_remaining
    insert_ledger ledger_key_exists key_eq balance debits_for_job
job_refunded = refl

refund-twice_example : refund_job plain_calendar 1 300 7 after_refund ≡ ok after_refund
refund-twice_example =
    refund-twice plain_calendar 1 200 300 7 pro after_request after_refund refl job_refunded

no_key : (b : ℕ) → ledger_key_exists (refund_key 7 b) after_request.ledger ≡ false
unfolding ledger_key_exists key_eq
no_key b = refl

refund-exact_example :
    held after_refund.buckets ≡ held after_request.buckets + job_debits 7 after_request.ledger
unfolding debits_for_job
refund-exact_example =
    refund-exact plain_calendar 1 200 7 pro after_request after_refund refl (refl, (refl, tt))
      (2, refl, no_key 2, (refl, tt), (1, refl, no_key 1, tt, tt)) job_refunded
