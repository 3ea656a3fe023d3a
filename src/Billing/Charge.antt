-- ===== src/Billing/Charge.antt =====
-- internal/modules/billing/service.go: plan gates, estimates, charges, refunds and operator
-- adjustments. Each operation is a transaction on the organisation's rows: it returns the new
-- rows, or an error and no change.
use guard_pipe.Prelude.{
  ℕ, suc, ◌+◌, ◌-◌, ◌*◌, ◌/◌, min, Bool, true, false, not, List, [], ◌∷◌, map, Option, none, some,
  if◌then◌else◌, ltb, leb, ◌==◌, keep, sum_of, ℤ, pos, negsuc, neg, sub_ℕ, String,
}
use guard_pipe.Errors.{
  Result, ok, err, ◌>>=◌, ◌>>◌, internal_error, fail_with, refuse_if, forbidden, payment_required,
  validation, AppError,
}
use guard_pipe.Domain.Engine.{EngineId}
use guard_pipe.Domain.Pentest.{PentestPreset}
use guard_pipe.Domain.Scan.{TriggerSource}
use guard_pipe.Billing.Catalog.{Plan, allows, AiAction, ai_price, topup_validity}
use guard_pipe.Billing.Pricing.{Quote, QuoteLine, quote_scan}
use guard_pipe.Billing.Store.{
  Store, Subscription, Bucket, LedgerEntry, Key, adjustment, debit, refund, adjust, debit_key,
  refund_key, ai_key, ai_more_key, adjust_key, adjust_take_key, spendable_buckets, balance,
  debits_for_job, ledger_key_exists,
}
use guard_pipe.Billing.Tokens.{Calendar, entry, add_bucket, move_tokens, plan_of, with_org}

-- `blockedEngines`
unfoldable pub blocked_engines : Plan → List EngineId → List EngineId
blocked_engines plan es = keep (λ e. not (allows plan e)) es

-- `AllowedEngines`
unfoldable pub allowed_engines : Plan → List EngineId → List EngineId
allowed_engines plan es = keep (allows plan) es

pub data Feature : Type 0 where
  live_scanning schedules : Feature
  other_feature : String → Feature

unfoldable pub has_feature : Plan → Feature → Bool
has_feature p live_scanning = p.live_scanning
has_feature p schedules = p.schedules
has_feature p (other_feature _) = false

abbrev pub plan_required : AppError
plan_required = fail_with forbidden "billing.plan_required"

-- `RequireFeature`: only the provisioning of a new organisation can change a row.
unfoldable pub require_feature : Calendar → ℕ → ℕ → Feature → Store → Result Store
require_feature cal org now feature =
    with_org cal org now
      λ sub s. if has_feature (plan_of sub) feature then ok s else err plan_required

abbrev pub is_empty {ℓ} : {A : Type ℓ} → List A → Bool
is_empty [] = true
is_empty (_ ∷ _) = false

pub record Estimate : Type 0 where
  pub quote : Quote
  pub balance : ℕ
  pub balance_after : ℤ
  pub affordable : Bool
  pub plan_allowed : Bool
  pub blocked : List EngineId

-- The body of `Estimate` on the locked rows.
unfoldable pub estimate_on : ℕ → Quote → List EngineId → Subscription → Store → Estimate
estimate_on now q engines sub s =
    let bal = balance now s.buckets in
    record {
      quote = q;
      balance = bal;
      balance_after = sub_ℕ bal q.total;
      affordable = leb q.total bal;
      plan_allowed = is_empty (blocked_engines (plan_of sub) engines);
      blocked = blocked_engines (plan_of sub) engines;
    }

unfoldable pub estimate :
    Calendar
    → ℕ
    → ℕ
    → List EngineId
    → PentestPreset
    → TriggerSource
    → Store
    → Result (Estimate × Store)
estimate cal org now engines preset trigger s = elim (quote_scan engines preset trigger) [
  | none ↦ err (fail_with validation "billing.invalid_engines")
  | some q ↦ with_org cal org now (λ sub t. ok (estimate_on now q engines sub t, t)) s
]

pub data LiveAnswer : Type 0 where
  live_allowed live_plan_required live_insufficient : LiveAnswer

-- The body of `LiveScanAllowed`: the balance after the scan stays at or above the floor. The
-- difference is signed in the source, so it is compared as a sum here.
unfoldable pub live_scan_on : ℕ → Quote → ℕ → Subscription → Store → LiveAnswer
live_scan_on now q floor_percent sub s =
    let floor = (plan_of sub).monthly_grant * floor_percent / 100 in
    if not (plan_of sub).live_scanning
    then live_plan_required
    else if ltb (balance now s.buckets) (floor + q.total)
    then live_insufficient
    else live_allowed

pub record ChargeLine : Type 0 where
  pub job_id : ℕ
  pub engine : EngineId

pub record ChargeRequest : Type 0 where
  pub scan_id : ℕ
  pub lines : List ChargeLine
  pub preset : PentestPreset
  pub trigger : TriggerSource
  pub actor_id : Option ℕ

-- The loop over the buckets, soonest-expiring first: each gives what it has until nothing is
-- owed. `row` is the ledger row of one take, from the bucket's index and what is still owed. The
-- local copies of the buckets are returned with what they have left. (`AdminAdjust` has no test
-- for an empty take: it walks spendable buckets, which all have something left.)
unfoldable pub spend :
    (ℕ → ℕ → Bucket → LedgerEntry) → ℕ → ℕ → ℕ → List Bucket → Store → Result (List Bucket × Store)
spend row now i owed [] s = ok ([], s)
spend row now i owed (b ∷ bs) s = elim (owed == 0) [
  | true ↦ ok (b ∷ bs, s)
  | false ↦ elim (min b.remaining owed == 0) [
    | true ↦ spend row now (suc i) owed bs s >>= λ r. ok (b ∷ r.0, r.1)
    | false ↦
        let take = min b.remaining owed in
        move_tokens now b.id (sub_ℕ 0 take) (row i owed b) s >>= λ m.
        spend row now (suc i) (owed - take) bs m.0 >>= λ r.
        ok (record b { remaining = b.remaining - take } ∷ r.0, r.1)
  ]
]

-- The debit row of one scan job.
abbrev pub debit_row : ChargeRequest → ChargeLine → ℕ → ℕ → Bucket → LedgerEntry
debit_row req line _ _ b = record (entry debit (debit_key line.job_id b.id)) {
  scan_id = some req.scan_id;
  scan_job_id = some line.job_id;
  engine = some line.engine;
  actor_user_id = req.actor_id;
}

-- The loop over the lines of a charge and of its quote, which are as many.
unfoldable pub charge_lines :
    ChargeRequest → ℕ → List ChargeLine → List QuoteLine → List Bucket → Store → Result Store
charge_lines req now [] qs bs s = ok s
charge_lines req now (l ∷ ls) [] bs s = err internal_error
charge_lines req now (l ∷ ls) (q ∷ qs) bs s =
    spend (debit_row req l) now 0 q.tokens bs s >>= λ r. charge_lines req now ls qs r.0 r.1

-- Whether the first job was already charged: a retry.
unfoldable pub already_charged : List ChargeLine → Store → Bool
already_charged [] s = true
already_charged (l ∷ _) s = not (is_empty (debits_for_job l.job_id s))

-- The body of `Charge` on the locked rows.
unfoldable pub charge_on : ChargeRequest → ℕ → Quote → Subscription → Store → Result Store
charge_on req now q sub s =
    let buckets = spendable_buckets now s in
    let engines = map (λ l. l.engine) req.lines in
    if already_charged req.lines s then ok s else do
      refuse_if (not (is_empty (blocked_engines (plan_of sub) engines))) plan_required
      refuse_if (ltb (sum_of (λ b. b.remaining) buckets) q.total)
          (fail_with payment_required "billing.insufficient_tokens")
      charge_lines req now req.lines q.lines buckets s

unfoldable pub charge : Calendar → ℕ → ℕ → ChargeRequest → Store → Result Store
charge cal org now req s =
    if is_empty req.lines
    then ok s
    else elim (quote_scan (map (λ l. l.engine) req.lines) req.preset req.trigger) [
      | none ↦ err internal_error
      | some q ↦ with_org cal org now (charge_on req now q) s
    ]

-- The row of one take of a finding-assistant command: the first carries the command's own key.
abbrev pub ai_row : ℕ → ℕ → AiAction → ℕ → Option ℕ → ℕ → ℕ → Bucket → LedgerEntry
ai_row scan finding action price actor i owed _ = record (entry debit key) {
  scan_id = some scan;
  actor_user_id = actor;
}
  where
    key : Key
    key = if owed == price then ai_key finding action else ai_more_key finding action i

-- `ChargeAI`: the tokens charged, nothing on a repeat.
unfoldable pub charge_ai :
    Calendar → ℕ → ℕ → Option ℕ → ℕ → ℕ → AiAction → Store → Result (ℕ × Store)
charge_ai cal org now actor scan finding action s = elim (ai_price action) [
  | none ↦ err (fail_with validation "billing.unknown_ai_action")
  | some price ↦
      with_org cal org now
        (λ _ t.
          let buckets = spendable_buckets now t in
          if ledger_key_exists (ai_key finding action) t.ledger then ok (0, t) else do
            refuse_if (ltb (sum_of (λ b. b.remaining) buckets) price)
                (fail_with payment_required "billing.insufficient_tokens")
            r ← spend (ai_row scan finding action price actor) now 0 price buckets t
            ok (price, r.1))
        s
]

-- The row that gives one debit back.
abbrev pub refund_row : ℕ → LedgerEntry → ℕ → LedgerEntry
refund_row job d bucket = record (entry refund (refund_key job bucket)) {
  scan_id = d.scan_id;
  scan_job_id = d.scan_job_id;
  engine = d.engine;
}

unfoldable pub refund_debits : ℕ → ℕ → List LedgerEntry → Store → Result Store
refund_debits job now [] s = ok s
refund_debits job now (d ∷ ds) s = elim d.bucket_id [
  | none ↦ refund_debits job now ds s
  | some bucket ↦ move_tokens now bucket (neg d.delta) (refund_row job d bucket) s >>= λ m.
      refund_debits job now ds m.0
]

-- `RefundJob`: a job that was never charged has no organisation to refund.
unfoldable pub refund_job : Calendar → ℕ → ℕ → ℕ → Store → Result Store
refund_job cal org now job s =
    if is_empty (debits_for_job job s)
    then ok s
    else with_org cal org now (λ _ t. refund_debits job now (debits_for_job job t) t) s

abbrev adjust_row : ℕ → ℕ → ℕ → ℕ → Bucket → LedgerEntry
adjust_row operator new _ _ b = record (entry adjust (adjust_take_key new b.id)) {
  actor_user_id = some operator;
}

abbrev adjust_bucket : ℕ → ℕ → ℕ → Bucket
adjust_bucket org now n = record {
  id = 0;
  org_id = org;
  source = adjustment;
  amount = n;
  remaining = 0;
  expires_at = now + topup_validity;
  checkout_id = none;
}

-- The body of `AdminAdjust`, after a new identifier has been drawn for its key.
unfoldable pub adjust_on : ℕ → ℕ → ℕ → ℕ → ℤ → Store → Result Store
adjust_on operator org now new (pos n) s =
    add_bucket now (adjust_bucket org now n)
      (record (entry adjust (adjust_key new)) { actor_user_id = some operator }) s
adjust_on operator org now new (negsuc n) s =
    spend (adjust_row operator new) now 0 (suc n) (spendable_buckets now s) s >>= λ r. ok r.1

abbrev pub is_zero : ℤ → Bool
is_zero (pos n) = n == 0
is_zero (negsuc _) = false

unfoldable pub admin_adjust : Calendar → ℕ → ℕ → ℕ → ℤ → Store → Result Store
admin_adjust cal operator org now delta s =
    if is_zero delta
    then err (fail_with validation "billing.invalid_adjustment")
    else with_org cal org now
        (λ _ t. adjust_on operator org now t.next_id delta (record t { next_id = suc t.next_id })) s
