-- ===== src/Billing/Store.antt =====
-- internal/store/repo/billing_repo.go and migration 00028, over the records of
-- internal/modules/billing/types.go: the rows of one organisation, and the queries that run inside
-- `WithOrgLock`. Rows stand in the order in which they were inserted. The table's CHECKs refuse a
-- write (`internal_error`), and an error rolls the whole transaction back.
use guard_pipe.Prelude.{
  ℕ, suc, ◌+◌, ◌-◌, Bool, true, false, ◌&&◌, List, [], ◌∷◌, ◌++◌, Option, none, some, if◌then◌else◌,
  ltb, leb, ◌==◌, keep, any, sum_of, find?, ℤ, pos, negsuc,
}
use guard_pipe.Errors.{Result, ok, err, internal_error, fail_with, not_found}
use guard_pipe.Domain.Engine.{EngineId}
use guard_pipe.Billing.Catalog.{PlanCode, ItemCode, AiAction, ai_action_eq}

-- The statuses of the Go code. The table's CHECK allows `past_due` as well, which no Go code writes.
pub data SubStatus : Type 0 where
  active canceled expired : SubStatus

-- The organisation's row. Times are nanoseconds since the epoch.
pub record Subscription : Type 0 where
  pub org_id : ℕ
  pub plan_code : PlanCode
  pub status : SubStatus
  pub period_start : ℕ
  pub period_end : ℕ
  pub next_grant_at : ℕ
  pub cancel_at_period_end : Bool

pub data Source : Type 0 where
  plan_grant topup adjustment : Source

pub record Bucket : Type 0 where
  pub id : ℕ
  pub org_id : ℕ
  pub source : Source
  pub amount : ℕ
  pub remaining : ℕ
  pub expires_at : ℕ
  pub checkout_id : Option ℕ

pub data EntryKind : Type 0 where
  grant topup_kind debit refund expire adjust : EntryKind

-- The idempotency keys, one constructor for each format: a format is injective, since identifiers
-- have a fixed length and times end a key.
pub data Key : Type 0 where
  grant_initial : ℕ → Key  -- grant:ORG:initial
  grant_purchase : ℕ → Key  -- grant:purchase:SESSION
  grant_monthly : ℕ → ℕ → Key  -- grant:ORG:TIME
  topup_key : ℕ → Key  -- topup:SESSION
  debit_key : ℕ → ℕ → Key  -- debit:JOB:BUCKET
  refund_key : ℕ → ℕ → Key  -- refund:JOB:BUCKET
  expire_key : ℕ → ℕ → Key  -- expire:BUCKET:TIME
  ai_key : ℕ → AiAction → Key  -- ai:FINDING:ACTION
  ai_more_key : ℕ → AiAction → ℕ → Key  -- ai:FINDING:ACTION:INDEX
  adjust_key : ℕ → Key  -- adjust:ID
  adjust_take_key : ℕ → ℕ → Key  -- adjust:ID:BUCKET

unfoldable pub key_eq : Key → Key → Bool
unfolding ai_action_eq
key_eq (grant_initial a) (grant_initial b) = a == b
key_eq (grant_purchase a) (grant_purchase b) = a == b
key_eq (grant_monthly a t) (grant_monthly b u) = a == b && t == u
key_eq (topup_key a) (topup_key b) = a == b
key_eq (debit_key a t) (debit_key b u) = a == b && t == u
key_eq (refund_key a t) (refund_key b u) = a == b && t == u
key_eq (expire_key a t) (expire_key b u) = a == b && t == u
key_eq (ai_key a t) (ai_key b u) = a == b && ai_action_eq t u
key_eq (ai_more_key a t i) (ai_more_key b u j) = a == b && ai_action_eq t u && i == j
key_eq (adjust_key a) (adjust_key b) = a == b
key_eq (adjust_take_key a t) (adjust_take_key b u) = a == b && t == u
key_eq _ _ = false

pub record LedgerEntry : Type 0 where
  pub id : ℕ
  pub kind : EntryKind
  pub delta : ℤ
  pub balance_after : ℕ
  pub bucket_id : Option ℕ
  pub scan_id : Option ℕ
  pub scan_job_id : Option ℕ
  pub engine : Option EngineId
  pub actor_user_id : Option ℕ
  pub key : Key

pub data CheckoutStatus : Type 0 where
  pending paid failed expired_checkout : CheckoutStatus

pub record CheckoutSession : Type 0 where
  pub id : ℕ
  pub created_by : ℕ
  pub item_code : ItemCode
  pub amount_cents : ℕ
  pub status : CheckoutStatus
  pub paid_at : Option ℕ
  pub expires_at : ℕ

pub record Store : Type 0 where
  pub subscription : Option Subscription
  pub buckets : List Bucket
  pub ledger : List LedgerEntry
  pub checkouts : List CheckoutSession
  -- the supply of `id.New`
  pub next_id : ℕ

-- `ORDER BY expires_at`, rows of one time staying in the order of their creation.
unfoldable pub insert_by_expiry : Bucket → List Bucket → List Bucket
insert_by_expiry b [] = b ∷ []
insert_by_expiry b (c ∷ cs) =
    if leb b.expires_at c.expires_at then b ∷ c ∷ cs else c ∷ insert_by_expiry b cs

unfoldable pub sort_by_expiry : List Bucket → List Bucket
sort_by_expiry [] = []
sort_by_expiry (b ∷ bs) = insert_by_expiry b (sort_by_expiry bs)

-- remaining > 0 AND expires_at > now
abbrev pub is_spendable : ℕ → Bucket → Bool
is_spendable now b = ltb 0 b.remaining && ltb now b.expires_at

unfoldable pub spendable_buckets : ℕ → Store → List Bucket
spendable_buckets now s = sort_by_expiry (keep (is_spendable now) s.buckets)

abbrev pub is_plan_grant : Source → Bool
is_plan_grant plan_grant = true
is_plan_grant _ = false

-- `BucketsBySource` at the plan grants: remaining > 0, regardless of expiry.
unfoldable pub plan_grant_buckets : Store → List Bucket
plan_grant_buckets s =
    sort_by_expiry (keep (λ b. ltb 0 b.remaining && is_plan_grant b.source) s.buckets)

-- remaining > 0 AND expires_at <= now
unfoldable pub expired_buckets : ℕ → Store → List Bucket
expired_buckets now s =
    sort_by_expiry (keep (λ b. ltb 0 b.remaining && leb b.expires_at now) s.buckets)

-- `Balance`: what is left in the spendable buckets.
unfoldable pub balance : ℕ → List Bucket → ℕ
balance now bs = sum_of (λ b. b.remaining) (keep (is_spendable now) bs)

-- CHECK (amount > 0) and CHECK (remaining >= 0 AND remaining <= amount)
unfoldable pub insert_bucket : Bucket → Store → Result Store
insert_bucket b s =
    if ltb 0 b.amount && leb b.remaining b.amount
    then ok (record s { buckets = s.buckets ++ b ∷ [] })
    else err internal_error

-- `remaining = remaining + delta`, within the CHECK.
unfoldable pub change_remaining : ℤ → Bucket → Option Bucket
change_remaining (pos n) b =
    if leb (b.remaining + n) b.amount then some (record b { remaining = b.remaining + n }) else none
change_remaining (negsuc n) b =
    if ltb n b.remaining then some (record b { remaining = b.remaining - suc n }) else none

abbrev pub cons_some : Bucket → Option (List Bucket) → Option (List Bucket)
cons_some b none = none
cons_some b (some bs) = some (b ∷ bs)

abbrev pub some_cons : Option Bucket → List Bucket → Option (List Bucket)
some_cons none bs = none
some_cons (some b) bs = some (b ∷ bs)

-- The UPDATE of one bucket; `none` if no row has the identifier, or the CHECK refuses.
unfoldable pub update_bucket : ℕ → ℤ → List Bucket → Option (List Bucket)
unfolding change_remaining
update_bucket i d [] = none
update_bucket i d (b ∷ bs) =
    if b.id == i then some_cons (change_remaining d b) bs else cons_some b (update_bucket i d bs)

unfoldable pub add_to_bucket : ℕ → ℤ → Store → Result Store
add_to_bucket i d s = elim (update_bucket i d s.buckets) [
  | none ↦ err internal_error
  | some bs ↦ ok (record s { buckets = bs })
]

unfoldable pub ledger_key_exists : Key → List LedgerEntry → Bool
unfolding key_eq
ledger_key_exists k es = any (λ e. key_eq e.key k) es

-- ON CONFLICT (idempotency_key) DO NOTHING; the flag says whether the row was inserted.
unfoldable pub insert_ledger : LedgerEntry → Store → Store × Bool
insert_ledger e s =
    if ledger_key_exists e.key s.ledger
    then (s, false)
    else (record s { ledger = s.ledger ++ e ∷ [] }, true)

abbrev pub is_debit : EntryKind → Bool
is_debit debit = true
is_debit _ = false

abbrev pub has_id : ℕ → Option ℕ → Bool
has_id i none = false
has_id i (some j) = j == i

abbrev pub is_debit_of : ℕ → LedgerEntry → Bool
is_debit_of job e = has_id job e.scan_job_id && is_debit e.kind

-- ORDER BY created_at is the order of insertion.
unfoldable pub debits_for_job : ℕ → Store → List LedgerEntry
debits_for_job job s = keep (is_debit_of job) s.ledger

unfoldable pub insert_checkout : CheckoutSession → Store → Store
insert_checkout c s = record s { checkouts = s.checkouts ++ c ∷ [] }

unfoldable pub get_checkout : ℕ → Store → Result CheckoutSession
get_checkout i s = elim (find? (λ c. c.id == i) s.checkouts) [
  | none ↦ err (fail_with not_found "billing.checkout_not_found")
  | some c ↦ ok c
]

-- COALESCE($4, paid_at)
abbrev coalesce : Option ℕ → Option ℕ → Option ℕ
coalesce none old = old
coalesce (some t) old = some t

unfoldable pub set_status :
    ℕ → CheckoutStatus → Option ℕ → List CheckoutSession → List CheckoutSession
set_status i st at [] = []
set_status i st at (c ∷ cs) =
    if c.id == i
    then record c { status = st; paid_at = coalesce at c.paid_at } ∷ set_status i st at cs
    else c ∷ set_status i st at cs

unfoldable pub set_checkout_status : ℕ → CheckoutStatus → Option ℕ → Store → Store
unfolding set_status
set_checkout_status i st at s = record s { checkouts = set_status i st at s.checkouts }

unfoldable pub update_subscription : Subscription → Store → Store
update_subscription sub s = record s { subscription = some sub }
