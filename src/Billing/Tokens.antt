-- ===== src/Billing/Tokens.antt =====
-- internal/modules/billing/service.go, balance changes: `addBucket`, `moveTokens`, `expireBucket`,
-- `grantPlanTokens`, `withOrg`. `add_months` is `Time.AddDate` on the program's clock.
use guard_pipe.Prelude.{
  ℕ, suc, Bool, true, false, List, [], ◌∷◌, ◌++◌, none, some, ◌≡◌, ◌<◌, arith, if◌then◌else◌, ltb,
  ◌==◌, ℤ, pos, sub_ℕ,
}
use guard_pipe.Errors.{Result, ok, err, ◌>>=◌, internal_error}
use guard_pipe.Billing.Catalog.{free, Plan, plans}
use guard_pipe.Billing.Store.{
  Store, Subscription, Bucket, LedgerEntry, Key, EntryKind, plan_grant, grant, expire, expire_key,
  grant_initial, active, ledger_key_exists, insert_bucket, add_to_bucket, insert_ledger, balance,
  plan_grant_buckets, update_bucket,
}

-- A ledger row before `moveTokens` or `addBucket` has filled in its amounts.
abbrev pub entry : EntryKind → Key → LedgerEntry
entry k key = record {
  id = 0;
  kind = k;
  delta = pos 0;
  balance_after = 0;
  bucket_id = none;
  scan_id = none;
  scan_job_id = none;
  engine = none;
  actor_user_id = none;
  key = key;
}

-- `addBucket`: a new bucket and its ledger row, unless the key was already written.
unfoldable pub add_bucket : ℕ → Bucket → LedgerEntry → Store → Result Store
add_bucket now b e s = if ledger_key_exists e.key s.ledger then ok s else do
  let new = record b { id = s.next_id; remaining = b.amount }
  let s0 = record s { next_id = suc (suc s.next_id) }
  s1 ← insert_bucket new s0
  let row = record e {
    id = suc s.next_id;
    delta = pos b.amount;
    balance_after = balance now s1.buckets;
    bucket_id = some s.next_id;
  }
  ok (insert_ledger row s1).0

-- `moveTokens`: one bucket by `delta` and its ledger row, unless the key was already written.
unfoldable pub move_tokens : ℕ → ℕ → ℤ → LedgerEntry → Store → Result (Store × Bool)
move_tokens now bucket delta e s = if ledger_key_exists e.key s.ledger then ok (s, false) else do
  s1 ← add_to_bucket bucket delta s
  let row = record e {
    id = s1.next_id;
    delta = delta;
    balance_after = balance now s1.buckets;
    bucket_id = some bucket;
  }
  ok (insert_ledger row (record s1 { next_id = suc s1.next_id }))

-- The new bucket, its row, and the store with both.
abbrev pub new_bucket : Bucket → Store → Bucket
new_bucket b s = record b { id = s.next_id; remaining = b.amount }

abbrev pub added_row : ℕ → Bucket → LedgerEntry → Store → LedgerEntry
added_row now b e s = record e {
  id = suc s.next_id;
  delta = pos b.amount;
  balance_after = balance now (s.buckets ++ new_bucket b s ∷ []);
  bucket_id = some s.next_id;
}

abbrev pub added : ℕ → Bucket → LedgerEntry → Store → Store
added now b e s = record s {
  buckets = s.buckets ++ new_bucket b s ∷ [];
  ledger = s.ledger ++ added_row now b e s ∷ [];
  next_id = suc (suc s.next_id);
}

module _ (now : ℕ) (b : Bucket) (e : LedgerEntry) (s : Store) where
  pub add_bucket_repeated : ledger_key_exists e.key s.ledger ≡ true → add_bucket now b e s ≡ ok s
  unfolding add_bucket
  add_bucket_repeated k = rw k

  pub add_bucket_refused :
      ledger_key_exists e.key s.ledger ≡ false
      → b.amount ≡ 0
      → add_bucket now b e s ≡ err internal_error
  unfolding add_bucket insert_bucket
  add_bucket_refused k z = ground arith

  pub add_bucket_done :
      ledger_key_exists e.key s.ledger ≡ false
      → 0 < b.amount
      → add_bucket now b e s ≡ ok (added now b e s)
  unfolding add_bucket insert_bucket insert_ledger
  add_bucket_done k z = ground arith

-- The store after a move, and its new row.
abbrev pub moved : ℕ → ℕ → ℤ → LedgerEntry → Store → List Bucket → Store
moved now bucket d e s bs =
    let row = record e {
      id = s.next_id;
      delta = d;
      balance_after = balance now bs;
      bucket_id = some bucket;
    } in
    record s { buckets = bs; ledger = s.ledger ++ row ∷ []; next_id = suc s.next_id }

module _ (now bucket : ℕ) (d : ℤ) (e : LedgerEntry) (s : Store) where
  pub move_tokens_repeated :
      ledger_key_exists e.key s.ledger ≡ true → move_tokens now bucket d e s ≡ ok (s, false)
  unfolding move_tokens
  move_tokens_repeated k = rw k

  pub move_tokens_refused :
      ledger_key_exists e.key s.ledger ≡ false
      → update_bucket bucket d s.buckets ≡ none
      → move_tokens now bucket d e s ≡ err internal_error
  unfolding move_tokens add_to_bucket
  move_tokens_refused k u = ground arith

  pub move_tokens_done :
      {bs : List Bucket}
      → ledger_key_exists e.key s.ledger ≡ false
      → update_bucket bucket d s.buckets ≡ some bs
      → move_tokens now bucket d e s ≡ ok (moved now bucket d e s bs, true)
  unfolding move_tokens add_to_bucket insert_ledger
  move_tokens_done k u = ground arith

-- `expireBucket`: the leftover tokens of a bucket, recorded as expired.
unfoldable pub expire_bucket : ℕ → Bucket → Store → Result Store
expire_bucket now b s = if b.remaining == 0 then ok s else do
  moved ← move_tokens now b.id (sub_ℕ 0 b.remaining) (entry expire (expire_key b.id now)) s
  ok moved.0

unfoldable pub expire_all : ℕ → List Bucket → Store → Result Store
expire_all now [] s = ok s
expire_all now (b ∷ bs) s = expire_bucket now b s >>= λ s'. expire_all now bs s'

unfoldable pub plan_of : Subscription → Plan
unfolding plans
plan_of sub = plans sub.plan_code

-- What the modelled code takes from Go's clock arithmetic: `add_months t n`, and `add_year t`.
pub record Calendar : Type 0 where
  pub add_months : ℕ → ℕ → ℕ
  pub add_year : ℕ → ℕ

-- `grantPlanTokens`: the plan's monthly grant replaces what is left of the previous one.
unfoldable pub grant_plan_tokens : Calendar → Subscription → ℕ → Key → Store → Result Store
grant_plan_tokens cal sub now key s = if ledger_key_exists key s.ledger then ok s else do
  s1 ← expire_all now (plan_grant_buckets s) s
  let expires = if ltb now sub.next_grant_at then sub.next_grant_at else cal.add_months now 1
  let b : Bucket = record {
    id = 0;
    org_id = sub.org_id;
    source = plan_grant;
    amount = (plan_of sub).monthly_grant;
    remaining = 0;
    expires_at = expires;
    checkout_id = none;
  }
  add_bucket now b (entry grant key) s1

unfoldable pub fresh_subscription : Calendar → ℕ → ℕ → Subscription
fresh_subscription cal org now = record {
  org_id = org;
  plan_code = free;
  status = active;
  period_start = now;
  period_end = cal.add_months now 1;
  next_grant_at = cal.add_months now 1;
  cancel_at_period_end = false;
}

-- `withOrg`: a first contact gives the organisation a free subscription and its first grant.
unfoldable pub with_org {ℓ} :
    {A : Type ℓ} → Calendar → ℕ → ℕ → (Subscription → Store → Result A) → Store → Result A
with_org cal org now body s = elim s.subscription [
  | some sub ↦ body sub s
  | none ↦ do
    let sub = fresh_subscription cal org now
    s1 ← grant_plan_tokens cal sub now (grant_initial org) (record s { subscription = some sub })
    body sub s1
]
