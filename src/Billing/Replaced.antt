-- ===== src/Billing/Replaced.antt =====
-- internal/modules/billing/service.go, `grantPlanTokens`: a monthly grant replaces what is left of
-- the previous one.
use guard_pipe.Prelude.{
  ℕ, ◌+◌, ◌≤◌, ◌<◌, ◌≡◌, refl, ◌∙◌, Bool, true, false, ◌&&◌, ◌||◌, List, [], ◌∷◌, ◌++◌, none, some,
  arith, if◌then◌else◌, ltb, ◌==◌, keep, sum_of, sum_of-append, any-append, sub_ℕ, All, Bool-cases,
  inl, inr, ==_refl,
}
use guard_pipe.Errors.{ok}
use guard_pipe.Billing.Catalog.{PlanCode, plans, free, pro_monthly, pro_annual}
use guard_pipe.Billing.Store.{
  Store, Bucket, Subscription, LedgerEntry, Key, expire_key, expire, key_eq, ledger_key_exists,
  is_plan_grant, plan_grant_buckets, plan_grant, grant,
}
use guard_pipe.Billing.Tokens.{
  Calendar, entry, moved, move_tokens_done, expire_bucket, expire_all, add_bucket_done, added,
  new_bucket, grant_plan_tokens, plan_of,
}
use guard_pipe.Billing.Take.{
  find_bucket, taken, update_bucket-taken, find_bucket-taken_ne, NoId, DistinctIds,
  find_bucket-NoId, keep-DistinctIds, sort_by_expiry-All, sort_by_expiry-DistinctIds,
  sort_by_expiry-sum,
}

-- What the buckets of plan grants hold.
abbrev pub granted : List Bucket → ℕ
granted = sum_of λ b. if is_plan_grant b.source then b.remaining else 0

-- A copy of a plan grant's row with something left.
abbrev pub IsGrant : List Bucket → Bucket → Type 0
IsGrant rows b =
    (find_bucket b.id rows ≡ some b) × (is_plan_grant b.source ≡ true) × (0 < b.remaining)

granted-taken :
    (i take : ℕ) (bs : List Bucket) (b : Bucket)
    → find_bucket i bs ≡ some b
    → is_plan_grant b.source ≡ true
    → take ≤ b.remaining
    → granted (taken i take bs) + take ≡ granted bs
unfolding taken
granted-taken i take [] b f p h = ground arith
granted-taken i take (c ∷ bs) b f p h = ground (arith, granted-taken i take bs b)

IsGrant-cons :
    (c : Bucket) (bs cs : List Bucket)
    → NoId c.id bs
    → All (IsGrant bs) cs
    → All (IsGrant (c ∷ bs)) cs
IsGrant-cons c bs [] n h = tt
IsGrant-cons c bs (d ∷ cs) n h =
    let other = find_bucket-NoId c.id d.id d bs n h.0.0 in
    ((rw other h.0.0, h.0.1, h.0.2), IsGrant-cons c bs cs n h.1)

abbrev is_left : Bucket → Bool
is_left b = ltb 0 b.remaining && is_plan_grant b.source

keep-IsGrant : (bs : List Bucket) → DistinctIds bs → All (IsGrant bs) (keep is_left bs)
keep-IsGrant [] d = tt
keep-IsGrant (b ∷ bs) d = elim (Bool-cases (is_left b)) [
  | inl good ↦ rw good (
    (rw (==_refl b.id) refl, ground (arith, good), ground (arith, good)),
    IsGrant-cons b bs (keep is_left bs) d.0 (keep-IsGrant bs d.1),
  )
  | inr bad ↦ rw bad (IsGrant-cons b bs (keep is_left bs) d.0 (keep-IsGrant bs d.1))
]

keep-granted : (bs : List Bucket) → sum_of (λ b. b.remaining) (keep is_left bs) ≡ granted bs
keep-granted [] = refl
keep-granted (b ∷ bs) = ground (arith, keep-granted bs)

pub plan_grant_buckets-IsGrant :
    (s : Store)
    → DistinctIds s.buckets
    → All (IsGrant s.buckets) (plan_grant_buckets s)
      × DistinctIds (plan_grant_buckets s)
      × (sum_of (λ b. b.remaining) (plan_grant_buckets s) ≡ granted s.buckets)
unfolding plan_grant_buckets
plan_grant_buckets-IsGrant s d = (
  sort_by_expiry-All (IsGrant s.buckets) _ (keep-IsGrant s.buckets d),
  sort_by_expiry-DistinctIds _ (keep-DistinctIds is_left s.buckets d),
  sort_by_expiry-sum (λ b. b.remaining) _ ∙ keep-granted s.buckets,
)

exists-append :
    (k : Key) (l : List LedgerEntry) (e : LedgerEntry)
    → ledger_key_exists k (l ++ e ∷ []) ≡ (ledger_key_exists k l || key_eq e.key k)
unfolding ledger_key_exists
exists-append k l e =
    rw (any-append (λ (x : LedgerEntry). key_eq x.key k) l (e ∷ [])) (ground arith)

expire_key-ne :
    (now b c : ℕ) → (c == b) ≡ false → key_eq (expire_key b now) (expire_key c now) ≡ false
unfolding key_eq
expire_key-ne now b c n = ground arith

module _ (now : ℕ) where
  -- The bucket was not expired at this moment.
  abbrev pub NotExpired : List LedgerEntry → List Bucket → Type 0
  NotExpired l = All λ b. ledger_key_exists (expire_key b.id now) l ≡ false

  abbrev after_expiry : Bucket → Store → Store
  after_expiry b s =
      moved now b.id (sub_ℕ 0 b.remaining) (entry expire (expire_key b.id now)) s
        (taken b.id b.remaining s.buckets)

  expire_bucket-taken :
      (b : Bucket) (s : Store)
      → IsGrant s.buckets b
      → ledger_key_exists (expire_key b.id now) s.ledger ≡ false
      → expire_bucket now b s ≡ ok (after_expiry b s)
  unfolding expire_bucket
  expire_bucket-taken b s g k =
      let some_left : (b.remaining == 0) ≡ false = ground (arith, g.2) in
      rw (expire_bucket, some_left)
        (rw
          (move_tokens_done now b.id (sub_ℕ 0 b.remaining) (entry expire (expire_key b.id now)) s k
            (update_bucket-taken b.id b.remaining s.buckets g.0 g.2 (omega arith)))
          refl)

  IsGrant-after :
      (b : Bucket) (s : Store) (bs : List Bucket)
      → NoId b.id bs
      → All (IsGrant s.buckets) bs
      → All (IsGrant (after_expiry b s).buckets) bs
  IsGrant-after b s [] n h = tt
  IsGrant-after b s (c ∷ cs) n h = (
    (find_bucket-taken_ne b.id c.id b.remaining s.buckets n.0 ∙ h.0.0, h.0.1, h.0.2),
    IsGrant-after b s cs n.1 h.1,
  )

  NotExpired-after :
      (b : Bucket) (s : Store) (bs : List Bucket)
      → NoId b.id bs
      → NotExpired s.ledger bs
      → NotExpired (after_expiry b s).ledger bs
  NotExpired-after b s [] n h = tt
  NotExpired-after b s (c ∷ cs) n h = (
    rw (exists-append (expire_key c.id now) s.ledger _, h.0) (expire_key-ne now b.id c.id n.0),
    NotExpired-after b s cs n.1 h.1,
  )

  module _ (key : Key) (other : (b : ℕ) → key_eq (expire_key b now) key ≡ false) where
    expire_all-granted :
        (bs : List Bucket) (s : Store)
        → All (IsGrant s.buckets) bs
        → DistinctIds bs
        → NotExpired s.ledger bs
        → ledger_key_exists key s.ledger ≡ false
        → (s' : Store) × (expire_all now bs s ≡ ok s')
          × (granted s'.buckets + sum_of (λ b. b.remaining) bs ≡ granted s.buckets)
          × (ledger_key_exists key s'.ledger ≡ false)
    unfolding expire_all
    expire_all-granted [] s g d n k = (s, refl, omega arith, k)
    expire_all-granted (b ∷ bs) s g d n k =
        let t : Store = after_expiry b s in
        let still : ledger_key_exists key t.ledger ≡ false =
          rw (exists-append key s.ledger _, k) (other b.id) in
        let (s', run, less, absent) =
          expire_all-granted bs t (IsGrant-after b s bs d.0 g.1) d.1
            (NotExpired-after b s bs d.0 n.1) still in
        (
          s',
          rw (expire_bucket-taken b s g.0 n.0) run,
          omega (arith, less, granted-taken b.id b.remaining s.buckets b g.0.0 g.0.1 (omega arith)),
          absent,
        )

pub some_grant : (code : PlanCode) → 0 < (plans code).monthly_grant
unfolding plans
some_grant free = omega arith
some_grant pro_monthly = omega arith
some_grant pro_annual = omega arith

granted-new :
    (bs : List Bucket) (b : Bucket)
    → is_plan_grant b.source ≡ true
    → granted (bs ++ b ∷ []) ≡ granted bs + b.remaining
granted-new bs b g =
    rw
      (
        sum_of-append (λ (c : Bucket). if is_plan_grant c.source then c.remaining else 0) bs
            (b ∷ []),
        g,
      )
      (omega arith)

-- When bucket identifiers are distinct, no plan-grant bucket was expired at the same moment, and
-- the grant's key is new and not the key of an expiry at this moment, the grant succeeds, and the
-- tokens left in all buckets of plan grants add up to exactly the plan's monthly grant.
pub grant_plan_tokens-replaces :
    (cal : Calendar) (sub : Subscription) (now : ℕ) (key : Key) (s : Store)
    → ((b : ℕ) → key_eq (expire_key b now) key ≡ false)
    → DistinctIds s.buckets
    → NotExpired now s.ledger (plan_grant_buckets s)
    → ledger_key_exists key s.ledger ≡ false
    → (s' : Store) × (grant_plan_tokens cal sub now key s ≡ ok s')
      × (granted s'.buckets ≡ (plan_of sub).monthly_grant)
unfolding grant_plan_tokens plan_of
grant_plan_tokens-replaces cal sub now key s other d n k =
    let (rows, distinct, total) = plan_grant_buckets-IsGrant s d in
    let (t, run, less, absent) =
      expire_all-granted now key other (plan_grant_buckets s) s rows distinct n k in
    let b : Bucket = record {
      id = 0;
      org_id = sub.org_id;
      source = plan_grant;
      amount = (plan_of sub).monthly_grant;
      remaining = 0;
      expires_at = if ltb now sub.next_grant_at then sub.next_grant_at else cal.add_months now 1;
      checkout_id = none;
    } in
    (
      added now b (entry grant key) t,
      rw (k, run) (add_bucket_done now b (entry grant key) t absent (some_grant sub.plan_code)),
      granted-new t.buckets (new_bucket b t) refl ∙ omega (arith, less, total),
    )
