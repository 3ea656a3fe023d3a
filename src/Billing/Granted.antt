-- ===== src/Billing/Granted.antt =====
-- internal/modules/billing/service.go, `grantPlanTokens`: whether a grant can fail.
use guard_pipe.Prelude.{
  ℕ, suc, ◌≤◌, ◌<◌, ◌≡◌, refl, ◌∙◌, false, List, [], ◌∷◌, ◌++◌, none, arith, if◌then◌else◌, ltb,
  ◌==◌, sub_ℕ, All, All-map, All-append, Bool-cases, inl, inr,
}
use guard_pipe.Errors.{Result, ok}
use guard_pipe.Billing.Store.{
  Store, Bucket, Subscription, LedgerEntry, Key, expire_key, expire, ledger_key_exists,
  plan_grant_buckets, plan_grant, grant,
}
use guard_pipe.Billing.Tokens.{
  Calendar, entry, moved, move_tokens_done, move_tokens_repeated, expire_bucket, expire_all,
  add_bucket, add_bucket_done, add_bucket_repeated, added, new_bucket, grant_plan_tokens, plan_of,
}
use guard_pipe.Billing.Take.{
  find_bucket, taken, update_bucket-taken, find_bucket-taken_ne, NoId, DistinctIds,
}
use guard_pipe.Billing.Replaced.{IsGrant, plan_grant_buckets-IsGrant, some_grant}

abbrev pub IsKeyed : Store → Type 0
IsKeyed s = DistinctIds s.buckets × All (λ b. b.id < s.next_id) s.buckets

-- The operation succeeds, and the identifiers stay distinct.
abbrev pub Succeeds : Result Store → Type 0
Succeeds r = (t : Store) × (r ≡ ok t) × IsKeyed t

taken-All :
    (P : ℕ → Type 0) (i take : ℕ) (bs : List Bucket)
    → All (λ b. P b.id) bs
    → All (λ b. P b.id) (taken i take bs)
unfolding taken
taken-All P i take [] h = tt
taken-All P i take (b ∷ bs) h = elim (Bool-cases (b.id == i)) [
  | inl hit ↦ rw hit (h.0, h.1)
  | inr miss ↦ rw miss (h.0, taken-All P i take bs h.1)
]

taken-DistinctIds : (i take : ℕ) (bs : List Bucket) → DistinctIds bs → DistinctIds (taken i take bs)
unfolding taken
taken-DistinctIds i take [] d = tt
taken-DistinctIds i take (b ∷ bs) d = elim (Bool-cases (b.id == i)) [
  | inl hit ↦ rw hit (d.0, d.1)
  | inr miss ↦
      rw miss (taken-All (λ j. (j == b.id) ≡ false) i take bs d.0, taken-DistinctIds i take bs d.1)
]

later-All : (n m : ℕ) (bs : List Bucket) → n ≤ m → All (λ b. b.id < n) bs → All (λ b. b.id < m) bs
later-All n m bs le = All-map (λ b. b.id < n) (λ b. b.id < m) bs (λ b lt. omega (arith, le, lt))

added-DistinctIds :
    (b : Bucket) (bs : List Bucket)
    → All (λ c. c.id < b.id) bs
    → DistinctIds bs
    → DistinctIds (bs ++ b ∷ [])
added-DistinctIds b [] below d = (tt, tt)
added-DistinctIds b (c ∷ cs) below d =
    let lt = below.0 in
    (
      All-append (λ (x : Bucket). (x.id == c.id) ≡ false) cs (b ∷ []) d.0 (ground (arith, lt), tt),
      added-DistinctIds b cs below.1 d.1,
    )

module _ (now : ℕ) where
  -- After the expiry of one bucket the rows of the others are as they were.
  abbrev Expired : Bucket → Store → Result Store → Type 0
  Expired b s r =
      (t : Store) × (r ≡ ok t)
      × IsKeyed t
      × ((c : Bucket)
          → (c.id == b.id) ≡ false
          → find_bucket c.id t.buckets ≡ find_bucket c.id s.buckets)

  expire_bucket-Expired :
      (b : Bucket) (s : Store)
      → IsKeyed s
      → IsGrant s.buckets b
      → Expired b s (expire_bucket now b s)
  unfolding expire_bucket
  expire_bucket-Expired b s keyed g =
      let e = entry expire (expire_key b.id now) in
      let d = sub_ℕ 0 b.remaining in
      let bs = taken b.id b.remaining s.buckets in
      let some_left : (b.remaining == 0) ≡ false = let lt = g.2 in ground (arith, lt) in
      elim (Bool-cases (ledger_key_exists (expire_key b.id now) s.ledger)) [
        | inl old ↦ (
          s,
          rw (expire_bucket, some_left) (rw (move_tokens_repeated now b.id d e s old) refl),
          keyed,
          λ c ne. refl,
        )
        | inr new ↦ (
          moved now b.id d e s bs,
          rw (expire_bucket, some_left)
              (rw
                (move_tokens_done now b.id d e s new
                  (update_bucket-taken b.id b.remaining s.buckets g.0 g.2 (omega arith)))
                refl),
          (
            taken-DistinctIds b.id b.remaining s.buckets keyed.0,
            later-All s.next_id (suc s.next_id) bs (omega arith)
                (taken-All (λ j. j < s.next_id) b.id b.remaining s.buckets keyed.1),
          ),
          λ c ne. find_bucket-taken_ne b.id c.id b.remaining s.buckets ne,
        )
      ]

  still-IsGrant :
      (b : Bucket) (s t : Store)
      → ((c : Bucket)
          → (c.id == b.id) ≡ false
          → find_bucket c.id t.buckets ≡ find_bucket c.id s.buckets)
      → (bs : List Bucket) → NoId b.id bs
      → All (IsGrant s.buckets) bs
      → All (IsGrant t.buckets) bs
  still-IsGrant b s t kept [] n h = tt
  still-IsGrant b s t kept (c ∷ cs) n h =
      ((kept c n.0 ∙ h.0.0, h.0.1, h.0.2), still-IsGrant b s t kept cs n.1 h.1)

  expire_all-Succeeds :
      (bs : List Bucket) (s : Store)
      → IsKeyed s
      → All (IsGrant s.buckets) bs
      → DistinctIds bs
      → Succeeds (expire_all now bs s)
  unfolding expire_all
  expire_all-Succeeds [] s keyed g d = (s, refl, keyed)
  expire_all-Succeeds (b ∷ bs) s keyed g d =
      let (t, run, after, kept) = expire_bucket-Expired b s keyed g.0 in
      let (u, rest, done) =
        expire_all-Succeeds bs t after (still-IsGrant b s t kept bs d.0 g.1) d.1 in
      (u, rw run rest, done)

add_bucket-Succeeds :
    (now : ℕ) (b : Bucket) (e : LedgerEntry) (s : Store)
    → 0 < b.amount
    → IsKeyed s
    → Succeeds (add_bucket now b e s)
add_bucket-Succeeds now b e s positive keyed =
    elim (Bool-cases (ledger_key_exists e.key s.ledger)) [
      | inl old ↦ (s, add_bucket_repeated now b e s old, keyed)
      | inr new ↦ (
        added now b e s,
        add_bucket_done now b e s new positive,
        (
          added-DistinctIds (new_bucket b s) s.buckets keyed.1 keyed.0,
          All-append (λ (c : Bucket). c.id < suc (suc s.next_id)) s.buckets (new_bucket b s ∷ [])
              (later-All s.next_id (suc (suc s.next_id)) s.buckets (omega arith) keyed.1)
              (omega arith, tt),
        ),
      )
    ]

pub grant_plan_tokens-Succeeds :
    (cal : Calendar) (sub : Subscription) (now : ℕ) (key : Key) (s : Store)
    → IsKeyed s
    → Succeeds (grant_plan_tokens cal sub now key s)
unfolding grant_plan_tokens plan_of
grant_plan_tokens-Succeeds cal sub now key s keyed =
    elim (Bool-cases (ledger_key_exists key s.ledger)) [
      | inl old ↦ (s, rw (grant_plan_tokens, old) refl, keyed)
      | inr new ↦
          let (rows, distinct, _) = plan_grant_buckets-IsGrant s keyed.0 in
          let (t, run, after) =
            expire_all-Succeeds now (plan_grant_buckets s) s keyed rows distinct in
          let b : Bucket = record {
            id = 0;
            org_id = sub.org_id;
            source = plan_grant;
            amount = (plan_of sub).monthly_grant;
            remaining = 0;
            expires_at =
                if ltb now sub.next_grant_at then sub.next_grant_at else cal.add_months now 1;
            checkout_id = none;
          } in
          let (u, granted, done) =
            add_bucket-Succeeds now b (entry grant key) t (some_grant sub.plan_code) after in
          (u, rw (new, run) granted, done)
    ]
