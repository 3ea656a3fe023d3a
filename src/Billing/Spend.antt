-- ===== src/Billing/Spend.antt =====
-- internal/modules/billing/service.go, the inner loop of `Charge`: spending what one job owes takes
-- exactly that from the spendable buckets, and touches no other bucket and no other job.
use guard_pipe.Prelude.{
  ℕ, suc, ◌+◌, ◌-◌, ◌≤◌, ◌<◌, ◌≡◌, refl, ◌∙◌, min, Bool, true, false, ◌||◌, List, [], ◌∷◌, ◌++◌,
  some, arith, ◌==◌, sum_of, sum_of-append, keep, any-append, keep-append, sub_ℕ, neg_part, All,
  All-append, Bool-cases, inl, inr, if◌then◌else◌,
}
use guard_pipe.Errors.{ok}
use guard_pipe.Billing.Store.{
  Store, Bucket, LedgerEntry, Key, debit_key, key_eq, ledger_key_exists, is_debit_of, balance,
}
use guard_pipe.Billing.Tokens.{move_tokens, moved, move_tokens_done}
use guard_pipe.Billing.Charge.{ChargeLine, ChargeRequest, spend, debit_row}
use guard_pipe.Billing.Take.{
  find_bucket, taken, update_bucket-taken, find_bucket-taken_self, find_bucket-taken_ne,
  balance-taken, NoId, DistinctIds, IsCurrent,
}

-- What the ledger has debited for a job.
abbrev pub job_debits : ℕ → List LedgerEntry → ℕ
job_debits job l = sum_of (λ e. neg_part e.delta) (keep (is_debit_of job) l)

-- Whether a key is that of a debit of the job.
abbrev pub is_debit_key : ℕ → Key → Bool
is_debit_key job (debit_key j b) = j == job
is_debit_key job _ = false

abbrev pub Unkeyed : ℕ → List LedgerEntry → Type 0
Unkeyed job = All λ e. is_debit_key job e.key ≡ false

abbrev pub remaining_of : List Bucket → ℕ
remaining_of = sum_of λ b. b.remaining

-- No debit of the job from one of these buckets is in the ledger.
abbrev pub Undebited : ℕ → List LedgerEntry → List Bucket → Type 0
Undebited job l = All λ b. ledger_key_exists (debit_key job b.id) l ≡ false

pub Unkeyed-exists :
    (job b : ℕ) (l : List LedgerEntry)
    → Unkeyed job l
    → ledger_key_exists (debit_key job b) l ≡ false
unfolding ledger_key_exists key_eq
Unkeyed-exists job b [] u = refl
Unkeyed-exists job b (e ∷ l) u = ground (arith, Unkeyed-exists job b l u.1)

job_debits-append :
    (job : ℕ) (l : List LedgerEntry) (e : LedgerEntry)
    → job_debits job (l ++ e ∷ [])
      ≡ job_debits job l + (if is_debit_of job e then neg_part e.delta else 0)
job_debits-append job l e = rw (keep-append (is_debit_of job) l (e ∷ [])) (
    rw
      (sum_of-append (λ (x : LedgerEntry). neg_part x.delta) (keep (is_debit_of job) l)
        (keep (is_debit_of job) (e ∷ [])))
      (ground arith))

ledger_key_exists-append :
    (k : Key) (l : List LedgerEntry) (e : LedgerEntry)
    → ledger_key_exists k (l ++ e ∷ []) ≡ (ledger_key_exists k l || key_eq e.key k)
unfolding ledger_key_exists
ledger_key_exists-append k l e =
    rw (any-append (λ (x : LedgerEntry). key_eq x.key k) l (e ∷ [])) (ground arith)

debit_key-ne : (job b c : ℕ) → (c == b) ≡ false → key_eq (debit_key job b) (debit_key job c) ≡ false
unfolding key_eq
debit_key-ne job b c n = ground arith

==-swap : (a b : ℕ) → (a == b) ≡ false → (b == a) ≡ false
==-swap a b n = ground arith

none_left : (n : ℕ) → n ≤ 0 → n ≡ 0
none_left n h = omega arith

is_zero : (n : ℕ) → (n == 0) ≡ true → n ≡ 0
is_zero n h = ground arith

module _ (req : ChargeRequest) (line : ChargeLine) (now : ℕ) where
  -- From the local copies and the store before the loop to those after it.
  pub record Spent (owed : ℕ) (bs bs' : List Bucket) (s s' : Store) : Type 0 where
    pub current : All (IsCurrent now s'.buckets) bs'
    pub distinct : DistinctIds bs'
    pub ids : (i : ℕ) → NoId i bs → NoId i bs'
    pub left : remaining_of bs' + owed ≡ remaining_of bs
    pub balance_less : balance now s'.buckets + owed ≡ balance now s.buckets
    pub others : (i : ℕ) → NoId i bs → find_bucket i s'.buckets ≡ find_bucket i s.buckets
    pub debited : job_debits line.job_id s'.ledger ≡ job_debits line.job_id s.ledger + owed
    pub other_jobs :
        (j : ℕ) → (line.job_id == j) ≡ false → job_debits j s'.ledger ≡ job_debits j s.ledger
    pub other_keys : (j : ℕ) → (line.job_id == j) ≡ false → Unkeyed j s.ledger → Unkeyed j s'.ledger
    pub same_subscription : s'.subscription ≡ s.subscription

  -- The step at one bucket: the row of the store, the balance and the ledger.
  module _ (i owed take : ℕ) (b : Bucket) (s : Store) where
    abbrev pub after_take : Store
    after_take =
        moved now b.id (sub_ℕ 0 take) (debit_row req line i owed b) s (taken b.id take s.buckets)

    pub move_tokens-take :
        find_bucket b.id s.buckets ≡ some b
        → 0 < take
        → take ≤ b.remaining
        → ledger_key_exists (debit_key line.job_id b.id) s.ledger ≡ false
        → move_tokens now b.id (sub_ℕ 0 take) (debit_row req line i owed b) s
          ≡ ok (after_take, true)
    move_tokens-take f p h k =
        move_tokens_done now b.id (sub_ℕ 0 take) (debit_row req line i owed b) s k
          (update_bucket-taken b.id take s.buckets f p h)

    pub job_debits-take :
        job_debits line.job_id after_take.ledger ≡ job_debits line.job_id s.ledger + take
    job_debits-take = rw (job_debits-append line.job_id s.ledger _) (ground arith)

    pub job_debits-take_ne :
        (j : ℕ)
        → (line.job_id == j) ≡ false
        → job_debits j after_take.ledger ≡ job_debits j s.ledger
    job_debits-take_ne j n = rw (job_debits-append j s.ledger _) (ground arith)

    pub Unkeyed-take :
        (j : ℕ) → (line.job_id == j) ≡ false → Unkeyed j s.ledger → Unkeyed j after_take.ledger
    Unkeyed-take j n u = All-append _ s.ledger _ u (n, tt)

    pub Undebited-take :
        (bs : List Bucket)
        → NoId b.id bs
        → Undebited line.job_id s.ledger bs
        → Undebited line.job_id after_take.ledger bs
    Undebited-take [] n u = tt
    Undebited-take (c ∷ cs) n u = (
      rw (ledger_key_exists-append (debit_key line.job_id c.id) s.ledger _, u.0)
          (debit_key-ne line.job_id b.id c.id n.0),
      Undebited-take cs n.1 u.1,
    )

    pub IsCurrent-take :
        (bs : List Bucket)
        → NoId b.id bs
        → All (IsCurrent now s.buckets) bs
        → All (IsCurrent now after_take.buckets) bs
    IsCurrent-take [] n h = tt
    IsCurrent-take (c ∷ cs) n h = (
      (find_bucket-taken_ne b.id c.id take s.buckets n.0 ∙ h.0.0, h.0.1),
      IsCurrent-take cs n.1 h.1,
    )

  nothing_owed :
      (bs : List Bucket) (s : Store)
      → All (IsCurrent now s.buckets) bs
      → DistinctIds bs
      → Spent 0 bs bs s s
  nothing_owed bs s c d = record {
    current = c;
    distinct = d;
    ids = λ i n. n;
    left = omega arith;
    balance_less = omega arith;
    others = λ i n. refl;
    debited = omega arith;
    other_jobs = λ j n. refl;
    other_keys = λ j n u. u;
    same_subscription = refl;
  }

  empty_taken :
      (owed : ℕ) (b : Bucket) (bs bs' : List Bucket) (s s' : Store)
      → IsCurrent now s.buckets b
      → NoId b.id bs
      → Spent owed bs bs' s s'
      → Spent owed (b ∷ bs) (b ∷ bs') s s'
  empty_taken owed b bs bs' s s' c d p = record {
    current = ((p.others b.id d ∙ c.0, c.1), p.current);
    distinct = (p.ids b.id d, p.distinct);
    ids = λ i n. (n.0, p.ids i n.1);
    left = omega (arith, p.left);
    balance_less = p.balance_less;
    others = λ i n. p.others i n.1;
    debited = p.debited;
    other_jobs = p.other_jobs;
    other_keys = p.other_keys;
    same_subscription = p.same_subscription;
  }

  some_taken :
      (i owed take : ℕ) (b : Bucket) (bs bs' : List Bucket) (s s' : Store)
      → take ≤ owed
      → take ≤ b.remaining
      → IsCurrent now s.buckets b
      → NoId b.id bs
      → Spent (owed - take) bs bs' (after_take i owed take b s) s'
      → Spent owed (b ∷ bs) (record b { remaining = b.remaining - take } ∷ bs') s s'
  some_taken i owed take b bs bs' s s' le small c d p = record {
    current =
        ((p.others b.id d ∙ find_bucket-taken_self b.id take s.buckets b c.0, c.1), p.current);
    distinct = (p.ids b.id d, p.distinct);
    ids = λ j n. (n.0, p.ids j n.1);
    left = omega (arith, p.left, le, small);
    balance_less =
        omega (arith, p.balance_less, balance-taken now b.id take s.buckets b c.0 c.1 small, le);
    others =
        λ j n. p.others j n.1 ∙ find_bucket-taken_ne b.id j take s.buckets (==-swap b.id j n.0);
    debited = omega (arith, p.debited, job_debits-take i owed take b s, le);
    other_jobs = λ j n. p.other_jobs j n ∙ job_debits-take_ne i owed take b s j n;
    other_keys = λ j n u. p.other_keys j n (Unkeyed-take i owed take b s j n u);
    same_subscription = p.same_subscription;
  }

  -- The whole loop.
  pub spend-Spent :
      (i owed : ℕ) (bs : List Bucket) (s : Store)
      → All (IsCurrent now s.buckets) bs
      → DistinctIds bs
      → Undebited line.job_id s.ledger bs
      → owed ≤ remaining_of bs
      → (bs' : List Bucket) × (s' : Store) × (spend (debit_row req line) now i owed bs s
          ≡ ok (bs', s'))
        × Spent owed bs bs' s s'
  unfolding spend
  spend-Spent i owed [] s c d u h = ([], s, refl, rw (none_left owed h) (nothing_owed [] s tt tt))
  spend-Spent i owed (b ∷ bs) s c d u h = elim (Bool-cases (owed == 0)) [
    | inl settled ↦ (
      b ∷ bs,
      s,
      rw (settled, spend) refl,
      rw (is_zero owed settled) (nothing_owed (b ∷ bs) s c d),
    )
    | inr owing ↦ elim (Bool-cases (min b.remaining owed == 0)) [
      | inl nothing ↦
          let (bs', s', run, p) = spend-Spent (suc i) owed bs s c.1 d.1 u.1 (ground arith) in
          (
            b ∷ bs',
            s',
            rw (owing, nothing, spend) (rw run refl),
            empty_taken owed b bs bs' s s' c.0 d.0 p,
          )
      | inr something ↦
          let take = min b.remaining owed in
          let t : Store = after_take i owed take b s in
          let step = move_tokens-take i owed take b s c.0.0 (ground arith) (ground arith) u.0 in
          let (bs', s', run, p) =
            spend-Spent (suc i) (owed - take) bs t (IsCurrent-take i owed take b s bs d.0 c.1) d.1
              (Undebited-take i owed take b s bs d.0 u.1) (ground arith) in
          (
            record b { remaining = b.remaining - take } ∷ bs',
            s',
            rw (owing, something, spend) (rw step (rw run refl)),
            some_taken i owed take b bs bs' s s' (ground arith) (ground arith) c.0 d.0 p,
          )
    ]
  ]
