-- ===== src/Billing/Refunds.antt =====
-- internal/modules/billing/service.go, `RefundJob`: a refund gives back what a job was debited,
-- once.
use guard_pipe.Prelude.{
  ℕ, ◌+◌, ◌≡◌, refl, sym, subst, ◌∙◌, true, false, ◌||◌, List, [], ◌∷◌, ◌++◌, Option, none, some,
  arith, ◌==◌, any-append, keep, Bool-cases, Option-cases, inl, inr, ℤ, pos, negsuc, neg, neg_part,
  pos_part, sum_of, All,
}
use guard_pipe.Errors.{ok, OnOk, OnOk-bind, OnOk-weaken, OnOk-ok, ok_inj}
use guard_pipe.Billing.Store.{
  Store, Subscription, LedgerEntry, Key, refund_key, ledger_key_exists, key_eq, is_debit,
  is_debit_of, debits_for_job, update_bucket, has_id,
}
use guard_pipe.Billing.Tokens.{
  Calendar, move_tokens, moved, move_tokens_repeated, move_tokens_refused, move_tokens_done,
}
use guard_pipe.Billing.Charge.{refund_row, refund_debits, refund_job, is_empty}
use guard_pipe.Billing.Conserved.{held, update_bucket-held}
use guard_pipe.Billing.Exact.{with_org_known}
use guard_pipe.Billing.Spend.{job_debits}

-- A refund of the job leaves the debits of every job and the subscription, and keeps every key.
record RefundKeeps (s s' : Store) : Type 0 where
  pub subscription : s'.subscription ≡ s.subscription
  pub debits : (j : ℕ) → debits_for_job j s' ≡ debits_for_job j s
  pub keys : (k : Key) → ledger_key_exists k s.ledger ≡ true → ledger_key_exists k s'.ledger ≡ true

RefundKeeps-refl : (s : Store) → RefundKeeps s s
RefundKeeps-refl s = record { subscription = refl; debits = λ j. refl; keys = λ k h. h }

RefundKeeps-trans : {a b c : Store} → RefundKeeps a b → RefundKeeps b c → RefundKeeps a c
RefundKeeps-trans p q = record {
  subscription = q.subscription ∙ p.subscription;
  debits = λ j. q.debits j ∙ p.debits j;
  keys = λ k h. q.keys k (p.keys k h);
}

sum_of-zero {ℓ} : {A : Type ℓ} (f : A → ℕ) (xs : List A) → All (λ x. f x ≡ 0) xs → sum_of f xs ≡ 0
sum_of-zero f [] h = refl
sum_of-zero f (x ∷ xs) h = omega (arith, h.0, sum_of-zero f xs h.1)

sum_of-empty {ℓ} : {A : Type ℓ} (f : A → ℕ) (xs : List A) → is_empty xs ≡ true → sum_of f xs ≡ 0
sum_of-empty f [] h = refl
sum_of-empty f (x ∷ xs) h = absurd (ground (arith, h))

neg_parts : (z : ℤ) → pos_part (neg z) + pos_part z ≡ neg_part (neg z) + neg_part z
neg_parts (pos n) = ground arith
neg_parts (negsuc n) = ground arith

key_eq_refl : (job b : ℕ) → key_eq (refund_key job b) (refund_key job b) ≡ true
unfolding key_eq
key_eq_refl job b = ground arith

exists-append :
    (k : Key) (l : List LedgerEntry) (e : LedgerEntry)
    → ledger_key_exists k (l ++ e ∷ []) ≡ (ledger_key_exists k l || key_eq e.key k)
unfolding ledger_key_exists
exists-append k l e =
    rw (any-append (λ (x : LedgerEntry). key_eq x.key k) l (e ∷ [])) (ground arith)

keep-not_debit :
    (j : ℕ) (l : List LedgerEntry) (e : LedgerEntry)
    → is_debit e.kind ≡ false
    → keep (is_debit_of j) (l ++ e ∷ []) ≡ keep (is_debit_of j) l
keep-not_debit j [] e n = rw n (ground arith)
keep-not_debit j (x ∷ xs) e n = rw (keep-not_debit j xs e n) refl

module _ (job now : ℕ) (d : LedgerEntry) (bucket : ℕ) (s : Store) where
  -- One refund row.
  refund_move-Keeps :
      OnOk
        (λ r. RefundKeeps s r.0 × (ledger_key_exists (refund_key job bucket) r.0.ledger ≡ true))
        (move_tokens now bucket (neg d.delta) (refund_row job d bucket) s)
  unfolding debits_for_job
  refund_move-Keeps = elim (Bool-cases (ledger_key_exists (refund_key job bucket) s.ledger)) [
    | inl old ↦
        rw (move_tokens_repeated now bucket (neg d.delta) (refund_row job d bucket) s old)
          (RefundKeeps-refl s, old)
    | inr new ↦ elim (Option-cases (update_bucket bucket (neg d.delta) s.buckets)) [
      | inl missing ↦
          rw (move_tokens_refused now bucket (neg d.delta) (refund_row job d bucket) s new missing)
            tt
      | inr (bs, u) ↦
          rw (move_tokens_done now bucket (neg d.delta) (refund_row job d bucket) s new u) (
            record {
              subscription = refl;
              debits = λ j. keep-not_debit j s.ledger _ refl;
              keys = λ k h. rw (exists-append k s.ledger _, h) refl;
            },
            rw (exists-append (refund_key job bucket) s.ledger _, key_eq_refl job bucket)
                (ground arith),
          )
    ]
  ]

-- A refund row of the job stands for the bucket, if there is one.
abbrev HasRefund : ℕ → List LedgerEntry → Option ℕ → Type 0
HasRefund job l none = Unit
HasRefund job l (some b) = ledger_key_exists (refund_key job b) l ≡ true

abbrev AllRefunded : ℕ → List LedgerEntry → Store → Type 0
AllRefunded job ds s = All (λ d. HasRefund job s.ledger d.bucket_id) ds

HasRefund-keeps :
    (job : ℕ) (s t : Store) (o : Option ℕ)
    → RefundKeeps s t
    → HasRefund job s.ledger o
    → HasRefund job t.ledger o
HasRefund-keeps job s t none k h = tt
HasRefund-keeps job s t (some b) k h = k.keys (refund_key job b) h

refund_debits-AllRefunded :
    (job now : ℕ) (ds : List LedgerEntry) (s : Store)
    → OnOk (λ t. RefundKeeps s t × AllRefunded job ds t) (refund_debits job now ds s)
unfolding refund_debits
refund_debits-AllRefunded job now [] s = (RefundKeeps-refl s, tt)
refund_debits-AllRefunded job now (d ∷ ds) s = elim (Option-cases d.bucket_id) [
  | inl nowhere ↦
      rw (nowhere, refund_debits)
        (OnOk-weaken (λ t. RefundKeeps s t × AllRefunded job ds t) _ _
          (refund_debits-AllRefunded job now ds s) (λ t h. (h.0, (tt, h.1))))
  | inr (b, from) ↦
      rw (from, refund_debits)
        (OnOk-bind
          (λ r. RefundKeeps s r.0 × (ledger_key_exists (refund_key job b) r.0.ledger ≡ true))
          (λ t. RefundKeeps s t × (HasRefund job t.ledger (some b) × AllRefunded job ds t)) _ _
          (refund_move-Keeps job now d b s)
          (λ r h.
            OnOk-weaken (λ t. RefundKeeps r.0 t × AllRefunded job ds t) _ _
              (refund_debits-AllRefunded job now ds r.0)
              (λ t k. (RefundKeeps-trans h.0 k.0, (k.0.keys (refund_key job b) h.1, k.1)))))
]

refund_debits-done :
    (job now : ℕ) (ds : List LedgerEntry) (s : Store)
    → AllRefunded job ds s
    → refund_debits job now ds s ≡ ok s
unfolding refund_debits
refund_debits-done job now [] s h = refl
refund_debits-done job now (d ∷ ds) s h = elim (Option-cases d.bucket_id) [
  | inl nowhere ↦ rw (nowhere, refund_debits) (refund_debits-done job now ds s h.1)
  | inr (b, from) ↦
      let step = move_tokens_repeated now b (neg d.delta) (refund_row job d b) s (rw from at h.0) in
      rw (from, refund_debits) (rw step (refund_debits-done job now ds s h.1))
]

module _ (cal : Calendar) (org now later job : ℕ) (sub : Subscription) (s t : Store)
    (known : s.subscription ≡ some sub) where
  -- A refund of a job that succeeded is not made again: the same refund at any later time
  -- succeeds and changes nothing, in an organisation that has a subscription.
  pub refund-twice : refund_job cal org now job s ≡ ok t → refund_job cal org later job t ≡ ok t
  unfolding refund_job
  refund-twice done = elim (Bool-cases (is_empty (debits_for_job job s))) [
    | inl nothing ↦
        let first : refund_job cal org now job s ≡ ok s = rw (refund_job, nothing) refl in
        let again : refund_job cal org later job s ≡ ok s = rw (refund_job, nothing) refl in
        subst (λ u. refund_job cal org later job u ≡ ok u) (ok_inj (sym first ∙ done)) again
    | inr debited ↦
        let first : refund_job cal org now job s ≡ refund_debits job now (debits_for_job job s) s =
          rw (refund_job, debited) (with_org_known cal org now _ sub s known) in
        let (kept, all) =
          OnOk-ok _ _ (sym first ∙ done)
            (refund_debits-AllRefunded job now (debits_for_job job s) s) in
        rw (refund_job, kept.debits job, debited)
          (with_org_known cal org later _ sub t (kept.subscription ∙ known)
            ∙ rw (kept.debits job) (refund_debits-done job later (debits_for_job job s) t all))
  ]

-- The debits are of different buckets, none of which has a refund row of the job.
abbrev pub Unrefunded : ℕ → List LedgerEntry → List LedgerEntry → Type 0
Unrefunded job l [] = Unit
Unrefunded job l (d ∷ ds) =
    (b : ℕ) × (d.bucket_id ≡ some b)
    × (ledger_key_exists (refund_key job b) l ≡ false)
    × All (λ x. has_id b x.bucket_id ≡ false) ds
    × Unrefunded job l ds

key_eq_ne : (job b c : ℕ) → (c == b) ≡ false → key_eq (refund_key job b) (refund_key job c) ≡ false
unfolding key_eq
key_eq_ne job b c n = ground arith

Unrefunded-after :
    (job b : ℕ) (l ds : List LedgerEntry) (e : LedgerEntry)
    → e.key ≡ refund_key job b
    → All (λ x. has_id b x.bucket_id ≡ false) ds
    → Unrefunded job l ds
    → Unrefunded job (l ++ e ∷ []) ds
Unrefunded-after job b l [] e k n u = tt
Unrefunded-after job b l (d ∷ ds) e k n (c, from, absent, apart, rest) =
    let other : (c == b) ≡ false = rw from at n.0 in
    let still : ledger_key_exists (refund_key job c) (l ++ e ∷ []) ≡ false =
      rw (exists-append (refund_key job c) l e, absent, k) (key_eq_ne job b c other) in
    (c, from, still, apart, Unrefunded-after job b l ds e k n.1 rest)

-- What the debits took is back in the buckets.
abbrev Returned : List LedgerEntry → Store → Store → Type 0
Returned ds s t =
    held t.buckets + sum_of (λ e. pos_part e.delta) ds
    ≡ held s.buckets + sum_of (λ e. neg_part e.delta) ds

refund_debits-held :
    (job now : ℕ) (ds : List LedgerEntry) (s : Store)
    → Unrefunded job s.ledger ds
    → OnOk (Returned ds s) (refund_debits job now ds s)
unfolding refund_debits
refund_debits-held job now [] s u = refl
refund_debits-held job now (d ∷ ds) s (b, from, absent, apart, rest) =
    elim (Option-cases (update_bucket b (neg d.delta) s.buckets)) [
      | inl missing ↦
          rw (from, refund_debits)
            (rw (move_tokens_refused now b (neg d.delta) (refund_row job d b) s absent missing) tt)
      | inr (bs, u) ↦
          rw (from, refund_debits)
            (rw (move_tokens_done now b (neg d.delta) (refund_row job d b) s absent u) (
              OnOk-weaken (Returned ds (moved now b (neg d.delta) (refund_row job d b) s bs))
                (Returned (d ∷ ds) s) _
                (refund_debits-held job now ds (moved now b (neg d.delta) (refund_row job d b) s bs)
                  (Unrefunded-after job b s.ledger ds _ refl apart rest))
                (λ t h.
                  omega
                    (arith, h, update_bucket-held b (neg d.delta) s.buckets u, neg_parts d.delta))))
    ]

module _ (cal : Calendar) (org now job : ℕ) (sub : Subscription) (s t : Store) where
  -- A refund of a job that succeeded gave the organisation's buckets exactly what the job was
  -- debited, when the organisation has a subscription and the job's debits took tokens, from
  -- different buckets, and were not refunded before.
  pub refund-exact :
      s.subscription ≡ some sub
      → All (λ e. pos_part e.delta ≡ 0) (debits_for_job job s)
      → Unrefunded job s.ledger (debits_for_job job s)
      → refund_job cal org now job s ≡ ok t
      → held t.buckets ≡ held s.buckets + job_debits job s.ledger
  unfolding refund_job debits_for_job
  refund-exact known taken fresh done =
      elim (Bool-cases (is_empty (keep (is_debit_of job) s.ledger))) [
        | inl nothing ↦
            let first : refund_job cal org now job s ≡ ok s = rw (refund_job, nothing) refl in
            let same : s ≡ t = ok_inj (sym first ∙ done) in
            let none_owed = sum_of-empty (λ (e : LedgerEntry). neg_part e.delta) _ nothing in
            subst (λ u. held u.buckets ≡ held s.buckets + job_debits job s.ledger) same
              (omega (arith, none_owed))
        | inr debited ↦
            let first : refund_job cal org now job s
                ≡ refund_debits job now (debits_for_job job s) s =
              rw (refund_job, debited) (with_org_known cal org now _ sub s known) in
            let back =
              OnOk-ok (Returned (debits_for_job job s) s) _ (sym first ∙ done)
                (refund_debits-held job now (debits_for_job job s) s fresh) in
            omega (arith, back, sum_of-zero (λ (e : LedgerEntry). pos_part e.delta) _ taken)
      ]
