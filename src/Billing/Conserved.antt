-- ===== src/Billing/Conserved.antt =====
-- internal/modules/billing/service.go: every balance change is matched by the ledger. The tokens
-- held in all buckets, expired ones included, are the sum of the ledger's deltas.
use guard_pipe.Prelude.{
  ℕ, ◌+◌, ◌≡◌, List, [], ◌∷◌, some, arith, ltb, ◌==◌, sum_of, sum_of-append, ℤ, pos, negsuc,
  pos_part, neg_part, sub_ℕ, Option-cases, Bool-cases, inl, inr, OnSome, ltb→lt,
}
use guard_pipe.Errors.{Result, OnOk, OnOk-bind}
use guard_pipe.Billing.Store.{
  Store, Bucket, LedgerEntry, Key, Subscription, update_bucket, change_remaining, ledger_key_exists,
  plan_grant_buckets, grant_initial, balance,
}
use guard_pipe.Billing.Tokens.{
  Calendar, add_bucket, move_tokens, expire_bucket, expire_all, grant_plan_tokens, with_org,
  fresh_subscription, moved, move_tokens_repeated, move_tokens_refused, move_tokens_done,
  new_bucket, added_row, added, add_bucket_repeated, add_bucket_refused, add_bucket_done,
}

abbrev pub held : List Bucket → ℕ
held = sum_of λ b. b.remaining

abbrev pub credits : List LedgerEntry → ℕ
credits = sum_of λ e. pos_part e.delta

abbrev pub debits : List LedgerEntry → ℕ
debits = sum_of λ e. neg_part e.delta

abbrev pub Conserved : Store → Type 0
Conserved s = held s.buckets + debits s.ledger ≡ credits s.ledger

change_remaining-held :
    (d : ℤ) (b c : Bucket)
    → change_remaining d b ≡ some c
    → c.remaining + neg_part d ≡ b.remaining + pos_part d
unfolding change_remaining
change_remaining-held (pos n) b c h = ground arith
change_remaining-held (negsuc n) b c h = ground arith

update_bucket-OnSome :
    (i : ℕ) (d : ℤ) (bs : List Bucket)
    → OnSome (λ cs. held cs + neg_part d ≡ held bs + pos_part d) (update_bucket i d bs)
unfolding update_bucket
update_bucket-OnSome i d [] = tt
update_bucket-OnSome i d (b ∷ bs) = elim (Bool-cases (b.id == i)) [
  | inl hit ↦ elim (Option-cases (change_remaining d b)) [
    | inl refused ↦ rw (hit, refused) tt
    | inr (c, changed) ↦ rw (hit, changed) (omega (arith, change_remaining-held d b c changed))
  ]
  | inr miss ↦ elim (Option-cases (update_bucket i d bs)) [
    | inl missing ↦ rw (miss, missing) tt
    | inr (cs, found) ↦
        rw (miss, found) (omega (arith, (rw found at (update_bucket-OnSome i d bs))))
  ]
]

pub update_bucket-held :
    (i : ℕ) (d : ℤ) (bs : List Bucket) {cs : List Bucket}
    → update_bucket i d bs ≡ some cs
    → held cs + neg_part d ≡ held bs + pos_part d
update_bucket-held i d bs u = rw u at (update_bucket-OnSome i d bs)

moved-Conserved :
    (now bucket : ℕ) (d : ℤ) (e : LedgerEntry) (s : Store) (bs : List Bucket)
    → update_bucket bucket d s.buckets ≡ some bs
    → Conserved s
    → Conserved (moved now bucket d e s bs)
moved-Conserved now bucket d e s bs u c =
    let row : LedgerEntry = record e {
      id = s.next_id;
      delta = d;
      balance_after = balance now bs;
      bucket_id = some bucket;
    } in
    omega (
      arith,
      update_bucket-held bucket d s.buckets u,
      sum_of-append (λ (x : LedgerEntry). neg_part x.delta) s.ledger (row ∷ []),
      sum_of-append (λ (x : LedgerEntry). pos_part x.delta) s.ledger (row ∷ []),
    )

pub move_tokens-Conserved :
    (now bucket : ℕ) (d : ℤ) (e : LedgerEntry) (s : Store)
    → Conserved s
    → OnOk (λ r. Conserved r.0) (move_tokens now bucket d e s)
move_tokens-Conserved now bucket d e s c = elim (Bool-cases (ledger_key_exists e.key s.ledger)) [
  | inl old ↦ rw (move_tokens_repeated now bucket d e s old) c
  | inr new ↦ elim (Option-cases (update_bucket bucket d s.buckets)) [
    | inl missing ↦ rw (move_tokens_refused now bucket d e s new missing) tt
    | inr (bs, u) ↦
        rw (move_tokens_done now bucket d e s new u) (moved-Conserved now bucket d e s bs u c)
  ]
]

added-Conserved :
    (now : ℕ) (b : Bucket) (e : LedgerEntry) (s : Store) → Conserved s → Conserved (added now b e s)
added-Conserved now b e s c = omega (
  arith,
  sum_of-append (λ (x : Bucket). x.remaining) s.buckets (new_bucket b s ∷ []),
  sum_of-append (λ (x : LedgerEntry). neg_part x.delta) s.ledger (added_row now b e s ∷ []),
  sum_of-append (λ (x : LedgerEntry). pos_part x.delta) s.ledger (added_row now b e s ∷ []),
)

pub add_bucket-Conserved :
    (now : ℕ) (b : Bucket) (e : LedgerEntry) (s : Store)
    → Conserved s
    → OnOk Conserved (add_bucket now b e s)
add_bucket-Conserved now b e s c = elim (Bool-cases (ledger_key_exists e.key s.ledger)) [
  | inl old ↦ rw (add_bucket_repeated now b e s old) c
  | inr new ↦ elim (Bool-cases (ltb 0 b.amount)) [
    | inl some_tokens ↦
        rw (add_bucket_done now b e s new (ltb→lt 0 b.amount some_tokens))
          (added-Conserved now b e s c)
    | inr no_tokens ↦ rw (add_bucket_refused now b e s new (ground arith)) tt
  ]
]

expire_bucket-Conserved :
    (now : ℕ) (b : Bucket) (s : Store) → Conserved s → OnOk Conserved (expire_bucket now b s)
unfolding expire_bucket
expire_bucket-Conserved now b s c = elim (Bool-cases (b.remaining == 0)) [
  | inl empty ↦ rw empty c
  | inr full ↦ rw full (
      OnOk-bind (λ r. Conserved r.0) Conserved _ _
        (move_tokens-Conserved now b.id (sub_ℕ 0 b.remaining) _ s c) (λ r h. h))
]

pub expire_all-Conserved :
    (now : ℕ) (bs : List Bucket) (s : Store) → Conserved s → OnOk Conserved (expire_all now bs s)
unfolding expire_all
expire_all-Conserved now [] s c = c
expire_all-Conserved now (b ∷ bs) s c =
    OnOk-bind Conserved Conserved (expire_bucket now b s) _ (expire_bucket-Conserved now b s c)
      (λ t h. expire_all-Conserved now bs t h)

pub grant_plan_tokens-Conserved :
    (cal : Calendar) (sub : Subscription) (now : ℕ) (key : Key) (s : Store)
    → Conserved s
    → OnOk Conserved (grant_plan_tokens cal sub now key s)
unfolding grant_plan_tokens
grant_plan_tokens-Conserved cal sub now key s c =
    elim (Bool-cases (ledger_key_exists key s.ledger)) [
      | inl old ↦ rw old c
      | inr new ↦ rw new (
          OnOk-bind Conserved Conserved (expire_all now (plan_grant_buckets s) s) _
            (expire_all-Conserved now (plan_grant_buckets s) s c)
            (λ t h. add_bucket-Conserved now _ _ t h))
    ]

-- An operation of the organisation keeps what its body keeps.
pub with_org-Conserved {ℓ κ} :
    {A : Type ℓ} (Q : A → Type κ) (cal : Calendar) (org now : ℕ)
    (body : Subscription → Store → Result A) (s : Store)
    → Conserved s
    → ((sub : Subscription) (t : Store) → Conserved t → OnOk Q (body sub t))
    → OnOk Q (with_org cal org now body s)
unfolding with_org
with_org-Conserved Q cal org now body s c k = elim (Option-cases s.subscription) [
  | inr (sub, known) ↦ rw (known, with_org) (k sub s c)
  | inl new ↦
      rw (new, with_org)
        (OnOk-bind Conserved Q _ _
          (grant_plan_tokens-Conserved cal (fresh_subscription cal org now) now (grant_initial org)
            (record s { subscription = some (fresh_subscription cal org now) }) c)
          (λ t h. k (fresh_subscription cal org now) t h))
]
