-- ===== src/Billing/Frame.antt =====
-- internal/modules/billing/service.go: what the balance changes leave alone: the subscription, the
-- checkouts, and every key of the ledger.
use guard_pipe.Prelude.{
  ℕ, ◌≡◌, refl, ◌∙◌, List, [], ◌∷◌, arith, ◌==◌, Bool-cases, Option-cases, inl, inr, ℤ, sub_ℕ, ltb,
  ltb→lt,
}
use guard_pipe.Errors.{Result, OnOk, OnOk-bind, OnOk-weaken}
use guard_pipe.Billing.Store.{
  Store, Bucket, Subscription, LedgerEntry, Key, ledger_key_exists, update_bucket,
  plan_grant_buckets,
}
use guard_pipe.Billing.Tokens.{
  Calendar, move_tokens, move_tokens_repeated, move_tokens_refused, move_tokens_done, add_bucket,
  add_bucket_repeated, add_bucket_refused, add_bucket_done, expire_bucket, expire_all,
  grant_plan_tokens, with_org,
}

-- `s'` comes from `s` by balance changes.
pub record Keeps (s s' : Store) : Type 0 where
  pub subscription : s'.subscription ≡ s.subscription
  pub checkouts : s'.checkouts ≡ s.checkouts

pub Keeps-refl : (s : Store) → Keeps s s
Keeps-refl s = record { subscription = refl; checkouts = refl }

pub Keeps-trans : {a b c : Store} → Keeps a b → Keeps b c → Keeps a c
Keeps-trans p q = record {
  subscription = q.subscription ∙ p.subscription;
  checkouts = q.checkouts ∙ p.checkouts;
}

pub move_tokens-Keeps :
    (now bucket : ℕ) (d : ℤ) (e : LedgerEntry) (s : Store)
    → OnOk (λ r. Keeps s r.0) (move_tokens now bucket d e s)
move_tokens-Keeps now bucket d e s = elim (Bool-cases (ledger_key_exists e.key s.ledger)) [
  | inl old ↦ rw (move_tokens_repeated now bucket d e s old) (Keeps-refl s)
  | inr new ↦ elim (Option-cases (update_bucket bucket d s.buckets)) [
    | inl missing ↦ rw (move_tokens_refused now bucket d e s new missing) tt
    | inr (bs, u) ↦
        rw (move_tokens_done now bucket d e s new u)
          (record { subscription = refl; checkouts = refl })
  ]
]

pub add_bucket-Keeps :
    (now : ℕ) (b : Bucket) (e : LedgerEntry) (s : Store) → OnOk (Keeps s) (add_bucket now b e s)
add_bucket-Keeps now b e s = elim (Bool-cases (ledger_key_exists e.key s.ledger)) [
  | inl old ↦ rw (add_bucket_repeated now b e s old) (Keeps-refl s)
  | inr new ↦ elim (Bool-cases (ltb 0 b.amount)) [
    | inl some_tokens ↦
        rw (add_bucket_done now b e s new (ltb→lt 0 b.amount some_tokens))
          (record { subscription = refl; checkouts = refl })
    | inr no_tokens ↦ rw (add_bucket_refused now b e s new (ground arith)) tt
  ]
]

expire_bucket-Keeps : (now : ℕ) (b : Bucket) (s : Store) → OnOk (Keeps s) (expire_bucket now b s)
unfolding expire_bucket
expire_bucket-Keeps now b s = elim (Bool-cases (b.remaining == 0)) [
  | inl empty ↦ rw empty (Keeps-refl s)
  | inr full ↦ rw full (
      OnOk-bind (λ r. Keeps s r.0) (Keeps s) _ _
        (move_tokens-Keeps now b.id (sub_ℕ 0 b.remaining) _ s) (λ r h. h))
]

expire_all-Keeps : (now : ℕ) (bs : List Bucket) (s : Store) → OnOk (Keeps s) (expire_all now bs s)
unfolding expire_all
expire_all-Keeps now [] s = Keeps-refl s
expire_all-Keeps now (b ∷ bs) s =
    OnOk-bind (Keeps s) (Keeps s) (expire_bucket now b s) _ (expire_bucket-Keeps now b s) (λ t h.
      OnOk-weaken (Keeps t) (Keeps s) _ (expire_all-Keeps now bs t) (λ u k. Keeps-trans h k))

pub grant_plan_tokens-Keeps :
    (cal : Calendar) (sub : Subscription) (now : ℕ) (key : Key) (s : Store)
    → OnOk (Keeps s) (grant_plan_tokens cal sub now key s)
unfolding grant_plan_tokens
grant_plan_tokens-Keeps cal sub now key s = elim (Bool-cases (ledger_key_exists key s.ledger)) [
  | inl old ↦ rw old (Keeps-refl s)
  | inr new ↦ rw new (
      OnOk-bind (Keeps s) (Keeps s) (expire_all now (plan_grant_buckets s) s) _
        (expire_all-Keeps now (plan_grant_buckets s) s)
        (λ t h.
          OnOk-weaken (Keeps t) (Keeps s) _ (add_bucket-Keeps now _ _ t) (λ u k. Keeps-trans h k)))
]

-- What a body gives for every subscription, the operation on the organisation gives.
pub with_org-OnOk {ℓ κ} :
    {A : Type ℓ} (Q : A → Type κ) (cal : Calendar) (org now : ℕ)
    (body : Subscription → Store → Result A) (s : Store)
    → ((sub : Subscription) (t : Store) → OnOk Q (body sub t))
    → OnOk Q (with_org cal org now body s)
unfolding with_org
with_org-OnOk Q cal org now body s k = elim (Option-cases s.subscription) [
  | inr (sub, known) ↦ rw (known, with_org) (k sub s)
  | inl new ↦
      rw (new, with_org)
        (OnOk-bind (Keeps _) Q _ _ (grant_plan_tokens-Keeps cal _ now _ _) (λ t h. k _ t))
]
