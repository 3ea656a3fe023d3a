-- ===== src/Billing/Audit/Loops.antt =====
-- internal/modules/billing/service.go: the loops of charging, refunding, delivering and renewing
-- keep the ledger in step with the buckets.
use guard_pipe.Prelude.{
  ℕ, suc, ◌-◌, zero, min, Bool, List, [], ◌∷◌, some, arith, leb, ◌==◌, ℤ, pos, negsuc, neg,
  Option-cases, Bool-cases, inl, inr,
}
use guard_pipe.Errors.{OnOk, OnOk-bind}
use guard_pipe.Billing.Catalog.{
  ItemCode, plan_item, topup_100k, topup_250k, topup_600k, other_item, packs,
}
use guard_pipe.Billing.Pricing.{QuoteLine, Quote}
use guard_pipe.Billing.Store.{
  Store, Bucket, LedgerEntry, Subscription, spendable_buckets, CheckoutSession, set_checkout_status,
  update_subscription, paid, expired_buckets,
}
use guard_pipe.Billing.Tokens.{Calendar}
use guard_pipe.Billing.Charge.{
  ChargeLine, ChargeRequest, spend, debit_row, charge_lines, charge_on, refund_debits, refund_row,
  adjust_on,
}
use guard_pipe.Billing.Checkout.{Outcome, start_plan, start_pack, deliver, fulfil, confirm_session}
use guard_pipe.Billing.Renewal.{renew_rounds, renew_locked, renew_subscription}
use guard_pipe.Billing.Conserved.{
  Conserved, move_tokens-Conserved, add_bucket-Conserved, expire_all-Conserved,
  grant_plan_tokens-Conserved,
}
use guard_pipe.Billing.History.{settled}

pub spend-Conserved :
    (row : ℕ → ℕ → Bucket → LedgerEntry) (now i owed : ℕ) (bs : List Bucket) (s : Store)
    → Conserved s
    → OnOk (λ r. Conserved r.1) (spend row now i owed bs s)
unfolding spend
spend-Conserved row now i owed [] s c = c
spend-Conserved row now i owed (b ∷ bs) s c = elim (Bool-cases (owed == 0)) [
  | inl settled ↦ rw (settled, spend) c
  | inr owing ↦ elim (Bool-cases (min b.remaining owed == 0)) [
    | inl nothing ↦
        rw (owing, nothing, spend)
          (OnOk-bind (λ r. Conserved r.1) (λ r. Conserved r.1) _ _
            (spend-Conserved row now (suc i) owed bs s c) (λ r h. h))
    | inr something ↦
        rw (owing, something, spend)
          (OnOk-bind (λ m. Conserved m.0) (λ r. Conserved r.1) _ _
            (move_tokens-Conserved now b.id _ (row i owed b) s c)
            (λ m k.
              OnOk-bind (λ r. Conserved r.1) (λ r. Conserved r.1) _ _
                (spend-Conserved row now (suc i) (owed - min b.remaining owed) bs m.0 k)
                (λ r h. h)))
  ]
]

pub charge_lines-Conserved :
    (req : ChargeRequest) (now : ℕ) (ls : List ChargeLine) (qs : List QuoteLine) (bs : List Bucket)
    (s : Store)
    → Conserved s
    → OnOk Conserved (charge_lines req now ls qs bs s)
unfolding charge_lines
charge_lines-Conserved req now [] qs bs s c = c
charge_lines-Conserved req now (l ∷ ls) [] bs s c = tt
charge_lines-Conserved req now (l ∷ ls) (q ∷ qs) bs s c =
    OnOk-bind (λ r. Conserved r.1) Conserved _ _
      (spend-Conserved (debit_row req l) now 0 q.tokens bs s c)
      (λ r h. charge_lines-Conserved req now ls qs r.0 r.1 h)

pub charge_on-Conserved :
    (req : ChargeRequest) (now : ℕ) (q : Quote) (sub : Subscription) (s : Store)
    → Conserved s
    → OnOk Conserved (charge_on req now q sub s)
unfolding charge_on
charge_on-Conserved req now q sub s c =
    ground (arith, charge_lines-Conserved req now req.lines q.lines (spendable_buckets now s) s c)

pub refund_debits-Conserved :
    (job now : ℕ) (ds : List LedgerEntry) (s : Store)
    → Conserved s
    → OnOk Conserved (refund_debits job now ds s)
unfolding refund_debits
refund_debits-Conserved job now [] s c = c
refund_debits-Conserved job now (d ∷ ds) s c = elim (Option-cases d.bucket_id) [
  | inl no_bucket ↦ rw (no_bucket, refund_debits) (refund_debits-Conserved job now ds s c)
  | inr (bucket, e) ↦
      rw (e, refund_debits)
        (OnOk-bind (λ m. Conserved m.0) Conserved _ _
          (move_tokens-Conserved now bucket (neg d.delta) (refund_row job d bucket) s c)
          (λ m h. refund_debits-Conserved job now ds m.0 h))
]

pub adjust_on-Conserved :
    (operator org now new : ℕ) (delta : ℤ) (s : Store)
    → Conserved s
    → OnOk Conserved (adjust_on operator org now new delta s)
unfolding adjust_on
adjust_on-Conserved operator org now new (pos n) s c = add_bucket-Conserved now _ _ s c
adjust_on-Conserved operator org now new (negsuc n) s c =
    OnOk-bind (λ r. Conserved r.1) Conserved _ _
      (spend-Conserved _ now 0 (suc n) (spendable_buckets now s) s c) (λ r h. h)

pub deliver-Conserved :
    (cal : Calendar) (item : ItemCode) (sess now : ℕ) (sub : Subscription) (s : Store)
    → Conserved s
    → OnOk Conserved (deliver cal item sess now sub s)
unfolding deliver start_plan start_pack packs update_subscription
deliver-Conserved cal (plan_item code) sess now sub s c =
    grant_plan_tokens-Conserved cal _ now _ (update_subscription _ s) c
deliver-Conserved cal topup_100k sess now sub s c = add_bucket-Conserved now _ _ s c
deliver-Conserved cal topup_250k sess now sub s c = add_bucket-Conserved now _ _ s c
deliver-Conserved cal topup_600k sess now sub s c = add_bucket-Conserved now _ _ s c
deliver-Conserved cal (other_item text) sess now sub s c = c

pub confirm_session-Conserved :
    (cal : Calendar) (k : CheckoutSession) (outcome : Outcome) (now : ℕ) (sub : Subscription)
    (s : Store)
    → Conserved s
    → OnOk (λ r. Conserved r.1) (confirm_session cal k outcome now sub s)
unfolding confirm_session fulfil set_checkout_status
confirm_session-Conserved cal k outcome now sub s c = ground (
  arith,
  deliver-Conserved cal k.item_code k.id now sub (set_checkout_status k.id paid (some now) s) c,
)

pub renew_rounds-Conserved :
    (cal : Calendar) (demo_renew : Bool) (now rounds : ℕ) (sub : Subscription) (s : Store)
    → Conserved s
    → OnOk (λ r. Conserved r.1) (renew_rounds cal demo_renew now rounds sub s)
unfolding renew_rounds update_subscription
renew_rounds-Conserved cal demo_renew now zero sub s c = c
renew_rounds-Conserved cal demo_renew now (suc rounds) sub s c =
    elim (Bool-cases (leb sub.next_grant_at now)) [
      | inr not_due ↦ rw (not_due, renew_rounds) c
      | inl due ↦
          let next = renew_subscription cal demo_renew sub in
          rw (due, renew_rounds)
            (OnOk-bind Conserved (λ r. Conserved r.1) _ _
              (grant_plan_tokens-Conserved cal next now _ (update_subscription next s) c)
              (λ t h. renew_rounds-Conserved cal demo_renew now rounds next t h))
    ]

pub renew_locked-Conserved :
    (cal : Calendar) (demo_renew : Bool) (now : ℕ) (sub : Subscription) (s : Store)
    → Conserved s
    → OnOk Conserved (renew_locked cal demo_renew now sub s)
unfolding renew_locked
renew_locked-Conserved cal demo_renew now sub s c =
    OnOk-bind (λ r. Conserved r.1) Conserved _ _
      (renew_rounds-Conserved cal demo_renew now 13 sub s c)
      (λ r h. expire_all-Conserved now (expired_buckets now r.1) r.1 h)
