-- ===== src/Billing/Retry.antt =====
-- internal/modules/billing/service.go: a charge, a refund or a payment that is repeated changes
-- nothing more, and a charge answers what the estimate said.
use guard_pipe.Prelude.{
  ℕ, ◌+◌, ◌<◌, ◌≡◌, refl, sym, subst, ==_refl, ◌∙◌, ap, true, false, ◌⊎◌, List, [], ◌∷◌, map, some,
  arith, ltb, leb, sum_of, All, keep, Bool-cases, inl, inr, neg_part,
}
use guard_pipe.Errors.{Result, AppError, ok, err, fail_with, payment_required, ok_inj}
use guard_pipe.Billing.Pricing.{Quote, QuoteLine, quote_scan}
use guard_pipe.Domain.Pentest.{PentestPreset}
use guard_pipe.Domain.Scan.{TriggerSource}
use guard_pipe.Billing.Pricing.Discount.{IsPriced, quote_scan-IsQuoteFor}
use guard_pipe.Billing.Store.{
  Store, Subscription, LedgerEntry, balance, spendable_buckets, debits_for_job, is_debit_of,
}
use guard_pipe.Billing.Tokens.{Calendar, plan_of}
use guard_pipe.Billing.Charge.{
  ChargeLine, ChargeRequest, charge_on, charge, already_charged, blocked_engines, is_empty,
  Estimate, estimate_on, plan_required,
}
use guard_pipe.Billing.Take.{DistinctIds, spendable_buckets-balance}
use guard_pipe.Billing.Spend.{job_debits, remaining_of}
use guard_pipe.Billing.Exact.{FreshJobs, ChargedExactly, owed_by, charge-exact, with_org_known}

abbrev pub insufficient_tokens : AppError
insufficient_tokens = fail_with payment_required "billing.insufficient_tokens"

is_empty-true {ℓ} : {A : Type ℓ} (xs : List A) → is_empty xs ≡ true → xs ≡ []
is_empty-true [] h = refl
is_empty-true (x ∷ xs) h = absurd (ground (arith, h))

is_empty-false {ℓ} : {A : Type ℓ} (f : A → ℕ) (xs : List A) → 0 < sum_of f xs → is_empty xs ≡ false
is_empty-false f [] h = absurd (omega (arith, h))
is_empty-false f (x ∷ xs) h = refl

-- What a charge may answer after an estimate.
abbrev pub Agrees : ℕ → Estimate → Store → Result Store → Type 0
Agrees now e s (ok s') =
    (e.plan_allowed ≡ true)
    × (e.affordable ≡ true)
    × (balance now s'.buckets + e.quote.total ≡ balance now s.buckets)
Agrees now e s (err x) =
    ((e.plan_allowed ≡ false) × (x ≡ plan_required))
    ⊎ ((e.plan_allowed ≡ true) × (e.affordable ≡ false) × (x ≡ insufficient_tokens))

module _ (cal : Calendar) (org now : ℕ) (req : ChargeRequest) (q : Quote) (sub : Subscription)
    (s : Store) (known : s.subscription ≡ some sub)
    (quoted : quote_scan (map (λ l. l.engine) req.lines) req.preset req.trigger ≡ some q)
    (asked : is_empty req.lines ≡ false) where
  charge-body : charge cal org now req s ≡ charge_on req now q sub s
  unfolding charge
  charge-body = rw (asked, quoted) (with_org_known cal org now (charge_on req now q) sub s known)

  -- A charge that was not made before answers what the estimate of the same request says: a plan
  -- that lacks an engine is refused first, then a balance below the quote's total, and otherwise
  -- the charge succeeds and the balance falls by that total. The organisation has a subscription,
  -- the request has lines and a price, no two lines are of one job, no job has debit keys, and
  -- the buckets have different identifiers.
  pub charge-estimate :
      already_charged req.lines s ≡ false
      → DistinctIds s.buckets
      → FreshJobs req.lines s.ledger
      → Agrees now
          (estimate_on now q (map (λ l. l.engine) req.lines) sub s)
          s
          (charge cal org now req s)
  unfolding estimate_on charge_on
  charge-estimate new distinct fresh =
      let engines = map (λ (l : ChargeLine). l.engine) req.lines in
      let same = spendable_buckets-balance now s in
      elim (Bool-cases (is_empty (blocked_engines (plan_of sub) engines))) [
        | inr blocked ↦ rw (charge-body, charge_on, new, blocked) (inl (refl, refl))
        | inl allowed ↦ elim (Bool-cases (leb q.total (balance now s.buckets))) [
          | inr poor ↦
              let short : ltb (remaining_of (spendable_buckets now s)) q.total ≡ true =
                ground (arith, same, poor) in
              rw (charge-body, charge_on, new, allowed, short) (inr (refl, poor, refl))
          | inl rich ↦
              let (s', run, exact) =
                charge-exact cal org now req q sub s known quoted (is_empty-true _ allowed) new
                  (ground (arith, rich)) distinct fresh in
              let (_, _, total) = quote_scan-IsQuoteFor _ req.preset req.trigger q quoted in
              rw run (allowed, rich, omega (arith, exact.0, total))
        ]
      ]

-- A priced charge leaves the first job debited.
charged-already :
    (preset : PentestPreset) (trigger : TriggerSource) (ls : List ChargeLine) (qs : List QuoteLine)
    (s s' : Store)
    → is_empty ls ≡ false
    → map (λ q. q.engine) qs ≡ map (λ l. l.engine) ls
    → All (IsPriced preset trigger) qs
    → ((j : ℕ) → job_debits j s'.ledger ≡ job_debits j s.ledger + owed_by j ls qs)
    → already_charged ls s' ≡ true
unfolding already_charged debits_for_job
charged-already preset trigger [] qs s s' asked names priced debited =
    absurd (ground (arith, asked))
charged-already preset trigger (l ∷ ls) [] s s' asked names priced debited =
    absurd (ground (arith, ap is_empty names))
charged-already preset trigger (l ∷ ls) (q ∷ qs) s s' asked names priced debited =
    let first : job_debits l.job_id s'.ledger
        ≡ job_debits l.job_id s.ledger + (q.tokens + owed_by l.job_id ls qs) =
      rw (==_refl l.job_id) at (debited l.job_id) in
    rw
      (is_empty-false (λ (e : LedgerEntry). neg_part e.delta)
        (keep (is_debit_of l.job_id) s'.ledger) (omega (arith, first, priced.0.positive)))
      refl

module _ (cal : Calendar) (org now later : ℕ) (req : ChargeRequest) (q : Quote) (sub : Subscription)
    (s s' : Store) where
  -- A charge that succeeded is not made again: at any later time the same request succeeds and
  -- changes nothing, when the organisation has a subscription, the request has lines and a
  -- price, no two lines are of one job, the jobs had no debit keys unless they were already
  -- charged, and the buckets have different identifiers.
  pub charge-twice :
      s.subscription ≡ some sub
      → quote_scan (map (λ l. l.engine) req.lines) req.preset req.trigger ≡ some q
      → is_empty req.lines ≡ false
      → DistinctIds s.buckets
      → (already_charged req.lines s ≡ true) ⊎ FreshJobs req.lines s.ledger
      → charge cal org now req s ≡ ok s'
      → charge cal org later req s' ≡ ok s'
  unfolding charge_on estimate_on
  charge-twice known quoted asked distinct fresh done =
      elim (Bool-cases (already_charged req.lines s)) [
        | inl old ↦
            let first : charge cal org now req s ≡ ok s =
              rw (charge-body cal org now req q sub s known quoted asked, charge_on, old) refl in
            let again : charge cal org later req s ≡ ok s =
              rw (charge-body cal org later req q sub s known quoted asked, charge_on, old) refl in
            subst (λ t. charge cal org later req t ≡ ok t) (ok_inj (sym first ∙ done)) again
        | inr new ↦
            let jobs : FreshJobs req.lines s.ledger = elim fresh [
              | inl old ↦ absurd (ground (arith, old, new))
              | inr f ↦ f
            ] in
            let agreed : Agrees now (estimate_on now q (map (λ l. l.engine) req.lines) sub s) s
                (ok s') =
              rw done at
                (charge-estimate cal org now req q sub s known quoted asked new distinct jobs) in
            let (t, run, exact) =
              charge-exact cal org now req q sub s known quoted (is_empty-true _ agreed.0) new
                (ground (arith, agreed.1)) distinct jobs in
            let same : t ≡ s' = ok_inj (sym run ∙ done) in
            let (_, kept, debited) = subst (ChargedExactly now req.lines q.lines s) same exact in
            let (names, priced, _) = quote_scan-IsQuoteFor _ req.preset req.trigger q quoted in
            let old : already_charged req.lines s' ≡ true =
              charged-already req.preset req.trigger req.lines q.lines s s' asked names priced
                debited in
            rw (charge-body cal org later req q sub s' (kept ∙ known) quoted asked, charge_on, old)
              refl
      ]
