-- ===== src/Billing/Exact.antt =====
-- internal/modules/billing/service.go, `Charge`: what an organisation that can pay is charged.
use guard_pipe.Prelude.{
  ℕ, ◌+◌, ◌≤◌, ◌≡◌, refl, sym, subst, ◌∙◌, ap, true, false, List, [], ◌∷◌, map, some, arith, ltb,
  ◌==◌, if◌then◌else◌, sum_of, All, length, length-map, Bool-cases, inl, inr,
}
use guard_pipe.Errors.{Result, ok}
use guard_pipe.Billing.Pricing.{Quote, QuoteLine, quote_scan}
use guard_pipe.Billing.Pricing.Discount.{quote_scan-IsQuoteFor}
use guard_pipe.Billing.Store.{Store, Bucket, Subscription, LedgerEntry, balance, spendable_buckets}
use guard_pipe.Billing.Tokens.{Calendar, plan_of, with_org}
use guard_pipe.Billing.Charge.{
  ChargeLine, ChargeRequest, charge_lines, charge_on, charge, already_charged, blocked_engines,
  is_empty,
}
use guard_pipe.Billing.Take.{
  DistinctIds, IsCurrent, spendable_buckets-IsCurrent, spendable_buckets-balance,
}
use guard_pipe.Billing.Spend.{
  job_debits, Unkeyed, Unkeyed-exists, Undebited, remaining_of, Spent, spend-Spent,
}

Unkeyed-Undebited :
    (job : ℕ) (l : List LedgerEntry) (bs : List Bucket) → Unkeyed job l → Undebited job l bs
Unkeyed-Undebited job l [] u = tt
Unkeyed-Undebited job l (b ∷ bs) u = (Unkeyed-exists job b.id l u, Unkeyed-Undebited job l bs u)

-- No two lines are of one job, and no job of a line has a debit key in the ledger.
abbrev pub FreshJobs : List ChargeLine → List LedgerEntry → Type 0
FreshJobs [] l = Unit
FreshJobs (x ∷ xs) l =
    Unkeyed x.job_id l × All (λ y. (x.job_id == y.job_id) ≡ false) xs × FreshJobs xs l

abbrev pub tokens_of : List QuoteLine → ℕ
tokens_of = sum_of λ q. q.tokens

-- What the lines of one job are priced at.
abbrev pub owed_by : ℕ → List ChargeLine → List QuoteLine → ℕ
owed_by job [] qs = 0
owed_by job (l ∷ ls) [] = 0
owed_by job (l ∷ ls) (q ∷ qs) = (if l.job_id == job then q.tokens else 0) + owed_by job ls qs

-- From the store before a charge to the one after it.
abbrev pub ChargedExactly : ℕ → List ChargeLine → List QuoteLine → Store → Store → Type 0
ChargedExactly now ls qs s s' =
    (balance now s'.buckets + tokens_of qs ≡ balance now s.buckets)
    × (s'.subscription ≡ s.subscription)
    × ((j : ℕ) → job_debits j s'.ledger ≡ job_debits j s.ledger + owed_by j ls qs)

module _ (req : ChargeRequest) (now : ℕ) where
  -- The first line changes nothing of the others.
  FreshJobs-after :
      (l : ChargeLine) (owed : ℕ) (bs bs' : List Bucket) (s s' : Store) (ls : List ChargeLine)
      → Spent req l now owed bs bs' s s'
      → All (λ y. (l.job_id == y.job_id) ≡ false) ls
      → FreshJobs ls s.ledger
      → FreshJobs ls s'.ledger
  FreshJobs-after l owed bs bs' s s' [] p n f = tt
  FreshJobs-after l owed bs bs' s s' (x ∷ xs) p n f =
      (p.other_keys x.job_id n.0 f.0, f.1, FreshJobs-after l owed bs bs' s s' xs p n.1 f.2)

  debited-first :
      (l : ChargeLine) (owed j : ℕ) (bs bs' : List Bucket) (s s' : Store)
      → Spent req l now owed bs bs' s s'
      → job_debits j s'.ledger ≡ job_debits j s.ledger + (if l.job_id == j then owed else 0)
  debited-first l owed j bs bs' s s' p = elim (Bool-cases (l.job_id == j)) [
    | inl same ↦
        let e : l.job_id ≡ j = ground (arith, same) in
        rw same (subst (λ i. job_debits i s'.ledger ≡ job_debits i s.ledger + owed) e p.debited)
    | inr other ↦ rw other (omega (arith, p.other_jobs j other))
  ]

  pub charge_lines-exact :
      (ls : List ChargeLine) (qs : List QuoteLine) (bs : List Bucket) (s : Store)
      → length ls ≡ length qs
      → All (IsCurrent now s.buckets) bs
      → DistinctIds bs
      → FreshJobs ls s.ledger
      → tokens_of qs ≤ remaining_of bs
      → (s' : Store) × (charge_lines req now ls qs bs s ≡ ok s') × ChargedExactly now ls qs s s'
  unfolding charge_lines
  charge_lines-exact [] [] bs s e c d f h = (s, refl, (omega arith, refl, λ j. omega arith))
  charge_lines-exact [] (q ∷ qs) bs s e c d f h = absurd (omega (arith, e))
  charge_lines-exact (l ∷ ls) [] bs s e c d f h = absurd (omega (arith, e))
  charge_lines-exact (l ∷ ls) (q ∷ qs) bs s e c d f h =
      let (bs1, s1, run, p) =
        spend-Spent req l now 0 q.tokens bs s c d (Unkeyed-Undebited l.job_id s.ledger bs f.0)
          (omega (arith, h)) in
      let (s2, rest, (less, kept, others)) =
        charge_lines-exact ls qs bs1 s1 (omega (arith, e)) p.current p.distinct
          (FreshJobs-after l q.tokens bs bs1 s s1 ls p f.1 f.2) (omega (arith, h, p.left)) in
      (
        s2,
        rw run rest,
        (
          omega (arith, less, p.balance_less),
          kept ∙ p.same_subscription,
          λ j. omega (arith, others j, debited-first l q.tokens j bs bs1 s s1 p),
        ),
      )

nothing_asked :
    (now : ℕ) (ls : List ChargeLine) (qs : List QuoteLine) (s : Store)
    → is_empty ls ≡ true
    → length ls ≡ length qs
    → ChargedExactly now ls qs s s
nothing_asked now [] [] s e h = (omega arith, refl, λ j. omega arith)
nothing_asked now [] (q ∷ qs) s e h = absurd (omega (arith, h))
nothing_asked now (l ∷ ls) qs s e h = absurd (ground (arith, e))

pub with_org_known {ℓ} :
    {A : Type ℓ} (cal : Calendar) (org now : ℕ) (body : Subscription → Store → Result A)
    (sub : Subscription) (s : Store)
    → s.subscription ≡ some sub
    → with_org cal org now body s ≡ body sub s
unfolding with_org
with_org_known cal org now body sub s known = rw known refl

charge_on-accepted :
    (req : ChargeRequest) (now : ℕ) (q : Quote) (sub : Subscription) (s : Store)
    → blocked_engines (plan_of sub) (map (λ l. l.engine) req.lines) ≡ []
    → already_charged req.lines s ≡ false
    → q.total ≤ balance now s.buckets
    → charge_on req now q sub s ≡ charge_lines req now req.lines q.lines (spendable_buckets now s) s
unfolding charge_on
charge_on-accepted req now q sub s allowed new enough =
    let funded : ltb (remaining_of (spendable_buckets now s)) q.total ≡ false =
      ground (arith, spendable_buckets-balance now s, enough) in
    rw (new, allowed, funded) refl

-- An organisation with a subscription, allowed every engine asked for and holding the quote's
-- total, is charged: the charge succeeds, its balance falls by the total and each job is
-- debited what its lines are priced at (another job nothing), when no two lines are of one job, no
-- job was debited before and the buckets have different identifiers.
pub charge-exact :
    (cal : Calendar) (org now : ℕ) (req : ChargeRequest) (q : Quote) (sub : Subscription)
    (s : Store)
    → s.subscription ≡ some sub
    → quote_scan (map (λ l. l.engine) req.lines) req.preset req.trigger ≡ some q
    → blocked_engines (plan_of sub) (map (λ l. l.engine) req.lines) ≡ []
    → already_charged req.lines s ≡ false
    → q.total ≤ balance now s.buckets
    → DistinctIds s.buckets
    → FreshJobs req.lines s.ledger
    → (s' : Store) × (charge cal org now req s ≡ ok s') × ChargedExactly now req.lines q.lines s s'
unfolding charge
charge-exact cal org now req q sub s known quoted allowed new enough distinct fresh =
    let (names, _, total) = quote_scan-IsQuoteFor _ req.preset req.trigger q quoted in
    let (current, apart) = spendable_buckets-IsCurrent now s distinct in
    let lengths : length req.lines ≡ length q.lines =
      sym (length-map (λ (l : ChargeLine). l.engine) req.lines)
      ∙ sym (ap length names)
      ∙ length-map (λ (l : QuoteLine). l.engine) q.lines in
    elim (Bool-cases (is_empty req.lines)) [
      | inl none_asked ↦
          (s, rw none_asked refl, nothing_asked now req.lines q.lines s none_asked lengths)
      | inr asked ↦
          let (s', run, exact) =
            charge_lines-exact req now req.lines q.lines (spendable_buckets now s) s lengths current
              apart fresh (omega (arith, enough, spendable_buckets-balance now s, total)) in
          (
            s',
            rw (asked, quoted)
                (with_org_known cal org now (charge_on req now q) sub s known
                  ∙ charge_on-accepted req now q sub s allowed new enough
                  ∙ run),
            exact,
          )
    ]
