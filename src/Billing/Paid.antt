-- ===== src/Billing/Paid.antt =====
-- internal/modules/billing/service.go, `ConfirmDemo`: a checkout is paid once.
use guard_pipe.Prelude.{
  ℕ, ◌≡◌, refl, sym, subst, ap, ◌∙◌, true, List, [], ◌∷◌, Option, none, some, arith, leb, ◌==◌,
  find?, is_some, Bool-cases, Option-cases, inl, inr,
}
use guard_pipe.Errors.{Result, ok, OnOk, OnOk-bind, OnOk-weaken, OnOk-ok, Result-cases}
use guard_pipe.Domain.Engine.{Actor}
use guard_pipe.Billing.Catalog.{
  PlanCode, ItemCode, plan_item, topup_100k, topup_250k, topup_600k, other_item, Pack, packs,
}
use guard_pipe.Billing.Store.{
  Store, Subscription, CheckoutSession, CheckoutStatus, paid, set_status, get_checkout,
  set_checkout_status, update_subscription,
}
use guard_pipe.Billing.Tokens.{Calendar}
use guard_pipe.Billing.Checkout.{
  Mode, Outcome, success, declined, Confirmed, done, was_declined, start_plan, start_pack, deliver,
  fulfil, confirm_session, confirm_on, confirm_demo, require_billing_admin, is_paid, is_pending,
  is_demo, settle,
}
use guard_pipe.Billing.Frame.{Keeps, add_bucket-Keeps, grant_plan_tokens-Keeps}
use guard_pipe.Billing.Exact.{with_org_known}

-- After the operation, the checkouts are those given and the organisation has a subscription.
abbrev Kept : List CheckoutSession → Store → Type 0
Kept cs t = (t.checkouts ≡ cs) × (is_some t.subscription ≡ true)

start_pack-Kept :
    (p : Option Pack) (sess now : ℕ) (sub : Subscription) (s : Store)
    → is_some s.subscription ≡ true
    → OnOk (Kept s.checkouts) (start_pack p sess now sub s)
unfolding start_pack
start_pack-Kept none sess now sub s k = (refl, k)
start_pack-Kept (some pack) sess now sub s k =
    OnOk-weaken (Keeps s) (Kept s.checkouts) _ (add_bucket-Keeps now _ _ s)
      (λ t h. (h.checkouts, rw h.subscription k))

start_plan-Kept :
    (cal : Calendar) (code : PlanCode) (sess now : ℕ) (sub : Subscription) (s : Store)
    → OnOk (Kept s.checkouts) (start_plan cal code sess now sub s)
unfolding start_plan update_subscription
start_plan-Kept cal code sess now sub s =
    OnOk-weaken (Keeps _) (Kept s.checkouts) _ (grant_plan_tokens-Keeps cal _ now _ _)
      (λ t h. (h.checkouts, rw h.subscription refl))

deliver-Kept :
    (cal : Calendar) (item : ItemCode) (sess now : ℕ) (sub : Subscription) (s : Store)
    → is_some s.subscription ≡ true
    → OnOk (Kept s.checkouts) (deliver cal item sess now sub s)
unfolding deliver
deliver-Kept cal (plan_item code) sess now sub s k = start_plan-Kept cal code sess now sub s
deliver-Kept cal topup_100k sess now sub s k = start_pack-Kept (packs topup_100k) sess now sub s k
deliver-Kept cal topup_250k sess now sub s k = start_pack-Kept (packs topup_250k) sess now sub s k
deliver-Kept cal topup_600k sess now sub s k = start_pack-Kept (packs topup_600k) sess now sub s k
deliver-Kept cal (other_item x) sess now sub s k =
    start_pack-Kept (packs (other_item x)) sess now sub s k

-- The row found with the identifier, after its status was set.
found-set_status :
    (i : ℕ) (st : CheckoutStatus) (t : ℕ) (cs : List CheckoutSession) (c : CheckoutSession)
    → find? (λ x. x.id == i) cs ≡ some c
    → find? (λ x. x.id == i) (set_status i st (some t) cs)
      ≡ some (record c { status = st; paid_at = some t })
unfolding set_status
found-set_status i st t [] c h = ground arith
found-set_status i st t (x ∷ xs) c h = elim (Bool-cases (x.id == i)) [
  | inl hit ↦ rw (hit, hit) (ground (arith, hit))
  | inr miss ↦ rw (miss, miss) (found-set_status i st t xs c (rw miss at h))
]

found-id :
    (i : ℕ) (cs : List CheckoutSession) (c : CheckoutSession)
    → find? (λ x. x.id == i) cs ≡ some c
    → c.id ≡ i
found-id i [] c h = ground arith
found-id i (x ∷ xs) c h = ground (arith, found-id i xs c)

-- What the transaction of a confirmation leaves when it reports a paid session.
abbrev Paid : ℕ → Confirmed × Store → Type 0
Paid i (done c, t) =
    (find? (λ x. x.id == i) t.checkouts ≡ some c)
    × (is_paid c.status ≡ true)
    × (is_some t.subscription ≡ true)
Paid i (was_declined, t) = Unit

confirm_session-Paid :
    (cal : Calendar) (i : ℕ) (c : CheckoutSession) (o : Outcome) (now : ℕ) (sub : Subscription)
    (s : Store)
    → find? (λ x. x.id == i) s.checkouts ≡ some c
    → is_some s.subscription ≡ true
    → OnOk (Paid i) (confirm_session cal c o now sub s)
unfolding confirm_session fulfil set_checkout_status
confirm_session-Paid cal i c declined now sub s f k = ground arith
confirm_session-Paid cal i c success now sub s f k = elim (Bool-cases (is_paid c.status)) [
  | inl already ↦ rw already (f, already, k)
  | inr unpaid ↦ elim (Bool-cases (is_pending c.status)) [
    | inr closed ↦ rw (unpaid, closed) tt
    | inl waiting ↦ elim (Bool-cases (leb c.expires_at now)) [
      | inl late ↦ rw (unpaid, waiting, late) tt
      | inr in_time ↦
          rw (unpaid, waiting, in_time)
            (OnOk-bind (Kept (set_status c.id paid (some now) s.checkouts)) (Paid i) _ _
              (deliver-Kept cal c.item_code c.id now sub _ k) (λ t h. (paid_row t h, refl, h.1)))
    ]
  ]
]
  where
    paid_row :
        (t : Store)
        → Kept (set_status c.id paid (some now) s.checkouts) t
        → find? (λ x. x.id == i) t.checkouts ≡ some (record c { status = paid; paid_at = some now })
    paid_row t h = rw h.0 (
        subst
          (λ n.
            find? (λ x. x.id == i) (set_status n paid (some now) s.checkouts)
            ≡ some (record c { status = paid; paid_at = some now }))
          (sym (found-id i s.checkouts c f)) (found-set_status i paid now s.checkouts c f))

get_checkout_found :
    (i : ℕ) (s : Store) (c : CheckoutSession)
    → get_checkout i s ≡ ok c
    → find? (λ x. x.id == i) s.checkouts ≡ some c
unfolding get_checkout
get_checkout_found i s c h = elim (Option-cases (find? (λ x. x.id == i) s.checkouts)) [
  | inl missing ↦ absurd (ground (arith, missing))
  | inr (d, f) ↦ ground (arith, f)
]

get_checkout_ok :
    (i : ℕ) (s : Store) (c : CheckoutSession)
    → find? (λ x. x.id == i) s.checkouts ≡ some c
    → get_checkout i s ≡ ok c
unfolding get_checkout
get_checkout_ok i s c f = rw (f, get_checkout) refl

confirm_on-Paid :
    (cal : Calendar) (i : ℕ) (o : Outcome) (now : ℕ) (sub : Subscription) (s : Store)
    → is_some s.subscription ≡ true
    → OnOk (Paid i) (confirm_on cal i o now sub s)
unfolding confirm_on
confirm_on-Paid cal i o now sub s k = elim (Result-cases (get_checkout i s)) [
  | inr (e, missing) ↦ rw (missing, confirm_on) tt
  | inl (c, f) ↦
      rw (f, confirm_on) (confirm_session-Paid cal i c o now sub s (get_checkout_found i s c f) k)
]

confirm_on-again :
    (cal : Calendar) (i : ℕ) (o : Outcome) (now : ℕ) (sub : Subscription) (s : Store)
    (c : CheckoutSession)
    → find? (λ x. x.id == i) s.checkouts ≡ some c
    → is_paid c.status ≡ true
    → confirm_on cal i o now sub s ≡ ok (done c, s)
unfolding confirm_on confirm_session
confirm_on-again cal i o now sub s c f p = rw (get_checkout_ok i s c f, confirm_session, p) refl

settle-ok :
    (s : Store) (m : Result (Confirmed × Store)) (c : CheckoutSession)
    → (settle s m).0 ≡ ok c
    → m ≡ ok (done c, (settle s m).1)
settle-ok s m c h = ground arith

module _ (cal : Calendar) (mode : Mode) (actor : Actor) (i : ℕ) where
  confirm_demo-body :
      (o : Outcome) (now : ℕ) (sub : Subscription) (s : Store)
      → is_demo mode ≡ true
      → require_billing_admin actor ≡ ok tt
      → s.subscription ≡ some sub
      → confirm_demo cal mode actor i o now s ≡ settle s (confirm_on cal i o now sub s)
  unfolding confirm_demo
  confirm_demo-body o now sub s d a k =
      rw (d, a)
        (ap (settle s) (with_org_known cal actor.org_id now (confirm_on cal i o now) sub s k))

  confirm_demo-refused :
      (o : Outcome) (now : ℕ) (s : Store) (c : CheckoutSession)
      → (confirm_demo cal mode actor i o now s).0 ≡ ok c
      → (is_demo mode ≡ true) × (require_billing_admin actor ≡ ok tt)
  unfolding confirm_demo
  confirm_demo-refused o now s c h = elim (Bool-cases (is_demo mode)) [
    | inr elsewhere ↦ absurd (ground (arith, elsewhere))
    | inl in_demo ↦ elim (Result-cases (require_billing_admin actor)) [
      | inr (e, refused) ↦ absurd (ground (arith, in_demo, refused))
      | inl (u, admin) ↦ (in_demo, admin)
    ]
  ]

  -- A checkout that was confirmed is paid, and confirming it again, at any later time and with
  -- either outcome, answers the same session and changes nothing, in an organisation that has a
  -- subscription.
  pub confirm-twice :
      (o again : Outcome) (now later : ℕ) (sub : Subscription) (s : Store) (c : CheckoutSession)
      → s.subscription ≡ some sub
      → (confirm_demo cal mode actor i o now s).0 ≡ ok c
      → let t = (confirm_demo cal mode actor i o now s).1 in
        (is_paid c.status ≡ true) × (confirm_demo cal mode actor i again later t ≡ (ok c, t))
  confirm-twice o again now later sub s c known paid_once =
      let (in_demo, admin) = confirm_demo-refused o now s c paid_once in
      let body = confirm_demo-body o now sub s in_demo admin known in
      let m = confirm_on cal i o now sub s in
      let t = (settle s m).1 in
      let settled : m ≡ ok (done c, t) = settle-ok s m c (rw body at paid_once) in
      let (found, is, sub') =
        OnOk-ok (Paid i) m settled (confirm_on-Paid cal i o now sub s (rw known refl)) in
      elim (Option-cases t.subscription) [
        | inl none_left ↦ absurd (ground (arith, sub', none_left))
        | inr (sub2, known2) ↦ rw body (
          is,
          confirm_demo-body again later sub2 t in_demo admin known2
              ∙ ap (settle t) (confirm_on-again cal i again later sub2 t c found is),
        )
      ]
