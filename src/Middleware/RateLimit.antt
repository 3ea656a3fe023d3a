-- ===== src/Middleware/RateLimit.antt =====
-- internal/transport/http/middleware/ratelimit.go : the fixed-window counter of each
-- key.
use guard_pipe.Prelude.{
  ℕ, suc, ◌+◌, ◌*◌, ◌-◌, zero, All-map, ◌≤◌, ◌≡◌, refl, sym, ◌∙◌, Bool, true, false, List, [], ◌∷◌,
  Option, none, some, if◌then◌else◌, ltb, leb, arith, All, Bool-cases, inl, inr,
}

pub record WindowCounter : Type 0 where
  pub count : ℕ
  pub reset_at : ℕ

-- Whether a request is allowed, and what is left of the window.
pub record Allowance : Type 0 where
  pub allowed : Bool
  pub retry_after : ℕ
  pub remaining : ℕ

module _ (limit window : ℕ) where
  -- A counter that is missing or whose window is over is replaced.
  unfoldable pub fresh_counter : ℕ → Option WindowCounter → WindowCounter
  fresh_counter now none = record { count = 0; reset_at = now + window }
  fresh_counter now (some c) =
      if ltb c.reset_at now then record { count = 0; reset_at = now + window } else c

  -- The step of `allow` at the key's own counter.
  unfoldable pub take_slot : ℕ → WindowCounter → Allowance × WindowCounter
  take_slot now c =
      if leb limit c.count
      then (record { allowed = false; retry_after = c.reset_at - now; remaining = 0 }, c)
      else (
        record { allowed = true; retry_after = 0; remaining = limit - suc c.count },
        record c { count = suc c.count },
      )

  unfoldable pub allow_at : ℕ → Option WindowCounter → Allowance × WindowCounter
  allow_at now c = take_slot now (fresh_counter now c)

  -- `allow`: the counters are a map from keys, which are client addresses.
  unfoldable pub allow :
      (ℕ → ℕ → Bool) → ℕ → ℕ → (ℕ → Option WindowCounter) → Allowance × (ℕ → Option WindowCounter)
  allow same now key counters =
      let (a, c) = allow_at now (counters key) in
      (a, λ k. if same k key then some c else counters k)

  -- How many of the requests of one key are allowed.
  unfoldable pub allowed_of : List ℕ → Option WindowCounter → ℕ
  allowed_of [] c = 0
  allowed_of (now ∷ times) c =
      let (a, c') = allow_at now c in (if a.allowed then 1 else 0) + allowed_of times (some c')

  allow_at-in_window :
      (now : ℕ) (c : WindowCounter) → now ≤ c.reset_at → allow_at now (some c) ≡ take_slot now c
  unfolding allow_at fresh_counter
  allow_at-in_window now c h =
      let current : ltb c.reset_at now ≡ false = ground (arith, h) in rw (allow_at, current) refl

  allow_at-opened :
      (now : ℕ) → allow_at now none ≡ take_slot now (record { count = 0; reset_at = now + window })
  unfolding allow_at fresh_counter
  allow_at-opened now = refl

  allow_at-expired :
      (now : ℕ) (c : WindowCounter)
      → ltb c.reset_at now ≡ true
      → allow_at now (some c) ≡ take_slot now (record { count = 0; reset_at = now + window })
  unfolding allow_at fresh_counter
  allow_at-expired now c over = rw (allow_at, fresh_counter, over) refl

  -- What is let through from this counter on, with what it has counted, is within a bound.
  abbrev Bounded : ℕ → ℕ → List ℕ → WindowCounter → Type 0
  Bounded bound k times c =
      All (λ t. t ≤ c.reset_at + k * window) times
      → c.count ≤ limit
      → allowed_of times (some c) + c.count ≤ bound

  take_slot-Bounded :
      (bound k now : ℕ) (times : List ℕ) (c : WindowCounter)
      → ((d : WindowCounter) → Bounded bound k times d)
      → All (λ t. t ≤ c.reset_at + k * window) times
      → c.count ≤ limit
      → (if (take_slot now c).0.allowed then 1 else 0)
          + allowed_of times (some (take_slot now c).1)
          + c.count
        ≤ bound
  unfolding take_slot
  take_slot-Bounded bound k now times c rest h le = elim (Bool-cases (leb limit c.count)) [
    | inl full ↦ rw (take_slot, full) (omega (arith, rest c h le))
    | inr free ↦
        let later = rest (record c { count = suc c.count }) h (ground (arith, free)) in
        rw (take_slot, free) (omega (arith, later))
  ]

  next_window :
      (now reset n t : ℕ)
      → ltb reset now ≡ true
      → t ≤ reset + suc n * window
      → t ≤ now + window + n * window
  next_window now reset n t over le = ground (arith, over, le)

  one_more :
      (n taken counted : ℕ)
      → taken ≤ suc n * limit
      → counted ≤ limit
      → taken + counted ≤ suc (suc n) * limit
  one_more n taken counted h le = omega (arith, h, le)

  -- A request after the window opens the next one.
  next_window-Bounded :
      (now : ℕ) (times : List ℕ)
      → ((n : ℕ) (d : WindowCounter) → Bounded (suc n * limit) n times d)
      → (k : ℕ) (c : WindowCounter) → ltb c.reset_at now ≡ true
      → All (λ t. t ≤ c.reset_at + k * window) (now ∷ times)
      → c.count ≤ limit
      → let r = take_slot now (record { count = 0; reset_at = now + window }) in
        (if r.0.allowed then 1 else 0) + allowed_of times (some r.1) + c.count ≤ suc k * limit
  next_window-Bounded now times later zero c over h le =
      let h0 = h.0 in absurd (ground (arith, over, h0))
  next_window-Bounded now times later (suc n) c over h le =
      let opened : WindowCounter = record { count = 0; reset_at = now + window } in
      let within =
        All-map (λ t. t ≤ c.reset_at + suc n * window) (λ t. t ≤ now + window + n * window) times
          (λ t le. next_window now c.reset_at n t over le) h.1 in
      let rest =
        take_slot-Bounded (suc n * limit) n now times opened (later n) within (omega arith) in
      one_more n _ c.count (omega (arith, rest)) le

  allowed_of-windows :
      (times : List ℕ) (k : ℕ) (c : WindowCounter) → Bounded (suc k * limit) k times c
  unfolding allowed_of
  allowed_of-windows [] k c h le = omega (arith, le)
  allowed_of-windows (now ∷ times) k c h le = elim (Bool-cases (ltb c.reset_at now)) [
    | inr current ↦
        rw (allow_at-in_window now c (ground (arith, current)))
          (take_slot-Bounded (suc k * limit) k now times c (allowed_of-windows times k) h.1 le)
    | inl over ↦
        rw (allow_at-expired now c over)
          (next_window-Bounded now times (allowed_of-windows times) k c over h le)
  ]

  -- Of the requests of one address that come within so many windows of its first, one or more and one
  -- after another, at most `limit` for each window are allowed: also when windows end, and in whatever
  -- order the clock shows the times.
  pub allowed_of-limit :
      (start k : ℕ) (times : List ℕ)
      → All (λ t. t ≤ start + suc k * window) times
      → allowed_of (start ∷ times) none ≤ suc k * limit
  unfolding allowed_of
  allowed_of-limit start k times h =
      let opened : WindowCounter = record { count = 0; reset_at = start + window } in
      let within =
        All-map (λ t. t ≤ start + suc k * window) (λ t. t ≤ opened.reset_at + k * window) times
          (λ t le. omega (arith, le)) h in
      let counted =
        allowed_of-windows (start ∷ times) k opened (omega arith, within) (omega arith) in
      let same : allow_at start none ≡ allow_at start (some opened) =
        allow_at-opened start ∙ sym (allow_at-in_window start opened (omega arith)) in
      rw same (omega (arith, counted))
