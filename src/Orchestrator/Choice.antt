-- ===== src/Orchestrator/Choice.antt =====
-- internal/modules/orchestrator/service.go: a scan runs only what is registered and can run, and is
-- charged what its preview said.
use guard_pipe.Prelude.{
  ℕ, ◌≡◌, refl, ap, Bool, true, false, ◌&&◌, List, [], ◌∷◌, Option, none, some, if◌then◌else◌,
  arith, keep, all, and_true, Bool-cases, inl, inr, Option-cases,
}
use mathlib.Core.Path.{fun_ext}
use guard_pipe.Errors.{ok, OnOk, OnOk-bind, OnOk-weaken, Result-cases}
use guard_pipe.Domain.Engine.{
  EngineId, pentest, docreview, engine_eq, engine_eq_refl, contains_engine,
}
use guard_pipe.Domain.Pentest.{PentestPreset, PentestScanConfig}
use guard_pipe.Domain.Scan.{
  ScanType, full_supply_chain, partial, pentest_only, other_scan_type, scan_type_valid,
  TriggerSource,
}
use guard_pipe.Billing.Catalog.{Plan, allows, engine_price, is_live_trigger}
use guard_pipe.Billing.Charge.{allowed_engines, is_empty}
use guard_pipe.Billing.Pricing.{QuoteLine, quote_scan, quote_line, full_price, round_up_50}
use guard_pipe.Orchestrator.Engines.{
  TargetAnswer, attested, Project, ScanRequest, engine_requires_repository, has_attested_target,
  runnable, check_engines, engines_for, resolve_engines, scan_engines, scan_config, charged_preset,
  previewed_preset, is_full,
}

full_price-preset :
    (e : EngineId) (a b : PentestPreset) (base : ℕ)
    → engine_eq e pentest ≡ false
    → full_price e a base ≡ full_price e b base
unfolding full_price
full_price-preset e a b base n = rw (full_price, n) refl

quote_line-preset :
    (e : EngineId) (a b : PentestPreset) (t : TriggerSource)
    → engine_eq e pentest ≡ false
    → quote_line e a t ≡ quote_line e b t
unfolding quote_line
quote_line-preset e a b t n =
    ap (λ (f : ℕ → ℕ). line_at f) (fun_ext λ base. full_price-preset e a b base n)
  where
    line_at : (ℕ → ℕ) → Option QuoteLine
    line_at full = elim (engine_price e) [
      | none ↦ none
      | some base ↦ some (record {
        engine = e;
        full_tokens = full base;
        tokens = if is_live_trigger t then round_up_50 (full base) 2 else full base;
      })
    ]

quote_preset :
    (es : List EngineId) (a b : PentestPreset) (t : TriggerSource)
    → contains_engine es pentest ≡ false
    → quote_scan es a t ≡ quote_scan es b t
unfolding quote_scan contains_engine
quote_preset [] a b t n = refl
quote_preset (e ∷ es) a b t n =
    let line = quote_line-preset e a b t (ground (arith, n)) in
    let rest = quote_preset es a b t (ground (arith, n)) in
    elim (Option-cases (quote_line e b t)) [
      | inl no_line ↦ rw (quote_scan, line, no_line) refl
      | inr (l, found) ↦ rw (quote_scan, line, found, rest) refl
    ]

charged_preset-tested :
    (ceiling : PentestScanConfig) (req : ScanRequest) (es : List EngineId)
    → contains_engine es pentest ≡ true
    → charged_preset ceiling req es ≡ previewed_preset ceiling req
unfolding charged_preset scan_config previewed_preset
charged_preset-tested ceiling req es tested = rw (charged_preset, scan_config, tested) refl

-- The quote of a preview is the quote that the scan is charged, whatever its engines, request,
-- ceiling and trigger.
pub preview-charge :
    (ceiling : PentestScanConfig) (req : ScanRequest) (es : List EngineId) (t : TriggerSource)
    → quote_scan es (previewed_preset ceiling req) t
      ≡ quote_scan es (charged_preset ceiling req es) t
preview-charge ceiling req es t = elim (Bool-cases (contains_engine es pentest)) [
  | inl tested ↦ rw (charged_preset-tested ceiling req es tested) refl
  | inr untested ↦ quote_preset es _ _ t untested
]

abbrev pub is_attested : TargetAnswer → Bool
is_attested attested = true
is_attested _ = false

-- Whether the engine is registered, and the project has what it needs.
abbrev pub can_run : Project → EngineId → Bool
can_run p e = contains_engine p.registered e && has_what_it_needs p e
  where
    has_what_it_needs : Project → EngineId → Bool
    has_what_it_needs p pentest = is_attested p.target
    has_what_it_needs p docreview = true
    has_what_it_needs p _ = p.has_repository

runnable-can_run :
    (p : Project) (t : Bool) (e : EngineId)
    → has_attested_target p.target ≡ ok t
    → contains_engine p.registered e ≡ true
    → runnable p.has_repository t e ≡ true
    → can_run p e ≡ true
unfolding runnable has_attested_target engine_requires_repository engine_eq
runnable-can_run p t e a c r = ground (arith, a, c, r)

all-cons :
    (f : EngineId → Bool) (e : EngineId) (es : List EngineId)
    → f e ≡ true
    → all f es ≡ true
    → all f (e ∷ es) ≡ true
all-cons f e es h k = rw (h, k) refl

check_engines_next :
    (p : Project) (t : Bool) (e : EngineId) (es : List EngineId)
    → contains_engine p.registered e ≡ true
    → runnable p.has_repository t e ≡ true
    → check_engines p t (e ∷ es) ≡ check_engines p t es
unfolding check_engines
check_engines_next p t e es there able = rw (check_engines, there, able) refl

check_engines-can_run :
    (p : Project) (t : Bool) (es : List EngineId)
    → has_attested_target p.target ≡ ok t
    → OnOk (λ _. all (can_run p) es ≡ true) (check_engines p t es)
unfolding check_engines
check_engines-can_run p t [] a = refl
check_engines-can_run p t (e ∷ es) a = elim (Bool-cases (contains_engine p.registered e)) [
  | inr missing ↦ rw (check_engines, missing) tt
  | inl there ↦ elim (Bool-cases (runnable p.has_repository t e)) [
    | inr unable ↦ rw (check_engines, there, unable) tt
    | inl able ↦ rw (check_engines_next p t e es there able) (
        OnOk-weaken (λ _. all (can_run p) es ≡ true) (λ _. all (can_run p) (e ∷ es) ≡ true) _
          (check_engines-can_run p t es a)
          (λ _ h. all-cons (can_run p) e es (runnable-can_run p t e a there able) h))
  ]
]

contains-weaken :
    (d e : EngineId) (es : List EngineId)
    → contains_engine es e ≡ true
    → contains_engine (d ∷ es) e ≡ true
unfolding contains_engine
contains-weaken d e es h = rw (contains_engine, h) (ground arith)

keep-can_run :
    (p : Project) (t : Bool) (es : List EngineId)
    → has_attested_target p.target ≡ ok t
    → all (contains_engine p.registered) es ≡ true
    → all (can_run p) (keep (runnable p.has_repository t) es) ≡ true
keep-can_run p t [] a c = refl
keep-can_run p t (e ∷ es) a c =
    let (here, rest) = and_true c in
    elim (Bool-cases (runnable p.has_repository t e)) [
      | inr unable ↦ rw unable (keep-can_run p t es a rest)
      | inl able ↦ rw able (
          all-cons (can_run p) e _ (runnable-can_run p t e a here able)
            (keep-can_run p t es a rest))
    ]

all-weaken :
    (d : EngineId) (xs ys : List EngineId)
    → all (contains_engine xs) ys ≡ true
    → all (contains_engine (d ∷ xs)) ys ≡ true
all-weaken d xs [] h = refl
all-weaken d xs (y ∷ ys) h =
    let (here, rest) = and_true h in
    all-cons (contains_engine (d ∷ xs)) y ys (contains-weaken d y xs here) (all-weaken d xs ys rest)

all_self : (es : List EngineId) → all (contains_engine es) es ≡ true
unfolding contains_engine
all_self [] = refl
all_self (e ∷ es) =
    all-cons (contains_engine (e ∷ es)) e es (rw (contains_engine, engine_eq_refl e) refl)
      (all-weaken e es es (all_self es))

pub allowed-all :
    (f : EngineId → Bool) (plan : Plan) (es : List EngineId)
    → all f es ≡ true
    → all f (allowed_engines plan es) ≡ true
unfolding allowed_engines
allowed-all f plan [] h = refl
allowed-all f plan (e ∷ es) h =
    let (here, rest) = and_true h in
    elim (Bool-cases (allows plan e)) [
      | inr excluded ↦ rw excluded (allowed-all f plan es rest)
      | inl included ↦ rw included (all-cons f e _ here (allowed-all f plan es rest))
    ]

pentest-can_run :
    (p : Project)
    → has_attested_target p.target ≡ ok true
    → contains_engine p.registered pentest ≡ true
    → all (can_run p) (pentest ∷ []) ≡ true
unfolding runnable engine_eq
pentest-can_run p a there =
    all-cons (can_run p) pentest [] (runnable-can_run p true pentest a there refl) refl

module _ (p : Project) (t : Bool) (req : ScanRequest)
    (a : has_attested_target p.target ≡ ok t) where
  engines_for_type :
      (st : ScanType)
      → req.scan_type ≡ st
      → OnOk (λ es. all (can_run p) es ≡ true) (engines_for p t req)
  unfolding engines_for
  engines_for_type pentest_only e = elim (Bool-cases (contains_engine p.registered pentest)) [
    | inr missing ↦ rw (engines_for, e, missing) tt
    | inl there ↦ elim (Bool-cases t) [
      | inr unattested ↦ rw (engines_for, e, there, unattested) tt
      | inl has ↦ rw (engines_for, e, there, has) (pentest-can_run p (rw has at a) there)
    ]
  ]
  engines_for_type partial e = elim (Bool-cases (is_empty req.engines)) [
    | inl none_named ↦ rw (engines_for, e, none_named) tt
    | inr named ↦
        rw (engines_for, e, named)
          (OnOk-bind (λ _. all (can_run p) req.engines ≡ true) (λ es. all (can_run p) es ≡ true) _ _
            (check_engines-can_run p t req.engines a) (λ _ h. h))
  ]
  engines_for_type full_supply_chain e =
      rw (engines_for, e) (keep-can_run p t p.registered a (all_self p.registered))
  engines_for_type (other_scan_type s) e =
      rw (engines_for, e) (keep-can_run p t p.registered a (all_self p.registered))

pub resolve_engines-can_run :
    (p : Project) (req : ScanRequest)
    → OnOk (λ es. all (can_run p) es ≡ true) (resolve_engines p req)
unfolding resolve_engines
resolve_engines-can_run p req = elim (Result-cases (has_attested_target p.target)) [
  | inr (x, failed) ↦ rw (resolve_engines, failed) tt
  | inl (t, a) ↦ rw (resolve_engines, a) (engines_for_type p t req a req.scan_type refl)
]

-- Whatever is asked for, and whatever the plan, every engine of a new scan is registered and has
-- what it needs: a pentest an attested target, docreview nothing, every other engine a repository.
pub scan_engines-can_run :
    (plan : Option Plan) (p : Project) (req : ScanRequest)
    → OnOk (λ es. all (can_run p) es ≡ true) (scan_engines plan p req)
unfolding scan_engines
scan_engines-can_run plan p req = elim (Bool-cases (scan_type_valid req.scan_type)) [
  | inr unknown ↦ rw (scan_engines, unknown) tt
  | inl known ↦
      rw (scan_engines, known)
        (OnOk-bind (λ es. all (can_run p) es ≡ true) (λ es. all (can_run p) es ≡ true)
          (resolve_engines p req) _ (resolve_engines-can_run p req) (λ es h. with_plan plan es h))
]
  where
    with_plan :
        (plan : Option Plan) (es : List EngineId)
        → all (can_run p) es ≡ true
        → all (can_run p) (elim plan [
          | none ↦ es
          | some included ↦ if is_full req.scan_type then allowed_engines included es else es
        ])
          ≡ true
    with_plan none es h = h
    with_plan (some included) es h = elim (Bool-cases (is_full req.scan_type)) [
      | inl full ↦ rw full (allowed-all (can_run p) included es h)
      | inr chosen ↦ rw chosen h
    ]
