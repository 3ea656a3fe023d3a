-- ===== src/Billing/Catalog.antt =====
-- internal/modules/billing/catalog.go: plans, packs and the token prices of engines.
use guard_pipe.Prelude.{ℕ, Bool, true, false, String, List, [], ◌∷◌, Option, none, some}
use guard_pipe.Domain.Engine.{
  EngineId, docreview, codescan, depscan, containerscan, k8sscan, cicdscan, pentest, other_engine,
  contains_engine,
}
use guard_pipe.Domain.Pentest.{PentestPreset, stealth, standard, deep, custom, other_preset}
use guard_pipe.Domain.Scan.{TriggerSource, webhook_push, webhook_pull_request}

-- The codes that the `billing_subscriptions` table admits.
pub data PlanCode : Type 0 where
  free pro_monthly pro_annual : PlanCode

unfoldable pub plan_eq : PlanCode → PlanCode → Bool
plan_eq free free = true
plan_eq pro_monthly pro_monthly = true
plan_eq pro_annual pro_annual = true
plan_eq _ _ = false

pub data Period : Type 0 where
  month year : Period

pub record Plan : Type 0 where
  pub code : PlanCode
  pub price_cents : ℕ
  pub period : Period
  pub monthly_grant : ℕ
  pub engines : List EngineId
  pub live_scanning : Bool
  pub schedules : Bool
  pub topup_discount : ℕ

pub record Pack : Type 0 where
  pub tokens : ℕ
  pub price_cents : ℕ

abbrev pub free_engines : List EngineId
free_engines = docreview ∷ codescan ∷ depscan ∷ containerscan ∷ k8sscan ∷ cicdscan ∷ []

abbrev pub all_engines : List EngineId
all_engines = docreview ∷ codescan ∷ depscan ∷ containerscan ∷ k8sscan ∷ cicdscan ∷ pentest ∷ []

-- The map `Plans`.
unfoldable pub plans : PlanCode → Plan
plans free = record {
  code = free;
  price_cents = 0;
  period = month;
  monthly_grant = 15_000;
  engines = free_engines;
  live_scanning = false;
  schedules = false;
  topup_discount = 0;
}
plans pro_monthly = record {
  code = pro_monthly;
  price_cents = 2900;
  period = month;
  monthly_grant = 500_000;
  engines = all_engines;
  live_scanning = true;
  schedules = true;
  topup_discount = 0;
}
plans pro_annual = record {
  code = pro_annual;
  price_cents = 24000;
  period = year;
  monthly_grant = 500_000;
  engines = all_engines;
  live_scanning = true;
  schedules = true;
  topup_discount = 10;
}

-- What a checkout can name: a plan's code, a pack's code, or any other text.
pub data ItemCode : Type 0 where
  plan_item : PlanCode → ItemCode
  topup_100k topup_250k topup_600k : ItemCode
  other_item : String → ItemCode

-- The map `Packs`, at an item code.
unfoldable pub packs : ItemCode → Option Pack
packs topup_100k = some (record { tokens = 100_000; price_cents = 900 })
packs topup_250k = some (record { tokens = 250_000; price_cents = 1900 })
packs topup_600k = some (record { tokens = 600_000; price_cents = 3900 })
packs _ = none

-- The map `EnginePrice`.
unfoldable pub engine_price : EngineId → Option ℕ
engine_price depscan = some 1_500
engine_price k8sscan = some 1_500
engine_price cicdscan = some 2_500
engine_price containerscan = some 4_000
engine_price codescan = some 5_000
engine_price docreview = some 6_000
engine_price pentest = some 25_000
engine_price (other_engine _) = none

pub data AiAction : Type 0 where
  explain remediate fix : AiAction
  other_action : String → AiAction

unfoldable pub ai_action_eq : AiAction → AiAction → Bool
ai_action_eq explain explain = true
ai_action_eq remediate remediate = true
ai_action_eq fix fix = true
ai_action_eq _ _ = false

-- The map `AIPrice`.
unfoldable pub ai_price : AiAction → Option ℕ
ai_price explain = some 150
ai_price remediate = some 400
ai_price fix = some 750
ai_price (other_action _) = none

-- The map `PentestMultiplier`, as tenths: 0.6, 1, 2, 1.
unfoldable pub pentest_multiplier : PentestPreset → Option ℕ
pentest_multiplier stealth = some 6
pentest_multiplier standard = some 10
pentest_multiplier deep = some 20
pentest_multiplier custom = some 10
pentest_multiplier (other_preset _) = none

unfoldable pub is_live_trigger : TriggerSource → Bool
is_live_trigger webhook_push = true
is_live_trigger webhook_pull_request = true
is_live_trigger _ = false

-- `Plan.Allows`.
unfoldable pub allows : Plan → EngineId → Bool
unfolding contains_engine
allows p e = contains_engine p.engines e

abbrev pub price_version : String
price_version = "2026-09-25"

-- Durations are in nanoseconds.
abbrev pub topup_validity : ℕ
topup_validity = 31_536_000_000_000_000

abbrev pub checkout_ttl : ℕ
checkout_ttl = 1_800_000_000_000
