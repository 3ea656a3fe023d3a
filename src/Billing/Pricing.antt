-- ===== src/Billing/Pricing.antt =====
-- internal/modules/billing/pricing.go: the price of a scan. The factors 0.6, 1, 2 and 0.5 are taken
-- as exact fractions: at every catalogue price the product in floating point is the exact number.
pub mod Discount
use guard_pipe.Prelude.{
  ℕ, ◌+◌, ◌-◌, ◌*◌, ◌/◌, Bool, true, false, String, List, [], ◌∷◌, Option, none, some,
  if◌then◌else◌,
}
use guard_pipe.Domain.Engine.{EngineId, pentest, engine_eq}
use guard_pipe.Domain.Pentest.{PentestPreset}
use guard_pipe.Domain.Scan.{TriggerSource}
use guard_pipe.Billing.Catalog.{engine_price, pentest_multiplier, is_live_trigger, price_version}

pub record QuoteLine : Type 0 where
  pub engine : EngineId
  pub tokens : ℕ
  pub full_tokens : ℕ

pub record Quote : Type 0 where
  pub lines : List QuoteLine
  pub total : ℕ
  pub live_discount : Bool
  pub version : String

-- `roundUp50` at the value a / b: the least multiple of 50 that is not below it.
unfoldable pub round_up_50 : ℕ → ℕ → ℕ
round_up_50 a b = (a + (50 * b - 1)) / (50 * b) * 50

-- The factor of a preset in tenths: an unknown preset is priced as Stealth.
unfoldable pub preset_factor : Option ℕ → ℕ
preset_factor none = 6
preset_factor (some m) = m

-- The undiscounted price of one engine.
unfoldable pub full_price : EngineId → PentestPreset → ℕ → ℕ
full_price e preset base =
    if engine_eq e pentest
    then round_up_50 (base * preset_factor (pentest_multiplier preset)) 10
    else base

-- One round of the loop of `QuoteScan`.
unfoldable pub quote_line : EngineId → PentestPreset → TriggerSource → Option QuoteLine
quote_line e preset trigger = elim (engine_price e) [
  | none ↦ none
  | some base ↦ some (record {
    engine = e;
    full_tokens = full_price e preset base;
    tokens =
        if is_live_trigger trigger
        then round_up_50 (full_price e preset base) 2
        else full_price e preset base;
  })
]

-- `QuoteScan`: `none` is its error, no price for an engine.
unfoldable pub quote_scan : List EngineId → PentestPreset → TriggerSource → Option Quote
quote_scan [] preset trigger = some (record {
  lines = [];
  total = 0;
  live_discount = is_live_trigger trigger;
  version = price_version;
})
quote_scan (e ∷ es) preset trigger = elim (quote_line e preset trigger) [
  | none ↦ none
  | some line ↦ elim (quote_scan es preset trigger) [
    | none ↦ none
    | some q ↦ some (record q { lines = line ∷ q.lines; total = line.tokens + q.total })
  ]
]
