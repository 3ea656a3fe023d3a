-- ===== src/Tests/Pricing.antt =====
-- internal/modules/billing/pricing.go and internal/domain/pentest_config.go at concrete inputs.
use guard_pipe.Prelude.{◌*◌, ◌≡◌, refl, true, [], ◌∷◌, some}
use guard_pipe.Domain.Engine.{codescan, pentest, engine_eq}
use guard_pipe.Domain.Pentest.{deep, deep_config, standard_config, clamp_pentest_scan_config}
use guard_pipe.Domain.Pentest.Clamp.{IsClamped, IsKept, clamp-IsClamped}
use guard_pipe.Domain.Scan.{webhook_push}
use guard_pipe.Billing.Catalog.{engine_price, is_live_trigger, pentest_multiplier, price_version}
use guard_pipe.Billing.Pricing.{
  Quote, quote_scan, quote_line, full_price, round_up_50, preset_factor,
}
use guard_pipe.Billing.Pricing.Discount.{IsQuoteFor, quote_scan-IsQuoteFor}

-- A deep pentest on a push: 25,000 doubled, then halved.
abbrev pushed : Quote
pushed = record {
  lines =
      record { engine = codescan; tokens = 2_500; full_tokens = 5_000 }
      ∷ record { engine = pentest; tokens = 25_000; full_tokens = 50_000 }
      ∷ [];
  total = 27_500;
  live_discount = true;
  version = price_version;
}

pushed_quote : quote_scan (codescan ∷ pentest ∷ []) deep webhook_push ≡ some pushed
unfolding quote_scan quote_line engine_price is_live_trigger pentest_multiplier full_price
    round_up_50 preset_factor engine_eq
pushed_quote = refl

stealth_pentest : round_up_50 (25_000 * 6) 10 ≡ 15_000
unfolding round_up_50
stealth_pentest = refl

quote_scan-IsQuoteFor_example : IsQuoteFor deep webhook_push (codescan ∷ pentest ∷ []) pushed
quote_scan-IsQuoteFor_example =
    quote_scan-IsQuoteFor (codescan ∷ pentest ∷ []) deep webhook_push pushed pushed_quote

clamp-IsClamped_example :
    let asked = record deep_config { crawl_depth = 1_000 } in
    let c = (clamp_pentest_scan_config asked standard_config).0 in
    IsClamped standard_config c × IsKept asked standard_config c
clamp-IsClamped_example =
    clamp-IsClamped (record deep_config { crawl_depth = 1_000 }) standard_config
