-- ===== src/Billing/Pricing/Discount.antt =====
-- internal/modules/billing/pricing.go: what every quote satisfies, and how the live discount and
-- the presets move a price.
use guard_pipe.Prelude.{
  ℕ, ◌+◌, ◌*◌, ◌%◌, ◌≤◌, ◌<◌, ◌≡◌, refl, subst, Bool, true, false, List, [], ◌∷◌, map, some, arith,
  All, sum_of, ◌↔◌, inl, inr, Option-cases, is_some, all, some_inj,
}
use mathlib.Core.Path.{ap₂}
use guard_pipe.Domain.Engine.{
  EngineId, depscan, k8sscan, cicdscan, containerscan, codescan, docreview, pentest, other_engine,
  engine_valid, engine_eq,
}
use guard_pipe.Domain.Pentest.{PentestPreset, stealth, standard, deep, custom, other_preset}
use guard_pipe.Domain.Scan.{TriggerSource}
use guard_pipe.Billing.Catalog.{engine_price, pentest_multiplier, is_live_trigger}
use guard_pipe.Billing.Pricing.{
  QuoteLine, Quote, round_up_50, full_price, quote_line, quote_scan, preset_factor,
}

-- Half of the full price, up to rounding, for a live trigger, and the full price otherwise.
abbrev pub LivePrice : Bool → QuoteLine → Type 0
LivePrice true l = (l.full_tokens ≤ 2 * l.tokens) × (2 * l.tokens < l.full_tokens + 100)
LivePrice false l = l.tokens ≡ l.full_tokens

-- The price list: what a scan with each engine costs, a pentest by its preset.
abbrev pub list_price : PentestPreset → EngineId → ℕ
list_price preset depscan = 1_500
list_price preset k8sscan = 1_500
list_price preset cicdscan = 2_500
list_price preset containerscan = 4_000
list_price preset codescan = 5_000
list_price preset docreview = 6_000
list_price preset (other_engine _) = 0
list_price stealth pentest = 15_000
list_price standard pentest = 25_000
list_price deep pentest = 50_000
list_price custom pentest = 25_000
list_price (other_preset _) pentest = 15_000

-- A line by the price list, in whole multiples of 50 tokens; the live price is half of the full one, up
-- to rounding.
pub record IsPriced (preset : PentestPreset) (trigger : TriggerSource) (l : QuoteLine)
    : Type 0 where
  pub valid : engine_valid l.engine ≡ true
  pub listed : l.full_tokens ≡ list_price preset l.engine
  pub rounded : l.tokens % 50 ≡ 0
  pub positive : 0 < l.tokens
  pub no_surcharge : l.tokens ≤ l.full_tokens
  pub live : LivePrice (is_live_trigger trigger) l

full_price_catalogue :
    (e : EngineId) (preset : PentestPreset) (base : ℕ)
    → engine_price e ≡ some base
    → (engine_valid e ≡ true)
      × (full_price e preset base % 50 ≡ 0)
      × (0 < full_price e preset base)
      × (full_price e preset base ≡ list_price preset e)
unfolding full_price engine_price engine_valid preset_factor round_up_50 engine_eq
    pentest_multiplier
full_price_catalogue e preset base h = ground arith

half_of_full :
    (full : ℕ)
    → full % 50 ≡ 0
    → 0 < full
    → (round_up_50 full 2 % 50 ≡ 0)
      × (0 < round_up_50 full 2)
      × (round_up_50 full 2 ≤ full)
      × (full ≤ 2 * round_up_50 full 2)
      × (2 * round_up_50 full 2 < full + 100)
unfolding round_up_50
half_of_full full m p = omega arith

quote_line-IsPriced :
    (e : EngineId) (preset : PentestPreset) (trigger : TriggerSource) (l : QuoteLine)
    → quote_line e preset trigger ≡ some l
    → IsPriced preset trigger l × (l.engine ≡ e)
unfolding quote_line
quote_line-IsPriced e preset trigger l h = elim (Option-cases (engine_price e)) [
  | inl missing ↦ absurd (ground (arith, missing))
  | inr (base, priced) ↦
      let full = full_price e preset base in
      let f = full_price_catalogue e preset base priced in
      ground (arith, priced, f, half_of_full full)
]

-- What a quote for these engines says.
abbrev pub IsQuoteFor : PentestPreset → TriggerSource → List EngineId → Quote → Type 0
IsQuoteFor preset trigger es q =
    (map (λ l. l.engine) q.lines ≡ es)
    × All (IsPriced preset trigger) q.lines
    × (q.total ≡ sum_of (λ l. l.tokens) q.lines)

-- A quote has one line for each engine asked for, in that order; the full price of every line is that of
-- the price list (25 000 tokens for a pentest at Standard or a custom preset, twice that at Deep, three
-- fifths of it at Stealth or an unknown preset, and the one price of every other engine); what is
-- charged is a positive multiple of 50 tokens, half of the full price up to rounding for a live
-- trigger, and the full price otherwise; and the total is the lines' sum.
pub quote_scan-IsQuoteFor :
    (es : List EngineId) (preset : PentestPreset) (trigger : TriggerSource) (q : Quote)
    → quote_scan es preset trigger ≡ some q
    → IsQuoteFor preset trigger es q
unfolding quote_scan
quote_scan-IsQuoteFor [] preset trigger q h =
    subst (IsQuoteFor preset trigger []) (some_inj h) (refl, tt, refl)
quote_scan-IsQuoteFor (e ∷ es) preset trigger q h =
    elim (Option-cases (quote_line e preset trigger)) [
      | inl no_line ↦ absurd (ground (arith, no_line))
      | inr (line, le) ↦ elim (Option-cases (quote_scan es preset trigger)) [
        | inl no_rest ↦ absurd (ground (arith, le, no_rest))
        | inr (rest, re) ↦
            let whole : Quote = record rest {
              lines = line ∷ rest.lines;
              total = line.tokens + rest.total;
            } in
            let same : whole ≡ q = ground (arith, le, re) in
            let (priced, of_e) = quote_line-IsPriced e preset trigger line le in
            let (names, lines, total) = quote_scan-IsQuoteFor es preset trigger rest re in
            subst (IsQuoteFor preset trigger (e ∷ es)) same
              (ap₂ ◌∷◌ of_e names, (priced, lines), rw total)
      ]
    ]

-- A scan can be priced exactly when every engine asked for is one of the seven.
pub quote_scan-IsSome_iff :
    (es : List EngineId) (preset : PentestPreset) (trigger : TriggerSource)
    → (is_some (quote_scan es preset trigger) ≡ true) ↔ (all engine_valid es ≡ true)
unfolding quote_scan quote_line engine_price engine_valid
quote_scan-IsSome_iff [] preset trigger = (λ _. refl, λ _. refl)
quote_scan-IsSome_iff (e ∷ es) preset trigger =
    ground (arith, quote_scan-IsSome_iff es preset trigger)
