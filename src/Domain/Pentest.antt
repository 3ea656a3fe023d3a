-- ===== src/Domain/Pentest.antt =====
-- internal/domain/pentest_config.go: scan intensity presets, and the ceiling on the rate and the budget.
pub mod Clamp
use guard_pipe.Prelude.{
  ℕ, Bool, true, false, not, ◌&&◌, String, List, [], ◌∷◌, ◌++◌, ltb, if◌then◌else◌, ◌*◌,
}

pub data PentestPreset : Type 0 where
  stealth standard deep custom : PentestPreset
  other_preset : String → PentestPreset

unfoldable pub preset_valid : PentestPreset → Bool
preset_valid (other_preset _) = false
preset_valid _ = true

unfoldable pub is_custom : PentestPreset → Bool
is_custom custom = true
is_custom _ = false

pub data PentestPortBreadth : Type 0 where
  top100 top1000 top1000_service_detect : PentestPortBreadth
  other_breadth : String → PentestPortBreadth

unfoldable pub breadth_valid : PentestPortBreadth → Bool
breadth_valid (other_breadth _) = false
breadth_valid _ = true

pub data WordlistTier : Type 0 where
  small medium large : WordlistTier
  other_tier : String → WordlistTier

unfoldable pub wordlist_tier_valid : WordlistTier → Bool
wordlist_tier_valid (other_tier _) = false
wordlist_tier_valid _ = true

-- The rate and the budget are Go integers: a value of 0 stands for every value that is not
-- positive, since the code only asks whether they are positive and how they compare.
pub record PentestScanConfig : Type 0 where
  pub preset : PentestPreset
  pub request_rate_per_sec : ℕ
  pub port_breadth : PentestPortBreadth
  pub nuclei_categories : List String
  pub phase_budget : ℕ  -- nanoseconds
  pub wordlist_tier : WordlistTier
  pub crawl_depth : ℕ
  pub subdomain_enum : Bool

abbrev pub second : ℕ
second = 1_000_000_000

unfoldable pub stealth_config : PentestScanConfig
stealth_config = record {
  preset = stealth;
  request_rate_per_sec = 2;
  port_breadth = top100;
  nuclei_categories = "exposures" ∷ "misconfiguration" ∷ [];
  phase_budget = 90 * second;
  wordlist_tier = small;
  crawl_depth = 1;
  subdomain_enum = true;
}

unfoldable pub standard_config : PentestScanConfig
standard_config = record {
  preset = standard;
  request_rate_per_sec = 5;
  port_breadth = top1000;
  nuclei_categories = "exposures" ∷ "misconfiguration" ∷ "cves" ∷ [];
  phase_budget = 300 * second;
  wordlist_tier = medium;
  crawl_depth = 3;
  subdomain_enum = true;
}

unfoldable pub deep_config : PentestScanConfig
deep_config = record {
  preset = deep;
  request_rate_per_sec = 10;
  port_breadth = top1000_service_detect;
  nuclei_categories = "exposures" ∷ "misconfiguration" ∷ "cves" ∷ "default-logins" ∷ [];
  phase_budget = 600 * second;
  wordlist_tier = large;
  crawl_depth = 10;
  subdomain_enum = true;
}

unfoldable pub default_config : PentestScanConfig
unfolding stealth_config
default_config = stealth_config

abbrev pub is_empty : List String → Bool
is_empty [] = true
is_empty (_ ∷ _) = false

-- The first half of `ClampPentestScanConfig`: what is missing or unknown takes the default.
fill_defaults : PentestScanConfig → PentestScanConfig
unfolding default_config preset_valid breadth_valid wordlist_tier_valid
fill_defaults c = record {
  preset = if preset_valid c.preset then c.preset else custom;
  request_rate_per_sec =
      if ltb 0 c.request_rate_per_sec
      then c.request_rate_per_sec
      else default_config.request_rate_per_sec;
  port_breadth =
      if breadth_valid c.port_breadth then c.port_breadth else default_config.port_breadth;
  nuclei_categories =
      if is_empty c.nuclei_categories
      then default_config.nuclei_categories
      else c.nuclei_categories;
  phase_budget = if ltb 0 c.phase_budget then c.phase_budget else default_config.phase_budget;
  wordlist_tier =
      if wordlist_tier_valid c.wordlist_tier then c.wordlist_tier else default_config.wordlist_tier;
  crawl_depth = c.crawl_depth;
  subdomain_enum = c.subdomain_enum;
}

-- Whether a ceiling is set and exceeded.
exceeds : ℕ → ℕ → Bool
exceeds ceiling value = ltb 0 ceiling && ltb ceiling value

-- The second half: what exceeds the ceiling is reduced, and then the preset's name is lost.
apply_ceiling : PentestScanConfig → PentestScanConfig → PentestScanConfig × List String
unfolding exceeds is_custom
apply_ceiling out ceiling =
    let rate_over = exceeds ceiling.request_rate_per_sec out.request_rate_per_sec in
    let budget_over = exceeds ceiling.phase_budget out.phase_budget in
    let rate = if rate_over then ceiling.request_rate_per_sec else out.request_rate_per_sec in
    let budget = if budget_over then ceiling.phase_budget else out.phase_budget in
    let clamped =
      (if rate_over then "request_rate_per_sec" ∷ [] else [])
      ++ (if budget_over then "phase_budget" ∷ [] else []) in
    let name =
      if not (is_empty clamped) && not (is_custom out.preset) then custom else out.preset in
    (record out { preset = name; request_rate_per_sec = rate; phase_budget = budget }, clamped)

unfoldable pub clamp_pentest_scan_config :
    PentestScanConfig → PentestScanConfig → PentestScanConfig × List String
unfolding fill_defaults apply_ceiling
clamp_pentest_scan_config cfg ceiling = apply_ceiling (fill_defaults cfg) ceiling
