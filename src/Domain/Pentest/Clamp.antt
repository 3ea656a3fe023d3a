-- ===== src/Domain/Pentest/Clamp.antt =====
-- internal/domain/pentest_config.go, `ClampPentestScanConfig`: what a clamped configuration is.
use guard_pipe.Prelude.{
  zero, suc, ◌*◌, ltb, if◌then◌else◌, ℕ, ◌≤◌, ◌<◌, ◌≡◌, refl, ap, ◌∙◌, lt→ltb, ◌⊎◌, true, false,
  ◌||◌, [], arith,
}
use guard_pipe.Domain.Pentest.{
  PentestScanConfig, top100, small, second, preset_valid, breadth_valid, wordlist_tier_valid,
  clamp_pentest_scan_config, default_config, stealth_config, fill_defaults, apply_ceiling, exceeds,
  is_custom, is_empty,
}

-- A ceiling that is not set does not bound.
abbrev pub Within : ℕ → ℕ → Type 0
Within ceiling value = (ceiling ≡ 0) ⊎ (value ≤ ceiling)

-- What a clamped configuration satisfies.
pub record IsClamped (ceiling : PentestScanConfig) (c : PentestScanConfig) : Type 0 where
  pub preset : preset_valid c.preset ≡ true
  pub breadth : breadth_valid c.port_breadth ≡ true
  pub wordlist : wordlist_tier_valid c.wordlist_tier ≡ true
  pub rate : 0 < c.request_rate_per_sec
  pub budget : 0 < c.phase_budget
  pub categories : is_empty c.nuclei_categories ≡ false
  pub rate_within : Within ceiling.request_rate_per_sec c.request_rate_per_sec
  pub budget_within : Within ceiling.phase_budget c.phase_budget

-- What was asked for, where it is positive.
abbrev pub asked_or : ℕ → ℕ → ℕ
asked_or default zero = default
asked_or default (suc n) = suc n

-- A ceiling of 0 is none.
abbrev pub capped : ℕ → ℕ → ℕ
capped zero value = value
capped (suc n) value = if ltb (suc n) value then suc n else value

-- What a clamped configuration has of the one asked for.
pub record IsKept (cfg ceiling : PentestScanConfig) (c : PentestScanConfig) : Type 0 where
  pub rate_capped :
      c.request_rate_per_sec
      ≡ capped ceiling.request_rate_per_sec (asked_or 2 cfg.request_rate_per_sec)
  pub budget_capped :
      c.phase_budget ≡ capped ceiling.phase_budget (asked_or (90 * second) cfg.phase_budget)
  pub breadth_kept :
      c.port_breadth ≡ (if breadth_valid cfg.port_breadth then cfg.port_breadth else top100)
  pub wordlist_kept :
      c.wordlist_tier ≡ (if wordlist_tier_valid cfg.wordlist_tier then cfg.wordlist_tier else small)
  pub depth_kept : c.crawl_depth ≡ cfg.crawl_depth
  pub enum_kept : c.subdomain_enum ≡ cfg.subdomain_enum

-- Every configuration asked for comes out with a known preset, breadth and word list, with categories,
-- and with a positive rate and budget, which are those asked for (2 a second and 90 seconds where they
-- are not positive) capped at the ceiling's, where it sets one. Nothing else is held to the ceiling: the
-- breadth and the word list are those asked for, if known, and the crawl depth and the subdomain flag
-- are those asked for, whatever they are.
pub clamp-IsClamped :
    (cfg ceiling : PentestScanConfig)
    → let c = (clamp_pentest_scan_config cfg ceiling).0 in
      IsClamped ceiling c × IsKept cfg ceiling c
unfolding clamp_pentest_scan_config fill_defaults apply_ceiling exceeds default_config
    stealth_config preset_valid breadth_valid wordlist_tier_valid is_custom is_empty
clamp-IsClamped cfg ceiling = ground arith

-- What is valid is kept, field by field.
fill_defaults-IsClamped :
    (c ceiling : PentestScanConfig) → IsClamped ceiling c → fill_defaults c ≡ c
unfolding fill_defaults
fill_defaults-IsClamped c ceiling h =
    rw
      (
        fill_defaults,
        h.preset,
        h.breadth,
        h.wordlist,
        h.categories,
        lt→ltb 0 _ h.rate,
        lt→ltb 0 _ h.budget,
      )
      refl

exceeds-Within : (ceiling value : ℕ) → Within ceiling value → exceeds ceiling value ≡ false
unfolding exceeds
exceeds-Within ceiling value h = ground arith

apply_ceiling-IsClamped :
    (c ceiling : PentestScanConfig) → IsClamped ceiling c → apply_ceiling c ceiling ≡ (c, [])
unfolding apply_ceiling
apply_ceiling-IsClamped c ceiling h =
    rw (apply_ceiling, exceeds-Within _ _ h.rate_within, exceeds-Within _ _ h.budget_within) refl

apply_ceiling-renames :
    (c ceiling : PentestScanConfig)
    → (is_empty (apply_ceiling c ceiling).1 || is_custom (apply_ceiling c ceiling).0.preset) ≡ true
unfolding apply_ceiling is_custom
apply_ceiling-renames c ceiling = ground arith

-- A clamped configuration is not changed by the same ceiling again, and a configuration that the
-- ceiling changed is named custom.
pub clamp-clamp :
    (cfg ceiling : PentestScanConfig)
    → let (c, clamped) = clamp_pentest_scan_config cfg ceiling in
      (clamp_pentest_scan_config c ceiling ≡ (c, []))
      × ((is_empty clamped || is_custom c.preset) ≡ true)
unfolding clamp_pentest_scan_config
clamp-clamp cfg ceiling =
    let c = (apply_ceiling (fill_defaults cfg) ceiling).0 in
    let good : IsClamped ceiling c = (clamp-IsClamped cfg ceiling).0 in
    (
      ap (λ x. apply_ceiling x ceiling) (fill_defaults-IsClamped c ceiling good)
          ∙ apply_ceiling-IsClamped c ceiling good,
      apply_ceiling-renames (fill_defaults cfg) ceiling,
    )
