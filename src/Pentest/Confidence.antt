-- ===== src/Pentest/Confidence.antt =====
-- internal/engines/pentest/correlation/confidence.go: the confidence score of a correlated finding.
-- The clamp at 0 is the subtraction on natural numbers: the penalty is the last term.
use guard_pipe.Prelude.{
  ℕ, ◌+◌, ◌-◌, ◌*◌, ◌≤◌, ◌≡◌, Bool, true, false, ◌&&◌, List, ◌∷◌, arith, leb, ltb, if◌then◌else◌,
  min, length, String,
}
use guard_pipe.Domain.Finding.{Severity, Confidence}

-- The fields of `CorrelatedFinding` that the score reads and writes.
pub record CorrelatedFinding : Type 0 where
  pub severity : Severity
  pub confidence : Confidence
  pub tools : List String
  pub conflicting_signals : Bool
  pub has_evidence : Bool

pub data Band : Type 0 where
  informational possible verified confirmed : Band

unfoldable pub severity_base : Severity → ℕ
severity_base Severity.critical = 55
severity_base Severity.high = 45
severity_base Severity.medium = 30
severity_base Severity.low = 18
severity_base _ = 8

unfoldable pub confidence_base : Confidence → ℕ
confidence_base Confidence.high = 15
confidence_base Confidence.medium = 8
confidence_base _ = 0

-- `baseScore`
unfoldable pub base_score : CorrelatedFinding → ℕ
unfolding severity_base confidence_base
base_score cf = severity_base cf.severity + confidence_base cf.confidence

unfoldable pub corroboration_bonus : ℕ → ℕ
corroboration_bonus tools =
    if leb tools 1 then 0 else if ltb 20 ((tools - 1) * 15) then 20 else (tools - 1) * 15

unfoldable pub score : CorrelatedFinding → ℕ
unfolding base_score corroboration_bonus
score cf =
    let sure = base_score cf + corroboration_bonus (length cf.tools) in
    let shown = if cf.has_evidence then sure + 10 else sure in
    min (if cf.conflicting_signals then shown - 40 else shown) 100

unfoldable pub band : ℕ → Band
band s =
    if leb 90 s
    then confirmed
    else if leb 70 s
    then verified
    else if leb 50 s
    then possible
    else informational

abbrev pub band_floor : Band → ℕ
band_floor informational = 0
band_floor possible = 50
band_floor verified = 70
band_floor confirmed = 90

abbrev pub is_sure : Band → Bool
is_sure verified = true
is_sure confirmed = true
is_sure _ = false

-- A score is at most 100 and lies in its band; a finding with conflicting signals is never
-- verified or confirmed, and one that a single tool reports is never confirmed.
pub score-band :
    (cf : CorrelatedFinding)
    → (score cf ≤ 100)
      × (band_floor (band (score cf)) ≤ score cf)
      × ((is_sure (band (score cf)) && cf.conflicting_signals) ≡ false)
      × ((leb 90 (score cf) && leb (length cf.tools) 1) ≡ false)
unfolding score band base_score corroboration_bonus severity_base confidence_base
score-band cf = ground arith

-- One more tool or evidence never lowers a score, and a conflict never raises it, whatever the
-- rest of the finding says.
pub score-monotone :
    (cf : CorrelatedFinding) (tool : String)
    → (score cf ≤ score (record cf { tools = tool ∷ cf.tools }))
      × (score (record cf { has_evidence = false }) ≤ score (record cf { has_evidence = true }))
      × (score (record cf { conflicting_signals = true })
          ≤ score (record cf { conflicting_signals = false }))
unfolding score base_score corroboration_bonus severity_base confidence_base
score-monotone cf tool = ground arith
