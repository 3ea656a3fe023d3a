-- ===== src/Domain/Finding.antt =====
-- internal/domain/severity.go, confidence.go, verdict.go, status.go, finding.go: the closed
-- vocabularies of a finding, and the fields of it that the modelled code reads.
use guard_pipe.Prelude.{ℕ, Bool, true, false, String}

-- `other_severity` is any string but the five constants.
pub data Severity : Type 0 where
  critical high medium low informational : Severity
  other_severity : String → Severity

-- The sort position: critical first, an unknown severity after every valid one.
unfoldable pub severity_rank : Severity → ℕ
severity_rank critical = 0
severity_rank high = 1
severity_rank medium = 2
severity_rank low = 3
severity_rank informational = 4
severity_rank (other_severity _) = 5

unfoldable pub severity_valid : Severity → Bool
severity_valid (other_severity _) = false
severity_valid _ = true

unfoldable pub severity_eq : Severity → Severity → Bool
severity_eq critical critical = true
severity_eq high high = true
severity_eq medium medium = true
severity_eq low low = true
severity_eq informational informational = true
severity_eq _ _ = false

pub data Confidence : Type 0 where
  high medium low : Confidence
  other_confidence : String → Confidence

unfoldable pub confidence_valid : Confidence → Bool
confidence_valid (Confidence.other_confidence _) = false
confidence_valid _ = true

pub data Verdict : Type 0 where
  pass warn block : Verdict

-- The triage state of a finding.
pub data Status : Type 0 where
  open_status acknowledged suppressed fixed false_positive : Status
  other_status : String → Status

unfoldable pub status_valid : Status → Bool
status_valid (other_status _) = false
status_valid _ = true
