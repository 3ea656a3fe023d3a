-- ===== src/Scoring/Floats.antt =====
-- What internal/modules/scoring takes from Go's float64 and its package math.
use guard_pipe.Prelude.{ℕ, ◌≤◌, ◌≡◌, Bool, ℤ, pos, ◌≤ℤ◌}

pub record Floats : Type 1 where
  pub F : Type 0
  pub of_int : ℤ → F
  pub add : F → F → F
  pub sub : F → F → F
  pub mul : F → F → F
  pub div : F → F → F
  pub neg : F → F
  pub exp : F → F
  pub max : F → F → F
  pub round : F → F
  pub to_int : F → ℤ
  pub eq : F → F → Bool
  pub lt : F → F → Bool

-- The laws that hold of the numbers that are finite and whose rounded value is a Go int, since the
-- conversion of any other is not defined: what `math.Max` and `math.Round` promise of them, and that
-- the whole numbers up to 100 are exact.
pub record FloatLaws (fl : Floats) : Type 1 where
  pub IsFinite : fl.F → Type 0
  pub AtMost : fl.F → fl.F → Type 0
  pub int_finite : (n : ℕ) → n ≤ 100 → IsFinite (fl.of_int (pos n))
  pub max_finite : (x y : fl.F) → IsFinite x → IsFinite y → IsFinite (fl.max x y)
  pub max_right : (x y : fl.F) → IsFinite x → IsFinite y → AtMost y (fl.max x y)
  pub round_mono :
      (x y : fl.F)
      → IsFinite x
      → IsFinite y
      → AtMost x y
      → fl.to_int (fl.round x) ≤ℤ fl.to_int (fl.round y)
  pub round_int : (n : ℕ) → n ≤ 100 → fl.to_int (fl.round (fl.of_int (pos n))) ≡ pos n
