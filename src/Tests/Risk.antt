-- ===== src/Tests/Risk.antt =====
-- internal/modules/scoring at concrete inputs: fixed-point numbers with four decimals, none below 0.
use guard_pipe.Prelude.{
  ℕ, ◌+◌, ◌-◌, ◌*◌, ◌/◌, ◌≤◌, ◌≡◌, refl, ap, Bool, false, List, [], ◌∷◌, ◌==◌, ltb, leb, any, arith,
  pos, pos_part, ◌≤ℤ◌, leb_ℤ, if◌then◌else◌,
}
use guard_pipe.Domain.Engine.{EngineId, codescan, depscan, pentest, contains_engine, engine_eq}
use guard_pipe.Domain.Finding.{
  Severity, Status, open_status, acknowledged, pass, warn, block, severity_eq,
}
use guard_pipe.Domain.Scan.{JobStatus}
use guard_pipe.Scoring.Floats.{Floats, FloatLaws}
use guard_pipe.Scoring.Compute.{
  ScoredFinding, ScoredJob, counted_findings, has_failed, is_critical, is_secret, default_config,
  compute, critical_floor, failed_jobs, verdict_of, weighted_aggregate, add_weights, ran_engines,
  default_engine_weight, add_impacts, sort_weighted, insert_weighted, engine_score, subscore,
  raw_score, add_scores, count_by_severity, sort_by_id, insert_by_id, saturate,
  default_severity_weight, default_saturation,
}
use guard_pipe.Scoring.Counts.{of_kind, count, SameCounts, compute-SameCounts}
use guard_pipe.Scoring.Floor.{average, compute-floor, compute-pass}

-- `exp` of a negative number is taken as 0.
abbrev fixed : Floats
fixed = record {
  F = ℕ;
  of_int = λ z. 10000 * pos_part z;
  add = λ x y. x + y;
  sub = λ x y. x - y;
  mul = λ x y. x * y / 10000;
  div = λ x y. x * 10000 / y;
  neg = λ x. 0;
  exp = λ x. 0;
  max = λ x y. if leb x y then y else x;
  round = λ x. (x + 5000) / 10000 * 10000;
  to_int = λ x. pos (x / 10000);
  eq = λ x y. x == y;
  lt = ltb;
}

fixed_max_finite :
    (x y : ℕ) → x ≤ 10000000000 → y ≤ 10000000000 → (if leb x y then y else x) ≤ 10000000000
fixed_max_finite x y hx hy = ground (arith, hx, hy)

fixed_max_right : (x y : ℕ) → y ≤ (if leb x y then y else x)
fixed_max_right x y = ground arith

fixed_whole : (n : ℕ) → (10000 * n + 5000) / 10000 * 10000 / 10000 ≡ n
fixed_whole n = omega arith

abbrev fixed_laws : FloatLaws fixed
fixed_laws = record {
  IsFinite = λ x. x ≤ 10000000000;
  AtMost = λ x y. x ≤ y;
  int_finite = λ n h. omega arith;
  max_finite = λ x y hx hy. fixed_max_finite x y hx hy;
  max_right = λ x y hx hy. fixed_max_right x y;
  round_mono = λ x y hx hy h. omega arith;
  round_int = λ n h. ap pos (fixed_whole n);
}

abbrev in_order : List EngineId → List EngineId
in_order es = es

abbrev live_key : ScoredFinding
live_key = record {
  id = 5;
  engine = codescan;
  severity = Severity.critical;
  status = open_status;
  rule_id = "codescan.secrets.aws_key";
}

abbrev weak_hash : ScoredFinding
weak_hash = record {
  id = 2;
  engine = codescan;
  severity = Severity.medium;
  status = acknowledged;
  rule_id = "codescan.sast.weak_hash";
}

abbrev old_package : ScoredFinding
old_package = record {
  id = 9;
  engine = depscan;
  severity = Severity.critical;
  status = Status.suppressed;
  rule_id = "depscan.sca.vulnerable";
}

abbrev finished : List ScoredJob
finished =
    record { engine = codescan; status = JobStatus.succeeded }
    ∷ record { engine = depscan; status = JobStatus.succeeded }
    ∷ []

abbrev broken : List ScoredJob
broken = record { engine = pentest; status = JobStatus.failed } ∷ finished

key_score :
    (compute fixed (default_config fixed) in_order (live_key ∷ weak_hash ∷ []) finished).score
    ≡ pos 90
unfolding compute critical_floor failed_jobs verdict_of weighted_aggregate add_weights ran_engines
    contains_engine engine_eq default_engine_weight add_impacts sort_weighted insert_weighted
    engine_score subscore raw_score add_scores count_by_severity sort_by_id insert_by_id severity_eq
    counted_findings saturate default_severity_weight default_saturation
key_score = refl

-- Another finding of the kind of `weak_hash`.
abbrev weak_random : ScoredFinding
weak_random = record weak_hash { id = 31; rule_id = "codescan.sast.weak_random" }

swapped :
    (p : ScoredFinding → Bool)
    → p weak_random ≡ p weak_hash
    → count p (weak_hash ∷ live_key ∷ []) ≡ count p (live_key ∷ weak_random ∷ [])
swapped p same = ground (arith, same)

same_counts :
    SameCounts
      (counted_findings (weak_hash ∷ old_package ∷ live_key ∷ []))
      (counted_findings (live_key ∷ weak_random ∷ []))
unfolding counted_findings
same_counts =
    ((λ e sev. swapped (of_kind e sev) refl), swapped is_critical refl, swapped is_secret refl)

compute-SameCounts_example :
    compute fixed (default_config fixed) in_order (weak_hash ∷ old_package ∷ live_key ∷ []) finished
    ≡ compute fixed (default_config fixed) in_order (live_key ∷ weak_random ∷ []) finished
compute-SameCounts_example =
    compute-SameCounts fixed (default_config fixed) in_order
      (weak_hash ∷ old_package ∷ live_key ∷ []) (live_key ∷ weak_random ∷ []) finished same_counts

key_average-IsFinite :
    fixed_laws.IsFinite (
      average fixed fixed_laws (default_config fixed) in_order (live_key ∷ weak_hash ∷ []) finished)
unfolding weighted_aggregate add_weights ran_engines contains_engine engine_eq default_engine_weight
    add_impacts sort_weighted insert_weighted engine_score subscore raw_score add_scores
    count_by_severity sort_by_id insert_by_id severity_eq counted_findings saturate
    default_severity_weight default_saturation
key_average-IsFinite = omega arith

compute-floor_example :
    (1 ≤ count is_critical (counted_findings (live_key ∷ weak_hash ∷ []))
      → pos 70
        ≤ℤ (compute fixed
            (default_config fixed)
            in_order
            (live_key ∷ weak_hash ∷ [])
            finished).score)
    × (3 ≤ count is_critical (counted_findings (live_key ∷ weak_hash ∷ []))
        → pos 85
          ≤ℤ (compute fixed
              (default_config fixed)
              in_order
              (live_key ∷ weak_hash ∷ [])
              finished).score)
    × (1 ≤ count is_secret (counted_findings (live_key ∷ weak_hash ∷ []))
        → pos 90
          ≤ℤ (compute fixed
              (default_config fixed)
              in_order
              (live_key ∷ weak_hash ∷ [])
              finished).score)
    × (1 ≤ count is_critical (counted_findings (live_key ∷ weak_hash ∷ []))
        → (default_config fixed).thresholds.block_from ≤ℤ pos 70
        → (compute fixed
            (default_config fixed)
            in_order
            (live_key ∷ weak_hash ∷ [])
            finished).verdict
          ≡ block)
compute-floor_example =
    compute-floor fixed fixed_laws (default_config fixed) in_order (live_key ∷ weak_hash ∷ [])
      finished key_average-IsFinite

weak_pass : (compute fixed (default_config fixed) in_order (weak_hash ∷ []) finished).verdict ≡ pass
unfolding compute critical_floor failed_jobs verdict_of weighted_aggregate add_weights ran_engines
    contains_engine engine_eq default_engine_weight add_impacts sort_weighted insert_weighted
    engine_score subscore raw_score add_scores count_by_severity sort_by_id insert_by_id severity_eq
    counted_findings saturate default_severity_weight default_saturation
weak_pass = refl

compute-pass_example :
    (any (λ j. has_failed j.status) finished ≡ false)
    × (leb_ℤ
          (default_config fixed).thresholds.warn_from
          (compute fixed (default_config fixed) in_order (weak_hash ∷ []) finished).score
        ≡ false)
    × (leb_ℤ
          (default_config fixed).thresholds.block_from
          (compute fixed (default_config fixed) in_order (weak_hash ∷ []) finished).score
        ≡ false)
compute-pass_example =
    compute-pass fixed (default_config fixed) in_order (weak_hash ∷ []) finished weak_pass

partial_warns :
    (compute fixed (default_config fixed) in_order (weak_hash ∷ []) broken).verdict ≡ warn
unfolding compute critical_floor failed_jobs verdict_of weighted_aggregate add_weights ran_engines
    contains_engine engine_eq default_engine_weight add_impacts sort_weighted insert_weighted
    engine_score subscore raw_score add_scores count_by_severity sort_by_id insert_by_id severity_eq
    counted_findings saturate default_severity_weight default_saturation
partial_warns = refl
