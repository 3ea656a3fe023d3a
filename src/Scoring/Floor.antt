-- ===== src/Scoring/Floor.antt =====
-- internal/modules/scoring/scorer.go: the floor that critical findings set, and partial scans.
use guard_pipe.Prelude.{
  ◌+◌, ◌≤◌, ◌≡◌, refl, subst, Bool, true, false, not, List, [], ◌∷◌, arith, ◌==◌, le→leb, any,
  length, Bool-cases, inl, inr, ℤ, pos, pos_part, neg_part, ◌≤ℤ◌, leb_ℤ,
}
use guard_pipe.Domain.Engine.{EngineId}
use guard_pipe.Domain.Finding.{pass, block}
use guard_pipe.Scoring.Floats.{Floats, FloatLaws}
use guard_pipe.Scoring.Compute.{
  ScoredFinding, ScoredJob, Thresholds, counted_findings, sort_by_id, ran_engines, has_failed,
  failed_jobs, is_critical, is_secret, critical_floor, verdict_of, Config, engine_score,
  weighted_aggregate, compute, nat,
}
use guard_pipe.Scoring.Counts.{count, any-count, sort_by_id-SameCounts, critical_floor-SameCounts}

critical_floor-le : (fs : List ScoredFinding) → critical_floor fs ≤ 100
unfolding critical_floor
critical_floor-le fs = ground arith

-- The floor in terms of the findings.
pub critical_floor_values :
    (fs : List ScoredFinding)
    → (1 ≤ count is_critical fs → 70 ≤ critical_floor fs)
      × (3 ≤ count is_critical fs → 85 ≤ critical_floor fs)
      × (1 ≤ count is_secret fs → 90 ≤ critical_floor fs)
unfolding critical_floor
critical_floor_values fs = (
  (λ one. ground (arith, one)),
  (λ three. ground (arith, three)),
  (λ secret. rw (any-count is_secret fs, le→leb 1 (count is_secret fs) secret) (omega arith)),
)

verdict_of-block :
    (t : Thresholds) (score : ℤ) (is_partial : Bool)
    → leb_ℤ t.block_from score ≡ true
    → verdict_of t score is_partial ≡ block
unfolding verdict_of
verdict_of-block t score true h = rw h refl
verdict_of-block t score false h = rw h refl

pub verdict_of-pass :
    (t : Thresholds) (score : ℤ) (is_partial : Bool)
    → verdict_of t score is_partial ≡ pass
    → (is_partial ≡ false) × (leb_ℤ t.warn_from score ≡ false) × (leb_ℤ t.block_from score ≡ false)
unfolding verdict_of
verdict_of-pass t score true h = elim (Bool-cases (leb_ℤ t.block_from score)) [
  | inl over ↦ absurd (ground (arith, over))
  | inr under ↦ elim (Bool-cases (leb_ℤ t.warn_from score)) [
    | inl warned ↦ absurd (ground (arith, under, warned))
    | inr quiet ↦ absurd (ground (arith, under, quiet))
  ]
]
verdict_of-pass t score false h = elim (Bool-cases (leb_ℤ t.block_from score)) [
  | inl over ↦ absurd (ground (arith, over))
  | inr under ↦ elim (Bool-cases (leb_ℤ t.warn_from score)) [
    | inl warned ↦ absurd (ground (arith, under, warned))
    | inr quiet ↦ (refl, quiet, under)
  ]
]

failed_jobs-none :
    (jobs : List ScoredJob)
    → not (length (failed_jobs jobs) == 0) ≡ false
    → any (λ j. has_failed j.status) jobs ≡ false
unfolding failed_jobs
failed_jobs-none [] h = refl
failed_jobs-none (j ∷ js) h = elim (Bool-cases (has_failed j.status)) [
  | inl broken ↦ absurd (ground (arith, broken))
  | inr fine ↦ rw fine (failed_jobs-none js (rw (fine, failed_jobs) at h))
]

module _ (fl : Floats) (laws : FloatLaws fl) (cfg : Config fl)
    (visit : List EngineId → List EngineId) where
  open laws use {IsFinite, int_finite, max_finite, max_right, round_mono, round_int}

  -- What the weighted average comes to, before the floor.
  abbrev pub average : List ScoredFinding → List ScoredJob → fl.F
  average fs jobs =
      (weighted_aggregate fl cfg visit (ran_engines jobs)
        (engine_score fl cfg (sort_by_id (counted_findings fs)))).0

  score_above :
      (fs : List ScoredFinding) (jobs : List ScoredJob)
      → IsFinite (average fs jobs)
      → pos (critical_floor (counted_findings fs)) ≤ℤ (compute fl cfg visit fs jobs).score
  unfolding compute
  score_above fs jobs finite =
      let xs = sort_by_id (counted_findings fs) in
      let floor = critical_floor xs in
      let same : critical_floor xs ≡ critical_floor (counted_findings fs) =
        critical_floor-SameCounts xs (counted_findings fs)
          (sort_by_id-SameCounts (counted_findings fs)) in
      let small = critical_floor-le xs in
      let whole = int_finite floor small in
      let above =
        round_mono (nat fl floor) (fl.max (average fs jobs) (nat fl floor)) whole
          (max_finite (average fs jobs) (nat fl floor) finite whole)
          (max_right (average fs jobs) (nat fl floor) finite whole) in
      subst (λ n. pos n ≤ℤ (compute fl cfg visit fs jobs).score) same
        (rw (round_int floor small) at above)

le→leb_ℤ : (a b : ℤ) → a ≤ℤ b → leb_ℤ a b ≡ true
le→leb_ℤ a b h = le→leb (pos_part a + neg_part b) (pos_part b + neg_part a) h

compute_blocks :
    (fl : Floats) (cfg : Config fl) (visit : List EngineId → List EngineId)
    (fs : List ScoredFinding) (jobs : List ScoredJob)
    → leb_ℤ cfg.thresholds.block_from (compute fl cfg visit fs jobs).score ≡ true
    → (compute fl cfg visit fs jobs).verdict ≡ block
unfolding compute
compute_blocks fl cfg visit fs jobs h =
    verdict_of-block cfg.thresholds (compute fl cfg visit fs jobs).score
      (compute fl cfg visit fs jobs).is_partial h

-- Where the weighted average of the engines is a finite number within a Go int, whatever it comes to, a
-- counted critical finding keeps the score at 70 or more, three of them at 85 or more, and a critical
-- finding of a secrets rule at 90 or more; and a gate that blocks from 70 or less then blocks.
pub compute-floor :
    (fl : Floats) (laws : FloatLaws fl) (cfg : Config fl) (visit : List EngineId → List EngineId)
    (fs : List ScoredFinding) (jobs : List ScoredJob)
    → laws.IsFinite (average fl laws cfg visit fs jobs)
    → (1 ≤ count is_critical (counted_findings fs) → pos 70 ≤ℤ (compute fl cfg visit fs jobs).score)
      × (3 ≤ count is_critical (counted_findings fs)
          → pos 85 ≤ℤ (compute fl cfg visit fs jobs).score)
      × (1 ≤ count is_secret (counted_findings fs) → pos 90 ≤ℤ (compute fl cfg visit fs jobs).score)
      × (1 ≤ count is_critical (counted_findings fs)
          → cfg.thresholds.block_from ≤ℤ pos 70
          → (compute fl cfg visit fs jobs).verdict ≡ block)
compute-floor fl laws cfg visit fs jobs finite =
    let above = score_above fl laws cfg visit fs jobs finite in
    let values = critical_floor_values (counted_findings fs) in
    (
      (λ one. let v = values.0 one in omega arith),
      (λ three. let v = values.1 three in omega arith),
      (λ secret. let v = values.2 secret in omega arith),
      (λ one low.
          let v = values.0 one in
          compute_blocks fl cfg visit fs jobs (
            le→leb_ℤ cfg.thresholds.block_from (compute fl cfg visit fs jobs).score (omega arith))),
    )

-- A scan passes only when no job failed and its score is under both thresholds: a failed engine is
-- never read as a clean one.
pub compute-pass :
    (fl : Floats) (cfg : Config fl) (visit : List EngineId → List EngineId)
    (fs : List ScoredFinding) (jobs : List ScoredJob)
    → (compute fl cfg visit fs jobs).verdict ≡ pass
    → (any (λ j. has_failed j.status) jobs ≡ false)
      × (leb_ℤ cfg.thresholds.warn_from (compute fl cfg visit fs jobs).score ≡ false)
      × (leb_ℤ cfg.thresholds.block_from (compute fl cfg visit fs jobs).score ≡ false)
unfolding compute
compute-pass fl cfg visit fs jobs passed =
    let parts =
      verdict_of-pass cfg.thresholds (compute fl cfg visit fs jobs).score
        (compute fl cfg visit fs jobs).is_partial passed in
    (failed_jobs-none jobs parts.0, parts.1, parts.2)
