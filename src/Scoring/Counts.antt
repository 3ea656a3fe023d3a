-- ===== src/Scoring/Counts.antt =====
-- internal/modules/scoring/scorer.go: what the score reads of the findings.
use mathlib.Core.Path.{fun_ext}
use guard_pipe.Prelude.{
  ℕ, ◌≡◌, refl, sym, ap, ◌∙◌, Bool, ◌&&◌, List, [], ◌∷◌, arith, leb, any, keep, length, Bool-cases,
  inl, inr,
}
use guard_pipe.Domain.Engine.{EngineId, engine_eq}
use guard_pipe.Domain.Finding.{Severity, severity_eq}
use guard_pipe.Scoring.Floats.{Floats}
use guard_pipe.Scoring.Compute.{
  ScoredFinding, ScoredJob, counted_findings, insert_by_id, sort_by_id, count_by_severity,
  is_critical, is_secret, critical_floor, Config, engine_score, subscore, raw_score, compute,
}

-- How many findings pass a test.
abbrev pub count : (ScoredFinding → Bool) → List ScoredFinding → ℕ
count p fs = length (keep p fs)

count-insert_by_id :
    (p : ScoredFinding → Bool) (f : ScoredFinding) (gs : List ScoredFinding)
    → count p (insert_by_id f gs) ≡ count p (f ∷ gs)
unfolding insert_by_id
count-insert_by_id p f [] = refl
count-insert_by_id p f (g ∷ gs) = ground (arith, count-insert_by_id p f gs)

pub count-sort_by_id :
    (p : ScoredFinding → Bool) (fs : List ScoredFinding) → count p (sort_by_id fs) ≡ count p fs
unfolding sort_by_id
count-sort_by_id p [] = refl
count-sort_by_id p (f ∷ fs) =
    count-insert_by_id p f (sort_by_id fs) ∙ ground (arith, count-sort_by_id p fs)

pub any-count : (p : ScoredFinding → Bool) (fs : List ScoredFinding) → any p fs ≡ leb 1 (count p fs)
any-count p [] = refl
any-count p (f ∷ fs) = elim (Bool-cases (p f)) [
  | inl hit ↦ rw hit (ground arith)
  | inr miss ↦ rw miss (any-count p fs)
]

abbrev pub of_kind : EngineId → Severity → ScoredFinding → Bool
of_kind e sev f = engine_eq f.engine e && severity_eq f.severity sev

-- Two lists with as many findings of every engine and severity, as many critical ones, and as many
-- critical ones of a secrets rule.
abbrev pub SameCounts : List ScoredFinding → List ScoredFinding → Type 0
SameCounts fs gs =
    ((e : EngineId) (sev : Severity) → count (of_kind e sev) fs ≡ count (of_kind e sev) gs)
    × (count is_critical fs ≡ count is_critical gs)
    × (count is_secret fs ≡ count is_secret gs)

pub sort_by_id-SameCounts : (fs : List ScoredFinding) → SameCounts (sort_by_id fs) fs
sort_by_id-SameCounts fs = (
  (λ e sev. count-sort_by_id (of_kind e sev) fs),
  count-sort_by_id is_critical fs,
  count-sort_by_id is_secret fs,
)

pub critical_floor-SameCounts :
    (fs gs : List ScoredFinding) → SameCounts fs gs → critical_floor fs ≡ critical_floor gs
unfolding critical_floor
critical_floor-SameCounts fs gs same =
    rw (any-count is_secret fs, any-count is_secret gs, same.2, same.1) refl

counted_same :
    (fs gs : List ScoredFinding) → SameCounts fs gs → SameCounts (sort_by_id fs) (sort_by_id gs)
counted_same fs gs same =
    let before = sort_by_id-SameCounts fs in
    let after = sort_by_id-SameCounts gs in
    (
      (λ e sev. before.0 e sev ∙ same.0 e sev ∙ sym (after.0 e sev)),
      before.1 ∙ same.1 ∙ sym after.1,
      before.2 ∙ same.2 ∙ sym after.2,
    )

engine_score-SameCounts :
    (fl : Floats) (cfg : Config fl) (fs gs : List ScoredFinding) (e : EngineId)
    → SameCounts fs gs
    → engine_score fl cfg fs e ≡ engine_score fl cfg gs e
unfolding engine_score count_by_severity
engine_score-SameCounts fl cfg fs gs e same =
    ap (λ counts. subscore fl cfg (raw_score fl cfg counts)) (fun_ext λ sev. same.0 e sev)

-- The whole assessment depends only on how many open or acknowledged findings there are of every engine
-- and severity, how many are critical, and how many critical ones are of a secrets rule: two lists that
-- agree in these numbers, whatever their findings' identifiers, order and other rules, and whatever
-- suppressed, fixed or false-positive findings are beside, get the same score, verdict and breakdown for
-- the same jobs, where Go visits its map of engines in the same order.
pub compute-SameCounts :
    (fl : Floats) (cfg : Config fl) (visit : List EngineId → List EngineId)
    (fs gs : List ScoredFinding) (jobs : List ScoredJob)
    → SameCounts (counted_findings fs) (counted_findings gs)
    → compute fl cfg visit fs jobs ≡ compute fl cfg visit gs jobs
unfolding compute
compute-SameCounts fl cfg visit fs gs jobs same =
    let sorted = counted_same (counted_findings fs) (counted_findings gs) same in
    let xs = sort_by_id (counted_findings fs) in
    let ys = sort_by_id (counted_findings gs) in
    let scores : engine_score fl cfg xs ≡ engine_score fl cfg ys =
      fun_ext λ e. engine_score-SameCounts fl cfg xs ys e sorted in
    rw (scores, critical_floor-SameCounts xs ys sorted) refl
