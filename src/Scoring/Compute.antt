-- ===== src/Scoring/Compute.antt =====
-- internal/modules/scoring/scorer.go and types.go. A finding keeps the fields that the score reads;
-- `id` is ordered as the text of the UUID. Maps are functions; the texts of the breakdown and the
-- version stamp are not modelled.
use Prim.Native.String.{compare}
use Prim.Native.Nat.{Ordering}
use text.Mathlib.Text.{find? as find_text}
use guard_pipe.Prelude.{
  ℕ, Bool, true, false, ◌&&◌, not, List, [], ◌∷◌, ◌++◌, Option, none, some, if◌then◌else◌, ◌==◌,
  leb, ltb, any, keep, length, map, is_some, String, ℤ, pos, leb_ℤ,
}
use guard_pipe.Domain.Engine.{
  EngineId, docreview, codescan, depscan, containerscan, k8sscan, cicdscan, pentest, other_engine,
  engine_eq, contains_engine,
}
use guard_pipe.Domain.Finding.{
  Severity, severity_eq, Status, open_status, acknowledged, Verdict, pass, warn, block,
}
use guard_pipe.Domain.Scan.{JobStatus}
use guard_pipe.Scoring.Floats.{Floats}

pub record ScoredFinding : Type 0 where
  pub id : ℕ
  pub engine : EngineId
  pub severity : Severity
  pub status : Status
  pub rule_id : String

pub record ScoredJob : Type 0 where
  pub engine : EngineId
  pub status : JobStatus

pub record Thresholds : Type 0 where
  pub warn_from : ℤ
  pub block_from : ℤ

abbrev pub counts_status : Status → Bool
counts_status open_status = true
counts_status acknowledged = true
counts_status _ = false

abbrev pub is_counted : ScoredFinding → Bool
is_counted f = counts_status f.status

unfoldable pub counted_findings : List ScoredFinding → List ScoredFinding
counted_findings = keep is_counted

unfoldable pub insert_by_id : ScoredFinding → List ScoredFinding → List ScoredFinding
insert_by_id f [] = f ∷ []
insert_by_id f (g ∷ gs) = if leb f.id g.id then f ∷ g ∷ gs else g ∷ insert_by_id f gs

-- `sort.Slice` by identifier
unfoldable pub sort_by_id : List ScoredFinding → List ScoredFinding
sort_by_id [] = []
sort_by_id (f ∷ fs) = insert_by_id f (sort_by_id fs)

abbrev pub has_succeeded : JobStatus → Bool
has_succeeded JobStatus.succeeded = true
has_succeeded _ = false

abbrev pub has_failed : JobStatus → Bool
has_failed JobStatus.failed = true
has_failed _ = false

-- `ran`: the engines with a job that succeeded, each once. It is a map, and so is what is listed of it:
-- where Go visits it, the order is an argument.
unfoldable pub ran_engines : List ScoredJob → List EngineId
ran_engines [] = []
ran_engines (j ∷ js) =
    let rest = ran_engines js in
    if has_succeeded j.status && not (contains_engine rest j.engine) then j.engine ∷ rest else rest

-- `failed`, before it is sorted for the text of the breakdown.
unfoldable pub failed_jobs : List ScoredJob → List ScoredJob
failed_jobs = keep λ j. has_failed j.status

unfoldable pub count_by_severity : List ScoredFinding → EngineId → Severity → ℕ
count_by_severity fs e sev =
    length (keep (λ f. engine_eq f.engine e && severity_eq f.severity sev) fs)

abbrev pub is_critical : ScoredFinding → Bool
is_critical f = severity_eq f.severity Severity.critical

-- Rule identifiers are `<engine>.<category>.<rule>`.
abbrev pub is_secret : ScoredFinding → Bool
is_secret f = is_critical f && is_some (find_text f.rule_id ".secrets.")

unfoldable pub critical_floor : List ScoredFinding → ℕ
critical_floor fs =
    let criticals = length (keep is_critical fs) in
    if any is_secret fs
    then 90
    else if leb 3 criticals
    then 85
    else if leb 1 criticals
    then 70
    else 0

abbrev pub cap_partial : Bool → Verdict → Verdict
cap_partial true pass = warn
cap_partial _ v = v

unfoldable pub verdict_of : Thresholds → ℤ → Bool → Verdict
verdict_of t score is_partial =
    cap_partial is_partial
      (if leb_ℤ t.block_from score then block else if leb_ℤ t.warn_from score then warn else pass)

abbrev pub engine_name : EngineId → String
engine_name docreview = "docreview"
engine_name codescan = "codescan"
engine_name depscan = "depscan"
engine_name containerscan = "containerscan"
engine_name k8sscan = "k8sscan"
engine_name cicdscan = "cicdscan"
engine_name pentest = "pentest"
engine_name (other_engine s) = s

abbrev pub text_lt : String → String → Bool
text_lt a b = elim (compare a b) [ Ordering.lt ↦ true | _ ↦ false ]

module _ (fl : Floats) where
  pub record Config : Type 0 where
    pub severity_weights : Severity → fl.F
    pub saturation_constants : Severity → fl.F
    pub r_max : fl.F
    pub engine_weights : EngineId → fl.F
    pub thresholds : Thresholds

  pub data Reason : Type 0 where
    engine_contribution critical_floor_applied partial_scan : Reason

  pub record Contribution : Type 0 where
    pub reason : Reason
    pub engine : Option EngineId
    pub impact : fl.F

  pub record RiskAssessment : Type 0 where
    pub score : ℤ
    pub verdict : Verdict
    pub engine_scores : List (EngineId × ℤ)
    pub breakdown : List Contribution
    pub is_partial : Bool

  -- An engine that ran, with its weight.
  pub record Weighted : Type 0 where
    pub engine : EngineId
    pub weight : fl.F

  abbrev pub nat : ℕ → fl.F
  nat n = fl.of_int (pos n)

  unfoldable pub saturate : fl.F → fl.F → fl.F
  saturate n k = fl.mul k (fl.sub (nat 1) (fl.exp (fl.div (fl.neg n) k)))

  abbrev pub scored_severities : List Severity
  scored_severities = Severity.critical ∷ Severity.high ∷ Severity.medium ∷ Severity.low ∷ []

  -- A decimal fraction of the source, correctly rounded as Go's constants are.
  abbrev pub hundredths : ℕ → fl.F
  hundredths n = fl.div (nat n) (nat 100)

  unfoldable pub default_severity_weight : Severity → fl.F
  default_severity_weight Severity.critical = nat 40
  default_severity_weight Severity.high = nat 15
  default_severity_weight Severity.medium = nat 4
  default_severity_weight Severity.low = nat 1
  default_severity_weight _ = nat 0

  unfoldable pub default_saturation : Severity → fl.F
  default_saturation Severity.critical = nat 2
  default_saturation Severity.high = nat 5
  default_saturation Severity.medium = nat 15
  default_saturation Severity.low = nat 40
  default_saturation _ = nat 0

  unfoldable pub default_engine_weight : EngineId → fl.F
  default_engine_weight codescan = hundredths 22
  default_engine_weight depscan = hundredths 20
  default_engine_weight k8sscan = hundredths 18
  default_engine_weight cicdscan = hundredths 16
  default_engine_weight containerscan = hundredths 14
  default_engine_weight pentest = hundredths 8
  default_engine_weight docreview = hundredths 2
  default_engine_weight (other_engine _) = nat 0

  abbrev pub default_config : Config
  default_config = record {
    severity_weights = default_severity_weight;
    saturation_constants = default_saturation;
    r_max = nat 120;
    engine_weights = default_engine_weight;
    thresholds = record { warn_from = pos 30; block_from = pos 70 };
  }

  module _ (cfg : Config) where
    unfoldable pub add_scores : (Severity → ℕ) → List Severity → fl.F → fl.F
    unfolding saturate
    add_scores counts [] raw = raw
    add_scores counts (sev ∷ sevs) raw = add_scores counts sevs (
        if counts sev == 0
        then raw
        else fl.add raw (
            fl.mul (cfg.severity_weights sev)
              (saturate (nat (counts sev)) (cfg.saturation_constants sev))))

    unfoldable pub raw_score : (Severity → ℕ) → fl.F
    raw_score counts = add_scores counts scored_severities (nat 0)

    unfoldable pub subscore : fl.F → ℤ
    subscore raw =
        let sub = fl.div (fl.mul (nat 100) raw) cfg.r_max in
        fl.to_int (fl.round (if fl.lt (nat 100) sub then nat 100 else sub))

    -- The heavier engine first, and by name among engines of one weight.
    abbrev pub comes_first : Weighted → Weighted → Bool
    comes_first a b =
        if fl.eq a.weight b.weight
        then text_lt (engine_name a.engine) (engine_name b.engine)
        else fl.lt b.weight a.weight

    unfoldable pub insert_weighted : Weighted → List Weighted → List Weighted
    insert_weighted w [] = w ∷ []
    insert_weighted w (v ∷ vs) = if comes_first v w then v ∷ insert_weighted w vs else w ∷ v ∷ vs

    unfoldable pub sort_weighted : List Weighted → List Weighted
    sort_weighted [] = []
    sort_weighted (w ∷ ws) = insert_weighted w (sort_weighted ws)

    unfoldable pub add_weights : List Weighted → fl.F → fl.F
    add_weights [] acc = acc
    add_weights (w ∷ ws) acc = add_weights ws (fl.add acc w.weight)

    -- The loop that sums the impacts and writes one line for each engine.
    unfoldable pub add_impacts :
        fl.F → (EngineId → ℤ) → List Weighted → fl.F → fl.F × List Contribution
    add_impacts total scores [] acc = (acc, [])
    add_impacts total scores (w ∷ ws) acc =
        let impact = fl.mul (fl.div w.weight total) (fl.of_int (scores w.engine)) in
        let rest = add_impacts total scores ws (fl.add acc impact) in
        (
          rest.0,
          record {
            reason = engine_contribution;
            engine = some w.engine;
            impact = fl.div (fl.round (fl.mul impact (nat 10))) (nat 10);
          }
              ∷ rest.1,
        )

    -- `visit` is the order in which Go visits the map `ran` this time: the weights are added in it.
    unfoldable pub weighted_aggregate :
        (List EngineId → List EngineId) → List EngineId → (EngineId → ℤ) → fl.F × List Contribution
    weighted_aggregate visit ran scores =
        let list =
          map (λ e. let w : Weighted = record { engine = e; weight = cfg.engine_weights e } in w)
            (visit ran) in
        let total = add_weights list (nat 0) in
        if fl.eq total (nat 0)
        then (nat 0, [])
        else add_impacts total scores (sort_weighted list) (nat 0)

    -- The rounded score of an engine.
    unfoldable pub engine_score : List ScoredFinding → EngineId → ℤ
    engine_score counted e = subscore (raw_score (count_by_severity counted e))

    unfoldable pub compute :
        (List EngineId → List EngineId) → List ScoredFinding → List ScoredJob → RiskAssessment
    compute visit findings jobs =
        let counted = sort_by_id (counted_findings findings) in
        let ran = ran_engines jobs in
        let is_partial = not (length (failed_jobs jobs) == 0) in
        let aggregate = weighted_aggregate visit ran (engine_score counted) in
        let floor = critical_floor counted in
        let final = fl.to_int (fl.round (fl.max aggregate.0 (nat floor))) in
        let raised = ltb 0 floor && fl.lt aggregate.0 (nat floor) in
        let from_floor : List Contribution =
          if raised
          then record {
            reason = critical_floor_applied;
            engine = none;
            impact = fl.round (fl.sub (nat floor) aggregate.0);
          }
            ∷ []
          else [] in
        let from_failures : List Contribution =
          if is_partial
          then record { reason = partial_scan; engine = none; impact = nat 0 } ∷ []
          else [] in
        record {
          score = final;
          verdict = verdict_of cfg.thresholds final is_partial;
          engine_scores = map (λ e. (e, engine_score counted e)) ran;
          breakdown = from_floor ++ (aggregate.1 ++ from_failures);
          is_partial = is_partial;
        }
