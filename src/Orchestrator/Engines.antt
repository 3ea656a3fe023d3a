-- ===== src/Orchestrator/Engines.antt =====
-- internal/modules/orchestrator/service.go: which engines a scan runs, and at which preset.
-- `registered` is `Registry.IDs`, in the order in which the map gives them.
use guard_pipe.Prelude.{
  Bool, true, false, not, ◌&&◌, List, [], ◌∷◌, Option, none, some, if◌then◌else◌, keep,
}
use guard_pipe.Errors.{
  Result, ok, err, ◌>>=◌, ◌>>◌, refuse_if, fail_with, validation, unprocessable, internal_error,
}
use guard_pipe.Domain.Engine.{EngineId, pentest, docreview, engine_eq, contains_engine}
use guard_pipe.Domain.Pentest.{
  PentestPreset, other_preset, PentestScanConfig, clamp_pentest_scan_config, default_config,
}
use guard_pipe.Domain.Scan.{ScanType, full_supply_chain, partial, pentest_only, scan_type_valid}
use guard_pipe.Billing.Catalog.{Plan}
use guard_pipe.Billing.Charge.{allowed_engines, is_empty}

-- What `GetAttestedTarget` answers.
pub data TargetAnswer : Type 0 where
  attested no_target target_failure : TargetAnswer

-- The project as `resolveEngines` sees it, and the registered engines.
pub record Project : Type 0 where
  pub registered : List EngineId
  pub has_repository : Bool
  pub target : TargetAnswer

-- The fields of `CreateScanInput` that choose engines and presets.
pub record ScanRequest : Type 0 where
  pub scan_type : ScanType
  pub engines : List EngineId
  pub pentest_config : Option PentestScanConfig

unfoldable pub engine_requires_repository : EngineId → Bool
unfolding engine_eq
engine_requires_repository e = not (engine_eq e pentest) && not (engine_eq e docreview)

-- `hasAttestedTarget`
unfoldable pub has_attested_target : TargetAnswer → Result Bool
has_attested_target attested = ok true
has_attested_target no_target = ok false
has_attested_target target_failure = err internal_error

-- The closure `runnable`.
unfoldable pub runnable : Bool → Bool → EngineId → Bool
unfolding engine_requires_repository
runnable has_repo has_target e =
    if engine_eq e pentest
    then has_target
    else if engine_requires_repository e
    then has_repo
    else true

-- The loop over the engines of a partial scan.
unfoldable pub check_engines : Project → Bool → List EngineId → Result (Unit {0})
check_engines p has_target [] = ok tt
check_engines p has_target (e ∷ es) = do
  refuse_if (not (contains_engine p.registered e))
      (fail_with unprocessable "scan.engine_unavailable")
  refuse_if (not (runnable p.has_repository has_target e))
      (fail_with unprocessable "scan.engine_unavailable")
  check_engines p has_target es

unfoldable pub engines_for : Project → Bool → ScanRequest → Result (List EngineId)
engines_for p has_target req = elim req.scan_type [
  | pentest_only ↦ do
    refuse_if (not (contains_engine p.registered pentest))
        (fail_with unprocessable "scan.engine_unavailable")
    refuse_if (not has_target) (fail_with unprocessable "scan.no_pentest_target")
    ok (pentest ∷ [])
  | partial ↦ do
    refuse_if (is_empty req.engines) (fail_with validation "scan.invalid_input")
    check_engines p has_target req.engines
    ok req.engines
  | _ ↦ ok (keep (runnable p.has_repository has_target) p.registered)
]

-- `resolveEngines`
unfoldable pub resolve_engines : Project → ScanRequest → Result (List EngineId)
resolve_engines p req = has_attested_target p.target >>= λ has_target. engines_for p has_target req

abbrev pub is_full : ScanType → Bool
is_full full_supply_chain = true
is_full _ = false

-- The engines of a new scan: `plan` is the organisation's plan when billing is on.
unfoldable pub scan_engines : Option Plan → Project → ScanRequest → Result (List EngineId)
scan_engines plan p req = do
  refuse_if (not (scan_type_valid req.scan_type)) (fail_with validation "scan.invalid_input")
  engines ← resolve_engines p req
  ok (elim plan [
    | none ↦ engines
    | some included ↦ if is_full req.scan_type then allowed_engines included engines else engines
  ])

abbrev pub requested_config : ScanRequest → PentestScanConfig
requested_config req = elim req.pentest_config [ none ↦ default_config | some c ↦ c ]

-- The configuration that `CreateScan` stores, for a scan with a pentest.
unfoldable pub scan_config :
    PentestScanConfig → ScanRequest → List EngineId → Option PentestScanConfig
scan_config ceiling req engines =
    if contains_engine engines pentest
    then some (clamp_pentest_scan_config (requested_config req) ceiling).0
    else none

-- The preset that `CreateScan` charges: the empty string without a pentest.
unfoldable pub charged_preset : PentestScanConfig → ScanRequest → List EngineId → PentestPreset
charged_preset ceiling req engines = elim (scan_config ceiling req engines) [
  | none ↦ other_preset ""
  | some c ↦ c.preset
]

-- The preset of `PreviewScan`.
unfoldable pub previewed_preset : PentestScanConfig → ScanRequest → PentestPreset
previewed_preset ceiling req = (clamp_pentest_scan_config (requested_config req) ceiling).0.preset
