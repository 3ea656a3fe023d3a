-- ===== src/Domain/Engine.antt =====
-- internal/domain/engine.go, actor.go: the engine identifiers and the roles.
use guard_pipe.Prelude.{
  ◌≡◌, refl, ap, Bool, true, false, arith, String, str_eq, eq_iff, List, [], ◌∷◌, ◌||◌, ℕ, Option,
}

-- An `EngineID` is a string in the source; `other_engine` is any string but the seven constants.
pub data EngineId : Type 0 where
  docreview codescan depscan containerscan k8sscan cicdscan pentest : EngineId
  other_engine : String → EngineId

unfoldable pub engine_valid : EngineId → Bool
engine_valid docreview = true
engine_valid codescan = true
engine_valid depscan = true
engine_valid containerscan = true
engine_valid k8sscan = true
engine_valid cicdscan = true
engine_valid pentest = true
engine_valid (other_engine _) = false

-- `==` on engine identifiers.
unfoldable pub engine_eq : EngineId → EngineId → Bool
engine_eq docreview docreview = true
engine_eq codescan codescan = true
engine_eq depscan depscan = true
engine_eq containerscan containerscan = true
engine_eq k8sscan k8sscan = true
engine_eq cicdscan cicdscan = true
engine_eq pentest pentest = true
engine_eq (other_engine s) (other_engine t) = str_eq s t
engine_eq _ _ = false

pub engine_eq_refl : (e : EngineId) → engine_eq e e ≡ true
unfolding engine_eq
engine_eq_refl (other_engine s) = (eq_iff s s).1 refl
engine_eq_refl _ = refl

pub engine_eq→eq : (d e : EngineId) → engine_eq d e ≡ true → d ≡ e
unfolding engine_eq
engine_eq→eq (other_engine s) (other_engine t) h = ap other_engine ((eq_iff s t).0 h)
engine_eq→eq _ _ h = ground arith

-- `slices.Contains` over engine identifiers.
unfoldable pub contains_engine : List EngineId → EngineId → Bool
contains_engine [] e = false
contains_engine (d ∷ ds) e = engine_eq d e || contains_engine ds e

pub data Role : Type 0 where
  admin member viewer : Role
  other_role : String → Role

unfoldable pub role_valid : Role → Bool
role_valid admin = true
role_valid member = true
role_valid viewer = true
role_valid (other_role _) = false

unfoldable pub is_admin : Role → Bool
is_admin admin = true
is_admin _ = false

-- The caller of a request: `project_id` is set in a session that is limited to one shared project.
pub record Actor : Type 0 where
  pub user_id : ℕ
  pub org_id : ℕ
  pub role : Role
  pub project_id : Option ℕ
