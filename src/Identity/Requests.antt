-- ===== src/Identity/Requests.antt =====
-- internal/modules/identity/service.go: the operations as one type of requests, and histories of
-- them. Other modules change users, organisations, memberships and grants; they never write tokens.
use guard_pipe.Prelude.{ℕ, List, [], ◌∷◌, String}
use guard_pipe.Domain.Engine.{Role}
use guard_pipe.Identity.Store.{User, Organization, MemberRow, CollaboratorRow, Database}
use guard_pipe.Identity.Service.{Env, RegisterInput, register}
use guard_pipe.Identity.Sessions.{login, refresh, logout, issue_for_org, issue_for_project}

pub data Request : Type 0 where
  registers : RegisterInput → Request
  logs_in : (now : ℕ) (email password fresh : String) → Request
  refreshes : (now : ℕ) (raw fresh : String) → Request
  logs_out : (now : ℕ) (raw : String) → Request
  switches_org : (now : ℕ) (fresh : String) (user org : ℕ) → Role → Request
  switches_project : (now : ℕ) (fresh : String) (user project org : ℕ) → Role → Request
  elsewhere : List User → List Organization → List MemberRow → List CollaboratorRow → Request

unfoldable pub handle : Env → Request → Database → Database
handle env (registers input) db = (register env input db).1
handle env (logs_in now email password fresh) db = (login env now email password fresh db).1
handle env (refreshes now raw fresh) db = (refresh env now raw fresh db).1
handle env (logs_out now raw) db = (logout env now raw db).1
handle env (switches_org now fresh user org role) db =
    (issue_for_org env now fresh user org role db).1
handle env (switches_project now fresh user project org role) db =
    (issue_for_project env now fresh user project org role db).1
handle env (elsewhere us os ms cs) db = record db {
  users = us;
  organizations = os;
  members = ms;
  collaborators = cs;
}

unfoldable pub run_requests : Env → List Request → Database → Database
run_requests env [] db = db
run_requests env (r ∷ rs) db = run_requests env rs (handle env r db)
