-- ===== src/Organization/Requests.antt =====
-- internal/modules/organization/service.go: the operations as one type of requests, with the accounts
-- that are registered meanwhile, and histories of them.
use guard_pipe.Prelude.{ℕ, List, [], ◌∷◌, String}
use guard_pipe.Domain.Engine.{Role, Actor}
use guard_pipe.Identity.Service.{RegisterInput, register}
use guard_pipe.Organization.Store.{OrgStore}
use guard_pipe.Organization.Service.{update_member_role, remove_member, switch_org}
use guard_pipe.Organization.Invites.{
  OrgEnv, create_invite, revoke_invite, accept_invite, list_my_invites, decline_invite,
}

pub data OrgRequest : Type 0 where
  changes_role : Actor → (org user : ℕ) → Role → OrgRequest
  removes : Actor → (org user : ℕ) → OrgRequest
  invites_to : (now : ℕ) (fresh : String) → Actor → (org : ℕ) (email : String) → Role → OrgRequest
  revokes_invite : Actor → (org invite : ℕ) → OrgRequest
  accepts : (now : ℕ) → Actor → (identifier : String) → OrgRequest
  lists_mine : (now : ℕ) → Actor → OrgRequest
  declines : Actor → (invite : ℕ) → OrgRequest
  switches : (now : ℕ) (fresh : String) → Actor → (target : ℕ) → OrgRequest
  registers_account : RegisterInput → OrgRequest

unfoldable pub handle_org : OrgEnv → OrgRequest → OrgStore → OrgStore
handle_org env (changes_role actor org user role) s = (update_member_role actor org user role s).1
handle_org env (removes actor org user) s = (remove_member actor org user s).1
handle_org env (invites_to now fresh actor org email role) s =
    (create_invite env now fresh actor org email role s).1
handle_org env (revokes_invite actor org invite) s = (revoke_invite actor org invite s).1
handle_org env (accepts now actor identifier) s = (accept_invite env now actor identifier s).1
handle_org env (lists_mine now actor) s = (list_my_invites env now actor s).1
handle_org env (declines actor invite) s = (decline_invite env actor invite s).1
handle_org env (switches now fresh actor target) s =
    (switch_org env.base now fresh actor target s).1
handle_org env (registers_account input) s = record s {
  database = (register env.base input s.database).1;
}

unfoldable pub run_org : OrgEnv → List OrgRequest → OrgStore → OrgStore
run_org env [] s = s
run_org env (r ∷ rs) s = run_org env rs (handle_org env r s)
