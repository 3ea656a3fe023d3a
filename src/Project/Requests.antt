-- ===== src/Project/Requests.antt =====
-- internal/modules/project/service.go: the operations on the credential, the targets, the
-- invitations and the collaborators of a project that its owner calls, as one type.
use guard_pipe.Prelude.{ℕ, Bool, List, [], ◌∷◌, Option, String}
use guard_pipe.Domain.Engine.{Role, Actor}
use guard_pipe.Identity.Service.{Env}
use guard_pipe.Project.Crypto.{Aead}
use guard_pipe.Validate.Target.{NameServer, Network}
use guard_pipe.Project.Store.{Projects}
use guard_pipe.Project.Service.{set_credential, remove_credential}
use guard_pipe.Project.Targets.{AttestationInput, register_target, attest_target, revoke_target}
use guard_pipe.Project.Collaborators.{
  invite_collaborator, revoke_collaborator_invite, remove_collaborator,
}

-- A call with its arguments, its clock reading, its random values and what the name
-- server answers during it.
pub data ProjectRequest : Type 0 where
  sets_credential : Option String → ℕ → String → String → ProjectRequest
  removes_credential : ℕ → ProjectRequest
  registers : NameServer → ℕ → ℕ → String → ProjectRequest
  attests : ℕ → ℕ → AttestationInput → ProjectRequest
  revokes : ℕ → ProjectRequest
  invites : ℕ → String → ℕ → String → Role → ProjectRequest
  withdraws : ℕ → ℕ → ProjectRequest
  removes : ℕ → ℕ → ProjectRequest

-- The configuration of the module.
pub record Settings : Type 0 where
  pub cipher : Aead
  pub env : Env
  pub key : String
  pub network : Network
  pub allow_private : Bool
  pub denylist : List String

-- A call and who makes it.
pub record Call : Type 0 where
  pub actor : Actor
  pub request : ProjectRequest

module _ (set : Settings) where
  unfoldable pub handle_project : Actor → ProjectRequest → Projects → Projects
  handle_project actor (sets_credential random project kind token) s =
      (set_credential set.cipher set.env.trim set.key random actor project kind token s).1
  handle_project actor (removes_credential project) s = (remove_credential actor project s).1
  handle_project actor (registers lookup now project input) s =
      (register_target set.network lookup set.allow_private set.denylist now actor project input
        s).1
  handle_project actor (attests now target given) s =
      (attest_target set.env.trim now actor target given s).1
  handle_project actor (revokes target) s = (revoke_target actor target s).1
  handle_project actor (invites now raw project address role) s =
      (invite_collaborator set.env now raw actor project address role s).1
  handle_project actor (withdraws project invite) s =
      (revoke_collaborator_invite actor project invite s).1
  handle_project actor (removes project user) s = (remove_collaborator actor project user s).1

  unfoldable pub run_calls : List Call → Projects → Projects
  run_calls [] s = s
  run_calls (c ∷ cs) s = run_calls cs (handle_project c.actor c.request s)
