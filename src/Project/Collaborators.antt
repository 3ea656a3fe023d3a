-- ===== src/Project/Collaborators.antt =====
-- internal/modules/project/service.go: inviting collaborators to one project, and taking that back.
-- A random source that fails is not modelled.
use guard_pipe.Prelude.{ℕ, suc, ◌+◌, not, none, some, is_some, if◌then◌else◌, ◌==◌, String, str_eq}
use guard_pipe.Errors.{
  AppError, Result, ok, err, internal_error, fail_with, not_found, validation, conflict, ◌>>=◌,
  ◌>>◌, refuse_if,
}
use guard_pipe.Domain.Engine.{Role, role_valid, Actor}
use guard_pipe.Identity.Service.{Env, normalize_email}
use guard_pipe.Organization.Store.{pending, revoked}
use guard_pipe.Organization.Invites.{invite_ttl}
use guard_pipe.Project.Store.{
  ProjectInvite, Projects, project_invite_by_id, insert_project_invite, set_invite_status,
  exists_pending_invite, grant_of, delete_grant,
}
use guard_pipe.Project.Service.{Operation, get_owned_project}

abbrev pub project_invite_not_found : AppError
project_invite_not_found = fail_with not_found "project.invite_not_found"

-- The address, folded.
unfoldable pub check_collaborator : Env → ℕ → Actor → ℕ → String → Role → Projects → Result String
check_collaborator env now actor project address role s =
    let email = normalize_email env address in
    get_owned_project actor project s >>= λ _.
    refuse_if (str_eq email "") (fail_with validation "project.invalid_input")
    >> refuse_if (not (role_valid role)) (fail_with validation "project.invalid_input")
    >> refuse_if (exists_pending_invite env.same_email now project email s)
        (fail_with conflict "project.invite_already_pending")
    >> ok email

abbrev pub new_project_invite : ℕ → ℕ → ℕ → ℕ → String → Role → ProjectInvite
new_project_invite i hash now project email role = record {
  id = i;
  project_id = project;
  email = email;
  role = role;
  token_hash = hash;
  status = pending;
  expires_at = now + invite_ttl;
}

abbrev pub answer_with :
    ProjectInvite → Result (Unit {0}) × Projects → Result ProjectInvite × Projects
answer_with v (err e, s) = (err internal_error, s)
answer_with v (ok _, s) = (ok v, s)

-- `raw` is the token that the response carries.
unfoldable pub invite_collaborator :
    Env → ℕ → String → Actor → ℕ → String → Role → Operation ProjectInvite
invite_collaborator env now raw actor project address role s =
    elim (check_collaborator env now actor project address role s) [
      | err e ↦ (err e, s)
      | ok email ↦
          let v = new_project_invite s.next_id (env.sha256 raw) now project email role in
          answer_with v (insert_project_invite v (record s { next_id = suc s.next_id }))
    ]

unfoldable pub check_withdrawal : Actor → ℕ → ℕ → Projects → Result ProjectInvite
check_withdrawal actor project invite s = get_owned_project actor project s >>= λ _.
    elim (project_invite_by_id invite s) [
      | none ↦ err project_invite_not_found
      | some v ↦ refuse_if (not (v.project_id == project)) project_invite_not_found >> ok v
    ]

-- `RevokeCollaboratorInvite`: whatever the status was.
unfoldable pub revoke_collaborator_invite : Actor → ℕ → ℕ → Operation (Unit {0})
revoke_collaborator_invite actor project invite s = elim (check_withdrawal actor project invite s) [
  | err e ↦ (err e, s)
  | ok v ↦ (ok tt, set_invite_status invite revoked s)
]

-- Without such a grant, the row that is missing is an internal error.
unfoldable pub remove_collaborator : Actor → ℕ → ℕ → Operation (Unit {0})
remove_collaborator actor project user s = elim (get_owned_project actor project s) [
  | err e ↦ (err e, s)
  | ok p ↦
      if is_some (grant_of project user s)
      then (ok tt, delete_grant project user s)
      else (err internal_error, s)
]
