-- ===== src/Project/Store.antt =====
-- internal/store/repo/project_repo.go, repository_repo.go, credential_repo.go and target_repo.go, and
-- the types of internal/modules/project/types.go: the rows, with the columns that the modelled
-- operations read, and their queries. An error of the database itself is not modelled.
use guard_pipe.Prelude.{
  ℕ, Bool, not, ◌&&◌, List, [], ◌∷◌, ◌++◌, Option, if◌then◌else◌, ◌==◌, any, keep, leb, ltb,
  is_some, map, find?, String, str_eq,
}
use guard_pipe.Errors.{Result, ok, err, internal_error}
use guard_pipe.Domain.Engine.{Role}
use guard_pipe.Validate.Address.{IpAddr}
use guard_pipe.Organization.Store.{InviteStatus, is_pending, update_first}

pub record ProjectRow : Type 0 where
  pub id : ℕ
  pub org_id : ℕ

pub record RepositoryRow : Type 0 where
  pub project_id : ℕ
  pub url : String
  pub default_branch : String

pub record CredentialRow : Type 0 where
  pub project_id : ℕ
  pub kind : String
  pub ciphertext : String
  pub nonce : String
  pub hint : String
  pub created_by : ℕ

pub data TargetStatus : Type 0 where
  awaiting_attestation attested blocked revoked : TargetStatus

pub record TargetRow : Type 0 where
  pub id : ℕ
  pub project_id : ℕ
  pub target_input : String
  pub normalized_host : String
  pub pinned_ips : List IpAddr
  pub status : TargetStatus
  pub last_resolved_at : ℕ

pub record AttestationRow : Type 0 where
  pub target_id : ℕ
  pub user_id : ℕ
  pub text_version : String
  pub accepted_at : ℕ
  pub source_ip : String

-- `invite_status` is the type that invitations to an organisation have too.
pub record ProjectInvite : Type 0 where
  pub id : ℕ
  pub project_id : ℕ
  pub email : String
  pub role : Role
  pub token_hash : ℕ
  pub status : InviteStatus
  pub expires_at : ℕ

pub record ProjectCollaborator : Type 0 where
  pub project_id : ℕ
  pub user_id : ℕ
  pub role : Role

pub record Projects : Type 0 where
  pub projects : List ProjectRow
  pub repositories : List RepositoryRow
  pub credentials : List CredentialRow
  pub targets : List TargetRow
  pub attestations : List AttestationRow
  pub invites : List ProjectInvite
  pub collaborators : List ProjectCollaborator
  pub next_id : ℕ

unfoldable pub project_by_id : ℕ → Projects → Option ProjectRow
project_by_id i s = find? (λ (p : ProjectRow). p.id == i) s.projects

unfoldable pub repository_of : ℕ → Projects → Option RepositoryRow
repository_of project s = find? (λ (r : RepositoryRow). r.project_id == project) s.repositories

-- WHERE project_id = $1 AND kind = $2
abbrev pub is_credential : ℕ → String → CredentialRow → Bool
is_credential project kind c = c.project_id == project && str_eq c.kind kind

unfoldable pub credential_of : ℕ → String → Projects → Option CredentialRow
credential_of project kind s = find? (is_credential project kind) s.credentials

-- ON CONFLICT (project_id, kind) DO UPDATE
unfoldable pub upsert_credential : CredentialRow → Projects → Projects
upsert_credential row s =
    let conflicts = is_credential row.project_id row.kind in
    record s {
      credentials =
          if any conflicts s.credentials
          then map (λ c. if conflicts c then row else c) s.credentials
          else s.credentials ++ (row ∷ []);
    }

unfoldable pub delete_credential : ℕ → String → Projects → Projects
delete_credential project kind s = record s {
  credentials = keep (λ c. not (is_credential project kind c)) s.credentials;
}

unfoldable pub target_by_id : ℕ → Projects → Option TargetRow
target_by_id i s = find? (λ (t : TargetRow). t.id == i) s.targets

-- UNIQUE (project_id, normalized_host)
unfoldable pub insert_target : TargetRow → Projects → Result (Unit {0}) × Projects
insert_target t s =
    if any
      (λ (u : TargetRow).
        u.project_id == t.project_id && str_eq u.normalized_host t.normalized_host)
      s.targets
    then (err internal_error, s)
    else (ok tt, record s { targets = s.targets ++ t ∷ [] })

unfoldable pub set_target_status : ℕ → TargetStatus → Projects → Projects
set_target_status i status s = record s {
  targets =
      update_first (λ (t : TargetRow). t.id == i) (λ t. record t { status = status }) s.targets;
}

unfoldable pub insert_attestation : AttestationRow → Projects → Projects
insert_attestation a s = record s { attestations = s.attestations ++ (a ∷ []) }

-- ORDER BY last_resolved_at DESC
unfoldable pub insert_target_by_time : TargetRow → List TargetRow → List TargetRow
insert_target_by_time t [] = t ∷ []
insert_target_by_time t (u ∷ us) =
    if leb u.last_resolved_at t.last_resolved_at then t ∷ u ∷ us else u ∷ insert_target_by_time t us

unfoldable pub sort_targets : List TargetRow → List TargetRow
sort_targets [] = []
sort_targets (t ∷ ts) = insert_target_by_time t (sort_targets ts)

unfoldable pub targets_of : ℕ → Projects → List TargetRow
targets_of project s = sort_targets (keep (λ (t : TargetRow). t.project_id == project) s.targets)

unfoldable pub project_invite_by_id : ℕ → Projects → Option ProjectInvite
project_invite_by_id i s = find? (λ (v : ProjectInvite). v.id == i) s.invites

unfoldable pub project_invite_by_hash : ℕ → Projects → Option ProjectInvite
project_invite_by_hash h s = find? (λ (v : ProjectInvite). v.token_hash == h) s.invites

-- `token_hash` is unique.
unfoldable pub insert_project_invite : ProjectInvite → Projects → Result (Unit {0}) × Projects
insert_project_invite v s =
    if is_some (project_invite_by_hash v.token_hash s)
    then (err internal_error, s)
    else (ok tt, record s { invites = s.invites ++ (v ∷ []) })

unfoldable pub set_invite_status : ℕ → InviteStatus → Projects → Projects
set_invite_status i status s = record s {
  invites =
      update_first (λ (v : ProjectInvite). v.id == i) (λ v. record v { status = status }) s.invites;
}

-- The column `email` compares without case.
unfoldable pub exists_pending_invite : (String → String → Bool) → ℕ → ℕ → String → Projects → Bool
exists_pending_invite same_email now project email s =
    any
      (λ (v : ProjectInvite).
        v.project_id == project
        && same_email v.email email
        && is_pending v.status
        && ltb now v.expires_at)
      s.invites

abbrev pub is_grant : ℕ → ℕ → ProjectCollaborator → Bool
is_grant project user g = g.project_id == project && g.user_id == user

unfoldable pub grant_of : ℕ → ℕ → Projects → Option ProjectCollaborator
grant_of project user s = find? (is_grant project user) s.collaborators

-- UNIQUE (project_id, user_id)
unfoldable pub insert_grant : ProjectCollaborator → Projects → Result (Unit {0}) × Projects
insert_grant g s =
    if is_some (grant_of g.project_id g.user_id s)
    then (err internal_error, s)
    else (ok tt, record s { collaborators = s.collaborators ++ (g ∷ []) })

unfoldable pub delete_grant : ℕ → ℕ → Projects → Projects
delete_grant project user s = record s {
  collaborators = keep (λ g. not (is_grant project user g)) s.collaborators;
}
