-- ===== src/Project/Writes.antt =====
-- internal/modules/project/service.go: what a call may write, as a relation between the rows before and
-- after. Every write is to a project that the caller owns.
use guard_pipe.Prelude.{
  ℕ, suc, ◌≡◌, refl, not, List, Option, some, map, ◌==◌, is_some, ==_iff, Bool-cases, Option-cases,
  inl, inr, String, sym, subst,
}
use guard_pipe.Errors.{Result, ok, err, ◌>>=◌, Result-cases, refuse_if-eq-ok, bind-eq-ok, ok_inj}
use guard_pipe.Domain.Engine.{Role, Actor}
use guard_pipe.Organization.Store.{InviteStatus, revoked}
use guard_pipe.Validate.Address.{unmap}
use guard_pipe.Validate.Target.{
  NameServer, TargetResolution, resolved, resolve_target, Resolved-cases,
}
use guard_pipe.Project.Crypto.{encrypt}
use guard_pipe.Project.Store.{
  ProjectRow, CredentialRow, TargetRow, TargetStatus, AttestationRow, ProjectInvite, Projects,
  target_by_id, insert_target, project_invite_by_id, insert_attestation, grant_of,
  insert_project_invite, upsert_credential, delete_credential, set_target_status, set_invite_status,
  delete_grant,
}
use guard_pipe.Project.Service.{
  get_owned_project, get_owned_target, set_credential, check_credential, remove_credential,
  github_pat,
}
use guard_pipe.Project.Targets.{
  AttestationInput, new_target, written, register_target, attest_target, check_attestation,
  revoke_target,
}
use guard_pipe.Project.Collaborators.{
  invite_collaborator, check_collaborator, new_project_invite, answer_with,
  revoke_collaborator_invite, check_withdrawal, remove_collaborator, project_invite_not_found,
}
use guard_pipe.Project.Requests.{
  Settings, ProjectRequest, sets_credential, removes_credential, registers, attests, revokes,
  withdraws, removes, handle_project,
}
use guard_pipe.Project.Elsewhere.{not-false}

-- The caller owns the project.
abbrev pub Owns : Actor → ℕ → Projects → Type 0
Owns actor project s = (p : ProjectRow) × (get_owned_project actor project s ≡ ok p)

pub data Write (set : Settings) (actor : Actor) (s : Projects) : Projects → Type 0 where
  nothing : Write set actor s s
  stores :
      (row : CredentialRow)
      → Owns actor row.project_id s
      → Write set actor s (upsert_credential row s)
  drops :
      (project : ℕ)
      → Owns actor project s
      → Write set actor s (delete_credential project github_pat s)
  adds :
      (t : TargetRow) (lookup : NameServer) (input : String) (r : TargetResolution) (n : ℕ)
      → Owns actor t.project_id s
      → resolve_target set.network lookup set.allow_private set.denylist input ≡ resolved r
      → t.normalized_host ≡ r.normalized_host
      → t.pinned_ips ≡ map unmap r.pinned_ips
      → Write set actor s (insert_target t (record s { next_id = n })).1
  marks :
      (target : ℕ) (status : TargetStatus) (as' : List AttestationRow) (t : TargetRow)
      → target_by_id target s ≡ some t
      → Owns actor t.project_id s
      → Write set actor s (set_target_status target status (record s { attestations = as' }))
  asks :
      (v : ProjectInvite) (n : ℕ)
      → Owns actor v.project_id s
      → Write set actor s (insert_project_invite v (record s { next_id = n })).1
  closes :
      (invite : ℕ) (status : InviteStatus) (v : ProjectInvite)
      → project_invite_by_id invite s ≡ some v
      → Owns actor v.project_id s
      → Write set actor s (set_invite_status invite status s)
  expels :
      (project user : ℕ) → Owns actor project s → Write set actor s (delete_grant project user s)

module _ (set : Settings) (actor : Actor) where
  set_credential-Write :
      (random : Option String) (project : ℕ) (kind token : String) (s : Projects)
      → Write set actor s
          (set_credential set.cipher set.env.trim set.key random actor project kind token s).1
  unfolding set_credential check_credential
  set_credential-Write random project kind token s =
      elim (Result-cases (get_owned_project actor project s)) [
        | inr stopped ↦ rw (stopped.1, set_credential, check_credential) nothing
        | inl owned ↦
            elim (Result-cases (
              check_credential set.cipher set.env.trim actor project kind token s >>= λ _.
              encrypt set.cipher random set.key (set.env.trim token))) [
                | inr refused ↦ rw (refused.1, set_credential) nothing
                | inl sealed ↦ rw (sealed.1, set_credential) (stores _ owned)
              ]
      ]

  remove_credential-Write :
      (project : ℕ) (s : Projects) → Write set actor s (remove_credential actor project s).1
  unfolding remove_credential
  remove_credential-Write project s = elim (Result-cases (get_owned_project actor project s)) [
    | inr stopped ↦ rw (stopped.1, remove_credential) nothing
    | inl owned ↦ rw (owned.1, remove_credential) (drops project owned)
  ]

  -- A target that a call may use is found, and its project is the caller's.
  owned_target :
      (target : ℕ) (s : Projects) (t : TargetRow)
      → get_owned_target actor target s ≡ ok t
      → (target_by_id target s ≡ some t) × Owns actor t.project_id s
  unfolding get_owned_target
  owned_target target s t owned = elim (Option-cases (target_by_id target s)) [
    | inl missing ↦ let stopped = rw (missing, get_owned_target) at owned in cc
    | inr found ↦
        let run = rw (found.1, get_owned_target) at owned in
        let parts =
          bind-eq-ok (get_owned_project actor found.0.project_id s) (λ _. ok found.0) run in
        let same : found.0 ≡ t = ok_inj parts.2 in
        subst (λ t. (target_by_id target s ≡ some t) × Owns actor t.project_id s) same
          (found.1, (parts.0, parts.1))
  ]

  written-rows : (t : TargetRow) (r : Result (Unit {0}) × Projects) → (written t r).1 ≡ r.1
  written-rows t (err e, s) = refl
  written-rows t (ok u, s) = refl

  register_target-Write :
      (lookup : NameServer) (now project : ℕ) (input : String) (s : Projects)
      → Write set actor s
          (register_target set.network lookup set.allow_private set.denylist now actor project input
            s).1
  unfolding register_target
  register_target-Write lookup now project input s =
      elim (Result-cases (get_owned_project actor project s)) [
        | inr stopped ↦ rw (stopped.1, register_target) nothing
        | inl owned ↦
            elim (Resolved-cases
              (resolve_target set.network lookup set.allow_private set.denylist input)) [
                | inr refused ↦ rw (owned.1, refused.1, register_target) nothing
                | inl found ↦
                    let t = new_target set.network s.next_id now project input found.0 in
                    rw (owned.1, found.1, register_target)
                      (subst (Write set actor s)
                        (sym
                          (written-rows t (insert_target t (record s { next_id = suc s.next_id }))))
                        (adds t lookup input found.0 (suc s.next_id) owned found.1 refl refl))
              ]
      ]

  attest_target-Write :
      (now target : ℕ) (given : AttestationInput) (s : Projects)
      → Write set actor s (attest_target set.env.trim now actor target given s).1
  unfolding attest_target check_attestation insert_attestation
  attest_target-Write now target given s =
      elim (Result-cases (check_attestation set.env.trim actor target given s)) [
        | inr refused ↦ rw (refused.1, attest_target) nothing
        | inl checked ↦
            let owned = bind-eq-ok (get_owned_target actor target s) _ checked.1 in
            let own = owned_target target s owned.0 owned.1 in
            rw (checked.1, attest_target) (marks target TargetStatus.attested _ owned.0 own.0 own.1)
      ]

  revoke_target-Write :
      (target : ℕ) (s : Projects) → Write set actor s (revoke_target actor target s).1
  unfolding revoke_target
  revoke_target-Write target s = elim (Result-cases (get_owned_target actor target s)) [
    | inr stopped ↦ rw (stopped.1, revoke_target) nothing
    | inl owned ↦
        let own = owned_target target s owned.0 owned.1 in
        rw (owned.1, revoke_target)
          (marks target TargetStatus.revoked s.attestations owned.0 own.0 own.1)
  ]

  answer_with-rows :
      (v : ProjectInvite) (r : Result (Unit {0}) × Projects) → (answer_with v r).1 ≡ r.1
  answer_with-rows v (err e, s) = refl
  answer_with-rows v (ok u, s) = refl

  invite_collaborator-Write :
      (now : ℕ) (raw : String) (project : ℕ) (address : String) (role : Role) (s : Projects)
      → Write set actor s (invite_collaborator set.env now raw actor project address role s).1
  unfolding invite_collaborator check_collaborator
  invite_collaborator-Write now raw project address role s =
      elim (Result-cases (check_collaborator set.env now actor project address role s)) [
        | inr refused ↦ rw (refused.1, invite_collaborator) nothing
        | inl checked ↦
            let owned = bind-eq-ok (get_owned_project actor project s) _ checked.1 in
            let v = new_project_invite s.next_id (set.env.sha256 raw) now project checked.0 role in
            rw (checked.1, invite_collaborator)
              (subst (Write set actor s)
                (sym (
                  answer_with-rows v
                    (insert_project_invite v (record s { next_id = suc s.next_id }))))
                (asks v (suc s.next_id) (owned.0, owned.1)))
      ]

  -- An invitation that a call may withdraw is found, and its project is the caller's.
  owned_invite :
      (project invite : ℕ) (s : Projects) (v : ProjectInvite)
      → check_withdrawal actor project invite s ≡ ok v
      → (w : ProjectInvite) × (project_invite_by_id invite s ≡ some w) × Owns actor w.project_id s
  unfolding check_withdrawal
  owned_invite project invite s v checked =
      let owned = bind-eq-ok (get_owned_project actor project s) _ checked in
      elim (Option-cases (project_invite_by_id invite s)) [
        | inl missing ↦ let stopped = rw missing at owned.2 in cc
        | inr found ↦
            let run = rw found.1 at owned.2 in
            let fits =
              refuse_if-eq-ok (not (found.0.project_id == project)) project_invite_not_found
                (ok found.0) run in
            let same : project ≡ found.0.project_id =
              sym ((==_iff found.0.project_id project).0 (not-false fits.0)) in
            (found.0, found.1, subst (λ i. Owns actor i s) same (owned.0, owned.1))
      ]

  revoke_collaborator_invite-Write :
      (project invite : ℕ) (s : Projects)
      → Write set actor s (revoke_collaborator_invite actor project invite s).1
  unfolding revoke_collaborator_invite
  revoke_collaborator_invite-Write project invite s =
      elim (Result-cases (check_withdrawal actor project invite s)) [
        | inr refused ↦ rw (refused.1, revoke_collaborator_invite) nothing
        | inl checked ↦
            let own = owned_invite project invite s checked.0 checked.1 in
            rw (checked.1, revoke_collaborator_invite) (closes invite revoked own.0 own.1 own.2)
      ]

  remove_collaborator-Write :
      (project user : ℕ) (s : Projects)
      → Write set actor s (remove_collaborator actor project user s).1
  unfolding remove_collaborator
  remove_collaborator-Write project user s =
      elim (Result-cases (get_owned_project actor project s)) [
        | inr stopped ↦ rw (stopped.1, remove_collaborator) nothing
        | inl owned ↦ elim (Bool-cases (is_some (grant_of project user s))) [
          | inl held ↦ rw (owned.1, held, remove_collaborator) (expels project user owned)
          | inr missing ↦ rw (owned.1, missing, remove_collaborator) nothing
        ]
      ]

  pub handle_project-Write :
      (r : ProjectRequest) (s : Projects) → Write set actor s (handle_project set actor r s)
  unfolding handle_project
  handle_project-Write (sets_credential random project kind token) s =
      set_credential-Write random project kind token s
  handle_project-Write (removes_credential project) s = remove_credential-Write project s
  handle_project-Write (registers lookup now project input) s =
      register_target-Write lookup now project input s
  handle_project-Write (attests now target given) s = attest_target-Write now target given s
  handle_project-Write (revokes target) s = revoke_target-Write target s
  handle_project-Write (ProjectRequest.invites now raw project address role) s =
      invite_collaborator-Write now raw project address role s
  handle_project-Write (withdraws project invite) s =
      revoke_collaborator_invite-Write project invite s
  handle_project-Write (removes project user) s = remove_collaborator-Write project user s
