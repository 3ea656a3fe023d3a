-- ===== src/Project/Elsewhere.antt =====
-- internal/store/repo and internal/modules/project/service.go: what a write to one project leaves of the rows
-- of the others.
use guard_pipe.Prelude.{
  ◌&&◌, ℕ, ◌≡◌, refl, sym, ◌∙◌, Bool, true, false, not, some, if◌then◌else◌, ◌==◌, ==_iff, and_true,
  str_eq, keep, any, is_some, Bool-cases, Option-cases, inl, inr, String,
}
use guard_pipe.Errors.{AppError, ok, refuse_if, ◌>>◌, refuse_if-eq-ok, bind-eq-ok}
use guard_pipe.Domain.Engine.{Actor}
use guard_pipe.Project.Store.{
  ProjectRow, CredentialRow, TargetRow, TargetStatus, ProjectInvite, ProjectCollaborator, Projects,
  project_by_id, target_by_id, insert_target, project_invite_by_id, project_invite_by_hash,
  is_credential, is_grant, upsert_credential, delete_credential, set_target_status,
  insert_project_invite, set_invite_status, delete_grant,
}
use guard_pipe.Project.Service.{is_outside, project_not_found, get_owned_project}
use guard_pipe.Project.Frame.{keep-map_same, keep-append_gone, keep-keep, keep-update_first}
use guard_pipe.Organization.Store.{InviteStatus}

-- The credentials, targets, invitations and collaborators of every other project are as they were, and
-- so are the projects and the repositories.
pub record SameElsewhere (q : ℕ) (s s' : Projects) : Type 0 where
  pub credentials :
      keep (λ (c : CredentialRow). is_outside (some q) c.project_id) s'.credentials
      ≡ keep (λ (c : CredentialRow). is_outside (some q) c.project_id) s.credentials
  pub targets :
      keep (λ (t : TargetRow). is_outside (some q) t.project_id) s'.targets
      ≡ keep (λ (t : TargetRow). is_outside (some q) t.project_id) s.targets
  pub invites :
      keep (λ (v : ProjectInvite). is_outside (some q) v.project_id) s'.invites
      ≡ keep (λ (v : ProjectInvite). is_outside (some q) v.project_id) s.invites
  pub collaborators :
      keep (λ (g : ProjectCollaborator). is_outside (some q) g.project_id) s'.collaborators
      ≡ keep (λ (g : ProjectCollaborator). is_outside (some q) g.project_id) s.collaborators
  pub projects : s'.projects ≡ s.projects
  pub repositories : s'.repositories ≡ s.repositories

pub SameElsewhere-refl : (q : ℕ) (s : Projects) → SameElsewhere q s s
SameElsewhere-refl q s = record {
  credentials = refl;
  targets = refl;
  invites = refl;
  collaborators = refl;
  projects = refl;
  repositories = refl;
}

pub SameElsewhere-trans :
    (q : ℕ) (a b c : Projects) → SameElsewhere q a b → SameElsewhere q b c → SameElsewhere q a c
SameElsewhere-trans q a b c ab bc = record {
  credentials = bc.credentials ∙ ab.credentials;
  targets = bc.targets ∙ ab.targets;
  invites = bc.invites ∙ ab.invites;
  collaborators = bc.collaborators ∙ ab.collaborators;
  projects = bc.projects ∙ ab.projects;
  repositories = bc.repositories ∙ ab.repositories;
}

not_refused : (stop : Bool) (e : AppError) (u : Unit {0}) → refuse_if stop e ≡ ok u → stop ≡ false
not_refused true e u h = cc
not_refused false e u h = refl

pub not-false : {b : Bool} → not b ≡ false → b ≡ true
not-false {b = true} h = refl
not-false {b = false} h = sym h

-- A session for one project owns no other.
pub owned-inside :
    (actor : Actor) (q project : ℕ) (s : Projects) (p : ProjectRow)
    → actor.project_id ≡ some q
    → get_owned_project actor project s ≡ ok p
    → is_outside (some q) project ≡ false
unfolding get_owned_project
owned-inside actor q project s p scoped owned = elim (Option-cases (project_by_id project s)) [
  | inl missing ↦ let stopped = rw (missing, get_owned_project) at owned in cc
  | inr found ↦
      let run = rw (found.1, scoped, get_owned_project) at owned in
      let last =
        bind-eq-ok
          (refuse_if (not (found.0.org_id == actor.org_id)) project_not_found
            >> refuse_if (is_outside (some q) project) project_not_found)
          (λ _. ok found.0) run in
      let inner =
        refuse_if-eq-ok (not (found.0.org_id == actor.org_id)) project_not_found
          (refuse_if (is_outside (some q) project) project_not_found) last.1 in
      not_refused (is_outside (some q) project) project_not_found _ inner.1
]

pub same_project :
    (a b q : ℕ) → (a == b) ≡ true → is_outside (some q) b ≡ false → is_outside (some q) a ≡ false
same_project a b q same inside = rw ((==_iff a b).0 same) inside

credential_inside :
    (q project : ℕ) (kind : String) (c : CredentialRow)
    → is_outside (some q) project ≡ false
    → is_credential project kind c ≡ true
    → is_outside (some q) c.project_id ≡ false
credential_inside q project kind c inside same =
    same_project c.project_id project q
      (and_true {a = c.project_id == project} {b = str_eq c.kind kind} same).0 inside

pub upsert-SameElsewhere :
    (q : ℕ) (row : CredentialRow) (s : Projects)
    → is_outside (some q) row.project_id ≡ false
    → SameElsewhere q s (upsert_credential row s)
unfolding upsert_credential
upsert-SameElsewhere q row s inside =
    let elsewhere : CredentialRow → Bool = λ c. is_outside (some q) c.project_id in
    let conflicts = is_credential row.project_id row.kind in
    record {
      credentials = elim (Bool-cases (any conflicts s.credentials)) [
        | inl old ↦ rw old (
            keep-map_same elsewhere (λ c. if conflicts c then row else c) s.credentials
              λ c. elim (Bool-cases (conflicts c)) [
                | inl hit ↦
                    rw hit (inr (credential_inside q row.project_id row.kind c inside hit, inside))
                | inr miss ↦ rw miss (inl refl)
              ])
        | inr new ↦ rw new (keep-append_gone elsewhere s.credentials row inside)
      ];
      targets = refl;
      invites = refl;
      collaborators = refl;
      projects = refl;
      repositories = refl;
    }

pub delete_credential-SameElsewhere :
    (q project : ℕ) (kind : String) (s : Projects)
    → is_outside (some q) project ≡ false
    → SameElsewhere q s (delete_credential project kind s)
unfolding delete_credential
delete_credential-SameElsewhere q project kind s inside = record {
  credentials =
      keep-keep (λ (c : CredentialRow). is_outside (some q) c.project_id)
        (λ c. not (is_credential project kind c)) s.credentials
        λ c goes. credential_inside q project kind c inside (not-false goes);
  targets = refl;
  invites = refl;
  collaborators = refl;
  projects = refl;
  repositories = refl;
}

pub insert_target-SameElsewhere :
    (q : ℕ) (t : TargetRow) (s : Projects)
    → is_outside (some q) t.project_id ≡ false
    → SameElsewhere q s (insert_target t s).1
unfolding insert_target
insert_target-SameElsewhere q t s inside =
    let twin : TargetRow → Bool =
      λ u. u.project_id == t.project_id && str_eq u.normalized_host t.normalized_host in
    elim (Bool-cases (any twin s.targets)) [
      | inl taken ↦ rw taken (SameElsewhere-refl q s)
      | inr free ↦ rw free record {
        targets =
            keep-append_gone (λ (t : TargetRow). is_outside (some q) t.project_id) s.targets t
              inside;
        credentials = refl;
        invites = refl;
        collaborators = refl;
        projects = refl;
        repositories = refl;
      }
    ]

pub set_target_status-SameElsewhere :
    (q i : ℕ) (status : TargetStatus) (t : TargetRow) (s : Projects)
    → target_by_id i s ≡ some t
    → is_outside (some q) t.project_id ≡ false
    → SameElsewhere q s (set_target_status i status s)
unfolding set_target_status target_by_id
set_target_status-SameElsewhere q i status t s found inside = record {
  targets =
      keep-update_first (λ (t : TargetRow). is_outside (some q) t.project_id)
        (λ (t : TargetRow). t.id == i) (λ t. record t { status = status }) s.targets t found inside
        inside;
  credentials = refl;
  invites = refl;
  collaborators = refl;
  projects = refl;
  repositories = refl;
}

pub set_invite_status-SameElsewhere :
    (q i : ℕ) (status : InviteStatus) (v : ProjectInvite) (s : Projects)
    → project_invite_by_id i s ≡ some v
    → is_outside (some q) v.project_id ≡ false
    → SameElsewhere q s (set_invite_status i status s)
unfolding set_invite_status project_invite_by_id
set_invite_status-SameElsewhere q i status v s found inside = record {
  invites =
      keep-update_first (λ (v : ProjectInvite). is_outside (some q) v.project_id)
        (λ (v : ProjectInvite). v.id == i) (λ v. record v { status = status }) s.invites v found
        inside inside;
  credentials = refl;
  targets = refl;
  collaborators = refl;
  projects = refl;
  repositories = refl;
}

pub insert_project_invite-SameElsewhere :
    (q : ℕ) (v : ProjectInvite) (s : Projects)
    → is_outside (some q) v.project_id ≡ false
    → SameElsewhere q s (insert_project_invite v s).1
unfolding insert_project_invite
insert_project_invite-SameElsewhere q v s inside =
    elim (Bool-cases (is_some (project_invite_by_hash v.token_hash s))) [
      | inl taken ↦ rw taken (SameElsewhere-refl q s)
      | inr free ↦ rw free record {
        invites =
            keep-append_gone (λ (v : ProjectInvite). is_outside (some q) v.project_id) s.invites v
              inside;
        credentials = refl;
        targets = refl;
        collaborators = refl;
        projects = refl;
        repositories = refl;
      }
    ]

pub delete_grant-SameElsewhere :
    (q project user : ℕ) (s : Projects)
    → is_outside (some q) project ≡ false
    → SameElsewhere q s (delete_grant project user s)
unfolding delete_grant
delete_grant-SameElsewhere q project user s inside = record {
  collaborators =
      keep-keep (λ (g : ProjectCollaborator). is_outside (some q) g.project_id)
        (λ g. not (is_grant project user g)) s.collaborators
        λ g goes.
          same_project g.project_id project q
            (and_true {a = g.project_id == project} {b = g.user_id == user} (not-false goes)).0
            inside;
  credentials = refl;
  targets = refl;
  invites = refl;
  projects = refl;
  repositories = refl;
}
