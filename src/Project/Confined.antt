-- ===== src/Project/Confined.antt =====
-- internal/modules/project/service.go: what a session for one shared project can change.
use guard_pipe.Prelude.{All, ℕ, ◌≡◌, refl, false, List, [], ◌∷◌, some}
use guard_pipe.Domain.Engine.{Actor}
use guard_pipe.Project.Store.{Projects, target_by_id, project_invite_by_id}
use guard_pipe.Project.Service.{is_outside, github_pat}
use guard_pipe.Project.Requests.{Settings, Call, handle_project, run_calls}
use guard_pipe.Project.Elsewhere.{
  SameElsewhere, SameElsewhere-refl, SameElsewhere-trans, owned-inside, upsert-SameElsewhere,
  delete_credential-SameElsewhere, insert_target-SameElsewhere, set_target_status-SameElsewhere,
  set_invite_status-SameElsewhere, insert_project_invite-SameElsewhere, delete_grant-SameElsewhere,
}
use guard_pipe.Project.Writes.{
  Owns, Write, nothing, stores, drops, adds, marks, asks, closes, expels, handle_project-Write,
}

module _ (set : Settings) (actor : Actor) (q : ℕ) (scoped : actor.project_id ≡ some q) where
  inside : (project : ℕ) (s : Projects) → Owns actor project s → is_outside (some q) project ≡ false
  inside project s owned = owned-inside actor q project s owned.0 scoped owned.1

  numbered : (s : Projects) (n : ℕ) → SameElsewhere q s (record s { next_id = n })
  numbered s n = record {
    credentials = refl;
    targets = refl;
    invites = refl;
    collaborators = refl;
    projects = refl;
    repositories = refl;
  }

  Write-SameElsewhere : (s s' : Projects) → Write set actor s s' → SameElsewhere q s s'
  unfolding target_by_id project_invite_by_id
  Write-SameElsewhere s _ nothing = SameElsewhere-refl q s
  Write-SameElsewhere s _ (stores row owned) =
      upsert-SameElsewhere q row s (inside row.project_id s owned)
  Write-SameElsewhere s _ (drops project owned) =
      delete_credential-SameElsewhere q project github_pat s (inside project s owned)
  Write-SameElsewhere s _ (adds t lookup input r n owned found host ips) =
      let s1 : Projects = record s { next_id = n } in
      SameElsewhere-trans q s s1 _ (numbered s n)
        (insert_target-SameElsewhere q t s1 (inside t.project_id s owned))
  Write-SameElsewhere s _ (marks target status rows t found owned) =
      let s1 : Projects = record s { attestations = rows } in
      SameElsewhere-trans q s s1 _
        record {
          credentials = refl;
          targets = refl;
          invites = refl;
          collaborators = refl;
          projects = refl;
          repositories = refl;
        }
        (set_target_status-SameElsewhere q target status t s1 found (inside t.project_id s owned))
  Write-SameElsewhere s _ (asks v n owned) =
      let s1 : Projects = record s { next_id = n } in
      SameElsewhere-trans q s s1 _ (numbered s n)
        (insert_project_invite-SameElsewhere q v s1 (inside v.project_id s owned))
  Write-SameElsewhere s _ (closes invite status v found owned) =
      set_invite_status-SameElsewhere q invite status v s found (inside v.project_id s owned)
  Write-SameElsewhere s _ (expels project user owned) =
      delete_grant-SameElsewhere q project user s (inside project s owned)

-- Sessions that switched to one shared project change no other: after any sequence of their requests to
-- set or remove a credential, register, attest or revoke a target, invite somebody, withdraw an invitation
-- or remove a collaborator, whatever projects, targets and invitations they name, the credentials,
-- targets, invitations and collaborators of every other project are as they were, and so are the projects
-- and the repositories.
pub run_calls-SameElsewhere :
    (set : Settings) (q : ℕ) (calls : List Call) (s : Projects)
    → All (λ (c : Call). c.actor.project_id ≡ some q) calls
    → SameElsewhere q s (run_calls set calls s)
unfolding run_calls
run_calls-SameElsewhere set q [] s scoped = SameElsewhere-refl q s
run_calls-SameElsewhere set q (c ∷ cs) s scoped =
    let s1 = handle_project set c.actor c.request s in
    SameElsewhere-trans q s s1 _
      (Write-SameElsewhere set c.actor q scoped.0 s s1
        (handle_project-Write set c.actor c.request s))
      (run_calls-SameElsewhere set q cs s1 scoped.1)
