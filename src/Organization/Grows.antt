-- ===== src/Organization/Grows.antt =====
-- internal/modules/organization/service.go: the operations that take no row of a user or member away.
use guard_pipe.Prelude.{
  ℕ, suc, ◌≡◌, refl, sym, ◌∙◌, inl, inr, Bool, true, false, ◌&&◌, List, [], ◌∷◌, ◌++◌, Option, none,
  if◌then◌else◌, ltb, is_some, find?, Bool-cases, Option-cases, String, str_eq,
}
use mathlib.Core.List.{append-nil}
use guard_pipe.Errors.{Result-cases}
use guard_pipe.Domain.Engine.{Role, Actor}
use guard_pipe.Identity.Store.{
  User, MemberRow, Database, user_by_id, user_by_email, token_by_hash, insert_user,
}
use guard_pipe.Identity.Service.{
  Env, RegisterInput, register, check_registration, new_token, issue_in_family, issue_new_family,
}
use guard_pipe.Identity.Sessions.{refuse_suspended, issue_scoped, issue_for_org}
use guard_pipe.Identity.Moves.{create_token_taken, create_token_new}
use guard_pipe.Organization.Store.{
  expired, OrgStore, Invite, is_pending, insert_membership, insert_invite, invite_by_hash,
  set_status, is_membership,
}
use guard_pipe.Organization.Service.{switch_role, switch_org}
use guard_pipe.Organization.Invites.{
  OrgEnv, check_invite, new_invite, create_invite, check_revocation, revoke_invite,
  check_acceptance, granted_membership, accept_row, find_invite, accept_invite, expire_each,
  list_my_invites, check_decline, decline_invite, draw_id,
}

-- Users and memberships that are there stay; some may be added at the end.
pub record Grows (d d' : Database) : Type 0 where
  pub more_users : List User
  pub more_members : List MemberRow
  pub users : d'.users ≡ d.users ++ more_users
  pub members : d'.members ≡ d.members ++ more_members

pub Grows-same : (d d' : Database) → d'.users ≡ d.users → d'.members ≡ d.members → Grows d d'
Grows-same d d' us ms = record {
  more_users = [];
  more_members = [];
  users = us ∙ sym (append-nil d.users);
  members = ms ∙ sym (append-nil d.members);
}

module _ (env : Env) where
  pub register-Grows : (input : RegisterInput) (d : Database) → Grows d (register env input d).1
  unfolding register insert_user user_by_email
  register-Grows input d = elim (Result-cases (check_registration env input d)) [
    | inr (e, refused) ↦ rw (refused, register) (Grows-same d d refl refl)
    | inl (checked, accepted) ↦
        elim (Bool-cases (is_some (user_by_email env.same_email checked.0 d))) [
          | inl old ↦ rw (accepted, old, register) (Grows-same d _ refl refl)
          | inr new ↦
              rw (accepted, new, register)
                (record {
                  more_users = _;
                  more_members = [];
                  users = refl;
                  members = sym (append-nil d.members);
                })
        ]
  ]

  pub issue_in_family-Grows :
      (now : ℕ) (fresh : String) (user : User) (org : ℕ) (role : Role) (family issued : ℕ)
      (project : Option ℕ) (d : Database)
      → Grows d (issue_in_family env now fresh user org role family issued project d).1
  unfolding issue_in_family
  issue_in_family-Grows now fresh user org role family issued project d =
      let row = new_token env now fresh user org family issued project d in
      let d1 : Database = record d { next_id = suc d.next_id } in
      elim (Result-cases (env.sign user.id org role project)) [
        | inr (e, failed) ↦ rw (failed, issue_in_family) (Grows-same d d refl refl)
        | inl (access, signed) ↦ elim (Bool-cases (is_some (token_by_hash row.token_hash d1))) [
          | inl taken ↦
              rw (signed, create_token_taken env now row d1 taken, issue_in_family)
                (Grows-same d d1 refl refl)
          | inr new ↦
              rw (signed, create_token_new env now row d1 new, issue_in_family)
                (Grows-same d _ refl refl)
        ]
      ]

  pub issue_scoped-Grows :
      (now : ℕ) (fresh : String) (i org : ℕ) (role : Role) (project : Option ℕ) (d : Database)
      → Grows d (issue_scoped env now fresh i org role project d).1
  unfolding issue_scoped issue_new_family
  issue_scoped-Grows now fresh i org role project d = elim (Option-cases (user_by_id i d)) [
    | inl nobody ↦ rw (nobody, issue_scoped) (Grows-same d d refl refl)
    | inr (user, known) ↦ elim (Result-cases (refuse_suspended user org d)) [
      | inr (e, suspended) ↦ rw (known, suspended, issue_scoped) (Grows-same d d refl refl)
      | inl (allowed, active) ↦
          let g =
            issue_in_family-Grows now fresh user org role d.next_id now project
              (record d { next_id = suc d.next_id }) in
          rw (known, active, issue_scoped)
            (record {
              more_users = g.more_users;
              more_members = g.more_members;
              users = g.users;
              members = g.members;
            })
    ]
  ]

  pub switch_org-Grows :
      (now : ℕ) (fresh : String) (actor : Actor) (target : ℕ) (s : OrgStore)
      → Grows s.database (switch_org env now fresh actor target s).1.database
  unfolding switch_org issue_for_org
  switch_org-Grows now fresh actor target s = elim (Result-cases (switch_role actor target s)) [
    | inr (e, refused) ↦ rw (refused, switch_org) (Grows-same s.database s.database refl refl)
    | inl (role, allowed) ↦
        rw (allowed, switch_org)
          (issue_scoped-Grows now fresh actor.user_id target role none s.database)
  ]

pub set_if-database :
    (late : Bool) (i : ℕ) (s : OrgStore)
    → (if late then set_status i expired s else s).database ≡ s.database
unfolding set_status
set_if-database true i s = refl
set_if-database false i s = refl

pub expire_each-database :
    (now : ℕ) (invs : List Invite) (s : OrgStore) → (expire_each now invs s).database ≡ s.database
unfolding expire_each
expire_each-database now [] s = refl
expire_each-database now (inv ∷ invs) s =
    expire_each-database now invs _
    ∙ set_if-database (is_pending inv.status && ltb inv.expires_at now) inv.id s

module _ (env : OrgEnv) where
  pub create_invite-Grows :
      (now : ℕ) (fresh : String) (actor : Actor) (org : ℕ) (email : String) (role : Role)
      (s : OrgStore)
      → Grows s.database (create_invite env now fresh actor org email role s).1.database
  unfolding create_invite insert_invite
  create_invite-Grows now fresh actor org email role s =
      elim (Result-cases (check_invite env now actor org email role s)) [
        | inr (e, refused) ↦
            rw (refused, create_invite) (Grows-same s.database s.database refl refl)
        | inl (address, allowed) ↦
            let inv = new_invite env now fresh org address role s in
            elim (Bool-cases (is_some (invite_by_hash inv.token_hash (draw_id s)))) [
              | inl taken ↦ rw (allowed, taken, create_invite) (Grows-same s.database _ refl refl)
              | inr new ↦ rw (allowed, new, create_invite) (Grows-same s.database _ refl refl)
            ]
      ]

  pub accept_row-Grows :
      (now : ℕ) (actor : Actor) (inv : Invite) (s : OrgStore)
      → Grows s.database (accept_row env now actor inv s).1.database
  unfolding accept_row insert_membership set_status
  accept_row-Grows now actor inv s = elim (Bool-cases (is_pending inv.status)) [
    | inr closed ↦ rw closed (Grows-same s.database s.database refl refl)
    | inl waiting ↦ elim (Bool-cases (ltb inv.expires_at now)) [
      | inl late ↦ rw (waiting, late) (Grows-same s.database _ refl refl)
      | inr in_time ↦ elim (Result-cases (check_acceptance env actor inv s)) [
        | inr (e, refused) ↦
            rw (waiting, in_time, refused, accept_row) (Grows-same s.database s.database refl refl)
        | inl (allowed, accepted_by) ↦
            let m = granted_membership actor inv in
            elim (Bool-cases
              (is_some (find? (is_membership m.org_id m.user_id) s.database.members))) [
                | inl there ↦
                    rw (waiting, in_time, accepted_by, there, accept_row)
                      (Grows-same s.database s.database refl refl)
                | inr new ↦
                    rw (waiting, in_time, accepted_by, new, accept_row)
                      (record {
                        more_users = [];
                        more_members = _;
                        users = sym (append-nil s.database.users);
                        members = refl;
                      })
              ]
      ]
    ]
  ]

  pub accept_invite-Grows :
      (now : ℕ) (actor : Actor) (text : String) (s : OrgStore)
      → Grows s.database (accept_invite env now actor text s).1.database
  unfolding accept_invite
  accept_invite-Grows now actor text s =
      let identifier = env.base.trim text in
      elim (Bool-cases (str_eq identifier "")) [
        | inl blank ↦ rw (blank, accept_invite) (Grows-same s.database s.database refl refl)
        | inr given ↦ elim (Option-cases (find_invite env identifier s)) [
          | inl nothing ↦
              rw (given, nothing, accept_invite) (Grows-same s.database s.database refl refl)
          | inr (inv, found) ↦ rw (given, found, accept_invite) (accept_row-Grows now actor inv s)
        ]
      ]

  -- What touches invitations only.
  pub revoke_invite-database :
      (actor : Actor) (org i : ℕ) (s : OrgStore)
      → (revoke_invite actor org i s).1.database ≡ s.database
  unfolding revoke_invite set_status
  revoke_invite-database actor org i s = elim (Result-cases (check_revocation actor org i s)) [
    | inr (e, refused) ↦ rw (refused, revoke_invite) refl
    | inl (allowed, checked) ↦ rw (checked, revoke_invite) refl
  ]

  pub decline_invite-database :
      (actor : Actor) (i : ℕ) (s : OrgStore)
      → (decline_invite env actor i s).1.database ≡ s.database
  unfolding decline_invite set_status
  decline_invite-database actor i s = elim (Result-cases (check_decline env actor i s)) [
    | inr (e, refused) ↦ rw (refused, decline_invite) refl
    | inl (allowed, checked) ↦ rw (checked, decline_invite) refl
  ]

  pub list_my_invites-database :
      (now : ℕ) (actor : Actor) (s : OrgStore)
      → (list_my_invites env now actor s).1.database ≡ s.database
  unfolding list_my_invites
  list_my_invites-database now actor s = elim (Option-cases (user_by_id actor.user_id s.database)) [
    | inl nobody ↦ rw (nobody, list_my_invites) refl
    | inr (caller, known) ↦ rw (known, list_my_invites) (expire_each-database now _ s)
  ]
