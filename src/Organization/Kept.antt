-- ===== src/Organization/Kept.antt =====
-- internal/modules/organization/service.go: no operation takes an organisation's last administrator.
use guard_pipe.Prelude.{
  ℕ, ◌+◌, ◌≡◌, ap, inl, inr, true, false, List, [], ◌∷◌, ◌++◌, none, some, arith, sum_of,
  sum_of-append,
}
use guard_pipe.Errors.{Result-cases}
use guard_pipe.Domain.Engine.{Role, Actor}
use guard_pipe.Identity.Store.{User, MemberRow}
use guard_pipe.Organization.Store.{OrgStore}
use guard_pipe.Organization.Service.{
  check_role_change, update_member_role, check_removal, remove_member,
}
use guard_pipe.Organization.Invites.{OrgEnv}
use guard_pipe.Organization.Requests.{
  OrgRequest, changes_role, removes, invites_to, revokes_invite, accepts, lists_mine, declines,
  switches, registers_account, handle_org, run_org,
}
use guard_pipe.Organization.Admins.{
  HasAdmin, user_weight, member_weight, count_admins_weights, resolve_member_cases,
  check_role_change_facts, check_removal_facts, set_home_role-HasAdmin,
  set_membership_role-HasAdmin, delete_membership-HasAdmin,
}
use guard_pipe.Organization.Grows.{
  Grows, Grows-same, register-Grows, switch_org-Grows, create_invite-Grows, accept_invite-Grows,
  revoke_invite-database, decline_invite-database, list_my_invites-database,
}

module _ (o : ℕ) where
  update_member_role-HasAdmin :
      (actor : Actor) (org user : ℕ) (role : Role) (s : OrgStore)
      → HasAdmin o s
      → HasAdmin o (update_member_role actor org user role s).1
  unfolding update_member_role
  update_member_role-HasAdmin actor org user role s h =
      elim (Result-cases (check_role_change actor org user role s)) [
        | inr (e, refused) ↦ rw (refused, update_member_role) h
        | inl (none, same) ↦ rw (same, update_member_role) h
        | inl (some true, allowed) ↦
            let (current, found, safe) =
              check_role_change_facts actor org user s role true allowed in
            rw (allowed, update_member_role)
              (elim (resolve_member_cases org user s (true, current) found) [
                | inl (at_home, home) ↦ set_home_role-HasAdmin o org user s current role home safe h
                | inr (away, row) ↦ cc
              ])
        | inl (some false, allowed) ↦
            let (current, found, safe) =
              check_role_change_facts actor org user s role false allowed in
            rw (allowed, update_member_role)
              (elim (resolve_member_cases org user s (false, current) found) [
                | inl (at_home, home) ↦ cc
                | inr (away, row) ↦
                    set_membership_role-HasAdmin o org user s current role row safe h
              ])
      ]

  remove_member-HasAdmin :
      (actor : Actor) (org user : ℕ) (s : OrgStore)
      → HasAdmin o s
      → HasAdmin o (remove_member actor org user s).1
  unfolding remove_member
  remove_member-HasAdmin actor org user s h = elim (Result-cases (check_removal actor org user s)) [
    | inr (e, refused) ↦ rw (refused, remove_member) h
    | inl (tt, allowed) ↦
        let (current, found, safe) = check_removal_facts actor org user s allowed in
        rw (allowed, remove_member)
          (elim (resolve_member_cases org user s (false, current) found) [
            | inl (at_home, home) ↦ cc
            | inr (away, row) ↦ delete_membership-HasAdmin o org user s current row safe h
          ])
  ]

  -- Rows that are added take no administrator away.
  HasAdmin-more :
      (s s' : OrgStore) (us : List User) (ms : List MemberRow)
      → s'.database.users ≡ s.database.users ++ us
      → s'.database.members ≡ s.database.members ++ ms
      → HasAdmin o s
      → HasAdmin o s'
  HasAdmin-more s s' us ms users members h =
      let before = count_admins_weights o s in
      let after = count_admins_weights o s' in
      let u : sum_of (user_weight o) s'.database.users
          ≡ sum_of (user_weight o) s.database.users + sum_of (user_weight o) us =
        rw users (sum_of-append (user_weight o) s.database.users us) in
      let m : sum_of (member_weight o) s'.database.members
          ≡ sum_of (member_weight o) s.database.members + sum_of (member_weight o) ms =
        rw members (sum_of-append (member_weight o) s.database.members ms) in
      omega (arith, before, after, u, m)

  Grows-HasAdmin : (s s' : OrgStore) → Grows s.database s'.database → HasAdmin o s → HasAdmin o s'
  Grows-HasAdmin s s' g h = HasAdmin-more s s' g.more_users g.more_members g.users g.members h

  same-HasAdmin : (s s' : OrgStore) → s'.database ≡ s.database → HasAdmin o s → HasAdmin o s'
  same-HasAdmin s s' e =
      Grows-HasAdmin s s'
        (Grows-same s.database s'.database (ap (λ d. d.users) e) (ap (λ d. d.members) e))

  handle_org-HasAdmin :
      (env : OrgEnv) (r : OrgRequest) (s : OrgStore)
      → HasAdmin o s
      → HasAdmin o (handle_org env r s)
  unfolding handle_org
  handle_org-HasAdmin env (changes_role actor org user role) s =
      update_member_role-HasAdmin actor org user role s
  handle_org-HasAdmin env (removes actor org user) s = remove_member-HasAdmin actor org user s
  handle_org-HasAdmin env (invites_to now fresh actor org email role) s =
      Grows-HasAdmin s _ (create_invite-Grows env now fresh actor org email role s)
  handle_org-HasAdmin env (revokes_invite actor org i) s =
      same-HasAdmin s _ (revoke_invite-database env actor org i s)
  handle_org-HasAdmin env (accepts now actor text) s =
      Grows-HasAdmin s _ (accept_invite-Grows env now actor text s)
  handle_org-HasAdmin env (lists_mine now actor) s =
      same-HasAdmin s _ (list_my_invites-database env now actor s)
  handle_org-HasAdmin env (declines actor i) s =
      same-HasAdmin s _ (decline_invite-database env actor i s)
  handle_org-HasAdmin env (switches now fresh actor target) s =
      Grows-HasAdmin s _ (switch_org-Grows env.base now fresh actor target s)
  handle_org-HasAdmin env (registers_account input) s =
      Grows-HasAdmin s _ (register-Grows env.base input s.database)

-- An organisation that has an administrator, at home or by membership, has one after every history
-- of role changes, removals, invitations and their answers, switches and registrations, whoever
-- makes them.
pub run_org-HasAdmin :
    (o : ℕ) (env : OrgEnv) (rs : List OrgRequest) (s : OrgStore)
    → HasAdmin o s
    → HasAdmin o (run_org env rs s)
unfolding run_org
run_org-HasAdmin o env [] s h = h
run_org-HasAdmin o env (r ∷ rs) s h =
    run_org-HasAdmin o env rs (handle_org env r s) (handle_org-HasAdmin o env r s h)
