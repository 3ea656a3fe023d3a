-- ===== src/Organization/Admins.antt =====
-- internal/modules/organization/service.go: an organisation keeps an administrator.
use guard_pipe.Prelude.{
  find?-holds, ℕ, ◌+◌, ◌≤◌, ◌<◌, ◌≡◌, subst, ◌⊎◌, inl, inr, Bool, true, false, not, ◌&&◌, none,
  some, arith, if◌then◌else◌, ◌==◌, sum_of, Bool-cases, Option-cases,
}
use guard_pipe.Errors.{ok, ◌>>◌, bind-eq-ok, refuse_if-eq-ok}
use guard_pipe.Domain.Engine.{Role, is_admin, role_valid, Actor}
use guard_pipe.Identity.Store.{User, MemberRow, user_by_id}
use guard_pipe.Organization.Store.{
  OrgStore, is_membership, is_user, list_home_members, list_by_org, get_membership,
  set_membership_role, delete_membership, set_home_role,
}
use guard_pipe.Organization.Service.{
  role_eq, require_own_org, resolve_member, one_if, count_admins, require_not_last_admin,
  check_role_change, check_removal,
}
use guard_pipe.Organization.Sums.{
  sum_of-update_first_any, sum_of-update_first, sum_of-delete_first_any, sum_of-delete_first,
  sum_of-keep,
}

module _ (o : ℕ) where
  abbrev pub user_weight : User → ℕ
  user_weight u = if u.org_id == o then one_if (is_admin u.role) else 0

  abbrev pub member_weight : MemberRow → ℕ
  member_weight m = if m.org_id == o then one_if (is_admin m.role) else 0

  pub count_admins_weights :
      (s : OrgStore)
      → count_admins o s
        ≡ sum_of user_weight s.database.users + sum_of member_weight s.database.members
  unfolding count_admins list_home_members list_by_org
  count_admins_weights s = omega (
    arith,
    sum_of-keep (λ u. one_if (is_admin u.role)) (λ (u : User). u.org_id == o) s.database.users,
    sum_of-keep (λ m. one_if (is_admin m.role)) (λ (m : MemberRow). m.org_id == o)
        s.database.members,
  )

  abbrev pub HasAdmin : OrgStore → Type 0
  HasAdmin s = 0 < count_admins o s

-- A change from this role to that one leaves an administrator behind.
abbrev pub IsSafe : ℕ → OrgStore → Role → Role → Type 0
IsSafe org s current role =
    ((is_admin current && not (is_admin role)) ≡ false) ⊎ (1 < count_admins org s)

module _ (org user : ℕ) (s : OrgStore) where
  -- Where a member that was found stands.
  abbrev pub IsHomeOf : Role → Type 0
  IsHomeOf r =
      (u : User) × (user_by_id user s.database ≡ some u) × ((u.org_id == org) ≡ true) × (u.role ≡ r)

  abbrev pub IsMemberAs : Role → Type 0
  IsMemberAs r = (m : MemberRow) × (get_membership org user s ≡ some m) × (m.role ≡ r)

  pub resolve_member_cases :
      (m : Bool × Role)
      → resolve_member org user s ≡ ok m
      → ((m.0 ≡ true) × IsHomeOf m.1) ⊎ ((m.0 ≡ false) × IsMemberAs m.1)
  unfolding resolve_member
  resolve_member_cases m e = elim (Option-cases (user_by_id user s.database)) [
    | inl nobody ↦ absurd (ground (arith, nobody))
    | inr (u, known) ↦ elim (Bool-cases (u.org_id == org)) [
      | inl home ↦ inl (ground (arith, known), (u, known, home, ground (arith, known)))
      | inr away ↦ elim (Option-cases (get_membership org user s)) [
        | inl no_row ↦ absurd (ground (arith, known, no_row))
        | inr (r, row) ↦ inr (ground (arith, known, row), (r, row, ground (arith, known, row)))
      ]
    ]
  ]

  role_change_step :
      (role : Role) (home : Bool) (m : Bool × Role)
      → (if role_eq m.1 role
          then ok none
          else ((if is_admin m.1 && not (is_admin role)
                then require_not_last_admin org s
                else ok tt)
              >> ok (some m.0)))
        ≡ ok (some home)
      → (m.0 ≡ home) × IsSafe org s m.1 role
  unfolding require_not_last_admin
  role_change_step role home m e = elim (Bool-cases (role_eq m.1 role)) [
    | inl same ↦ absurd (ground arith)
    | inr other ↦ elim (Bool-cases (is_admin m.1 && not (is_admin role))) [
      | inr kept ↦ (ground arith, inl kept)
      | inl demoted ↦ (ground arith, inr (ground arith))
    ]
  ]

module _ (actor : Actor) (org user : ℕ) (s : OrgStore) where
  pub check_role_change_facts :
      (role : Role) (home : Bool)
      → check_role_change actor org user role s ≡ ok (some home)
      → (current : Role) × (resolve_member org user s ≡ ok (home, current))
        × IsSafe org s current role
  unfolding check_role_change
  check_role_change_facts role home e =
      let (own, own_ok, e1) = bind-eq-ok (require_own_org actor org) _ e in
      let (valid, e2) = refuse_if-eq-ok (not (role_valid role)) _ _ e1 in
      let (m, found, e3) = bind-eq-ok (resolve_member org user s) _ e2 in
      let (same, safe) = role_change_step org user s role home m e3 in
      (m.1, subst (λ h. resolve_member org user s ≡ ok (h, m.1)) same found, safe)

  pub check_removal_facts :
      check_removal actor org user s ≡ ok tt
      → (current : Role) × (resolve_member org user s ≡ ok (false, current))
        × ((is_admin current ≡ false) ⊎ (1 < count_admins org s))
  unfolding check_removal require_not_last_admin
  check_removal_facts e =
      let (own, own_ok, e1) = bind-eq-ok (require_own_org actor org) _ e in
      let (m, found, e2) = bind-eq-ok (resolve_member org user s) _ e1 in
      let (away, e3) = refuse_if-eq-ok m.0 _ _ e2 in
      (
        m.1,
        subst (λ h. resolve_member org user s ≡ ok (h, m.1)) away found,
        elim (Bool-cases (is_admin m.1)) [
          | inl chief ↦ inr (ground (arith, e3, chief))
          | inr plain ↦ inl plain
        ],
      )

module _ (o : ℕ) where
  small_user : (u : User) → user_weight o u ≤ 1
  small_user u = ground arith

  small_member : (m : MemberRow) → member_weight o m ≤ 1
  small_member m = ground arith

  pub set_home_role-HasAdmin :
      (org user : ℕ) (s : OrgStore) (current role : Role)
      → IsHomeOf org user s current
      → IsSafe org s current role
      → HasAdmin o s
      → HasAdmin o (set_home_role user role s)
  unfolding set_home_role user_by_id
  set_home_role-HasAdmin org user s current role (u, found, home, is_role) safe h =
      let w = user_weight o in
      let f : User → User = λ v. record v { role = role } in
      let before = count_admins_weights o s in
      let after = count_admins_weights o (set_home_role user role s) in
      elim safe [
        | inl kept ↦
            let grows : w u ≤ w (f u) = ground (arith, is_role, kept) in
            omega (
              arith,
              before,
              after,
              sum_of-update_first w (is_user user) f s.database.users {x = u} found grows,
            )
        | inr two ↦ elim (Bool-cases (u.org_id == o)) [
          | inl here ↦
              let same : org ≡ o = ground (arith, home) in
              let two_here : 1 < count_admins o s = subst (λ n. 1 < count_admins n s) same two in
              omega (
                arith,
                before,
                after,
                two_here,
                sum_of-update_first_any w (is_user user) f s.database.users small_user,
              )
          | inr other ↦
              let grows : w u ≤ w (f u) = ground arith in
              omega (
                arith,
                before,
                after,
                sum_of-update_first w (is_user user) f s.database.users {x = u} found grows,
              )
        ]
      ]

  pub set_membership_role-HasAdmin :
      (org user : ℕ) (s : OrgStore) (current role : Role)
      → IsMemberAs org user s current
      → IsSafe org s current role
      → HasAdmin o s
      → HasAdmin o (set_membership_role org user role s)
  unfolding set_membership_role get_membership
  set_membership_role-HasAdmin org user s current role (m, found, is_role) safe h =
      let w = member_weight o in
      let f : MemberRow → MemberRow = λ v. record v { role = role } in
      let p = is_membership org user in
      let before = count_admins_weights o s in
      let after = count_admins_weights o (set_membership_role org user role s) in
      let of_org = find?-holds p s.database.members {x = m} found in
      elim safe [
        | inl kept ↦
            let grows : w m ≤ w (f m) = ground (arith, is_role, kept) in
            omega (
              arith,
              before,
              after,
              sum_of-update_first w p f s.database.members {x = m} found grows,
            )
        | inr two ↦ elim (Bool-cases (m.org_id == o)) [
          | inl here ↦
              let same : org ≡ o = ground (arith, of_org) in
              let two_here : 1 < count_admins o s = subst (λ n. 1 < count_admins n s) same two in
              omega (
                arith,
                before,
                after,
                two_here,
                sum_of-update_first_any w p f s.database.members small_member,
              )
          | inr other ↦
              let grows : w m ≤ w (f m) = ground arith in
              omega (
                arith,
                before,
                after,
                sum_of-update_first w p f s.database.members {x = m} found grows,
              )
        ]
      ]

  pub delete_membership-HasAdmin :
      (org user : ℕ) (s : OrgStore) (current : Role)
      → IsMemberAs org user s current
      → (is_admin current ≡ false) ⊎ (1 < count_admins org s)
      → HasAdmin o s
      → HasAdmin o (delete_membership org user s)
  unfolding delete_membership get_membership
  delete_membership-HasAdmin org user s current (m, found, is_role) safe h =
      let w = member_weight o in
      let p = is_membership org user in
      let before = count_admins_weights o s in
      let after = count_admins_weights o (delete_membership org user s) in
      let of_org = find?-holds p s.database.members {x = m} found in
      let gone : w m ≡ 0 → HasAdmin o (delete_membership org user s) = λ z.
        omega (arith, before, after, sum_of-delete_first w p s.database.members {x = m} found z) in
      elim safe [
        | inl plain ↦ gone (ground (arith, is_role, plain))
        | inr two ↦ elim (Bool-cases (m.org_id == o)) [
          | inl here ↦
              let same : org ≡ o = ground (arith, of_org) in
              let two_here : 1 < count_admins o s = subst (λ n. 1 < count_admins n s) same two in
              omega (
                arith,
                before,
                after,
                two_here,
                sum_of-delete_first_any w p s.database.members small_member,
              )
          | inr other ↦ gone (ground arith)
        ]
      ]
