-- ===== src/Organization/Service.antt =====
-- internal/modules/organization/service.go: members and their roles. Audit rows are not modelled.
use guard_pipe.Prelude.{
  ℕ, ◌+◌, Bool, true, false, not, ◌&&◌, Option, none, some, if◌then◌else◌, ◌==◌, leb, sum_of,
  String, str_eq,
}
use guard_pipe.Errors.{
  AppError, Result, ok, err, internal_error, fail_with, not_found, validation, forbidden, ◌>>=◌,
  ◌>>◌, refuse_if,
}
use guard_pipe.Domain.Engine.{Role, admin, member, viewer, other_role, role_valid, is_admin, Actor}
use guard_pipe.Identity.Store.{user_by_id}
use guard_pipe.Identity.Service.{Env, TokenPair}
use guard_pipe.Identity.Sessions.{issue_for_org}
use guard_pipe.Organization.Store.{
  OrgStore, list_home_members, list_by_org, get_membership, set_membership_role, delete_membership,
  set_home_role,
}

-- An operation on the rows: what it wrote stays when it fails.
abbrev pub Operation {ℓ} : Type ℓ → Type ℓ
Operation A = OrgStore → Result A × OrgStore

abbrev pub role_eq : Role → Role → Bool
role_eq admin admin = true
role_eq member member = true
role_eq viewer viewer = true
role_eq (other_role s) (other_role t) = str_eq s t
role_eq _ _ = false

-- Another organisation's name is not confirmed: not found.
unfoldable pub require_own_org : Actor → ℕ → Result (Unit {0})
require_own_org actor org =
    refuse_if (not (actor.org_id == org)) (fail_with not_found "organization.not_found")

abbrev pub member_not_found : AppError
member_not_found = fail_with not_found "organization.member_not_found"

-- Whether the member's home is this organisation, and the member's role in it.
unfoldable pub resolve_member : ℕ → ℕ → OrgStore → Result (Bool × Role)
resolve_member org user s = elim (user_by_id user s.database) [
  | none ↦ err member_not_found
  | some u ↦ if u.org_id == org then ok (true, u.role) else elim (get_membership org user s) [
    | none ↦ err member_not_found
    | some m ↦ ok (false, m.role)
  ]
]

abbrev pub one_if : Bool → ℕ
one_if true = 1
one_if false = 0

-- The administrators of an organisation, at home or by membership.
unfoldable pub count_admins : ℕ → OrgStore → ℕ
count_admins org s =
    sum_of (λ u. one_if (is_admin u.role)) (list_home_members org s)
    + sum_of (λ m. one_if (is_admin m.role)) (list_by_org org s)

unfoldable pub require_not_last_admin : ℕ → OrgStore → Result (Unit {0})
require_not_last_admin org s =
    refuse_if (leb (count_admins org s) 1) (fail_with validation "organization.last_admin")

-- What `UpdateMemberRole` checks; `none` where the role is the same already, else whether the member's
-- home is this organisation.
unfoldable pub check_role_change : Actor → ℕ → ℕ → Role → OrgStore → Result (Option Bool)
check_role_change actor org user role s = do
  require_own_org actor org
  refuse_if (not (role_valid role)) (fail_with validation "organization.invalid_input")
  m ← resolve_member org user s
  if role_eq m.1 role then ok none else do
    if is_admin m.1 && not (is_admin role) then require_not_last_admin org s else ok tt
    ok (some m.0)

unfoldable pub update_member_role : Actor → ℕ → ℕ → Role → Operation (Unit {0})
update_member_role actor org user role s = elim (check_role_change actor org user role s) [
  | err e ↦ (err e, s)
  | ok none ↦ (ok tt, s)
  | ok (some true) ↦ (ok tt, set_home_role user role s)
  | ok (some false) ↦ (ok tt, set_membership_role org user role s)
]

-- What `RemoveMember` checks.
unfoldable pub check_removal : Actor → ℕ → ℕ → OrgStore → Result (Unit {0})
check_removal actor org user s = do
  require_own_org actor org
  m ← resolve_member org user s
  refuse_if m.0 (fail_with validation "organization.cannot_remove_founder")
  if is_admin m.1 then require_not_last_admin org s else ok tt

unfoldable pub remove_member : Actor → ℕ → ℕ → Operation (Unit {0})
remove_member actor org user s = elim (check_removal actor org user s) [
  | err e ↦ (err e, s)
  | ok allowed ↦ (ok tt, delete_membership org user s)
]

-- The caller's role in the organisation to switch to.
unfoldable pub switch_role : Actor → ℕ → OrgStore → Result Role
switch_role actor target s = elim (user_by_id actor.user_id s.database) [
  | none ↦ err internal_error
  | some u ↦
      if target == u.org_id then ok u.role else elim (get_membership target actor.user_id s) [
        | none ↦ err (fail_with forbidden "organization.not_a_member")
        | some m ↦ ok m.role
      ]
]

-- `SwitchOrg`: a new session for the target organisation.
unfoldable pub switch_org : Env → ℕ → String → Actor → ℕ → Operation TokenPair
switch_org env now fresh actor target s = elim (switch_role actor target s) [
  | err e ↦ (err e, s)
  | ok role ↦
      let (pair, database) = issue_for_org env now fresh actor.user_id target role s.database in
      (pair, record s { database = database })
]
