-- ===== src/Organization/Invites.antt =====
-- internal/modules/organization/service.go: invitations. Audit rows are not modelled.
use guard_pipe.Prelude.{
  ℕ, suc, ◌+◌, Bool, true, false, not, ◌&&◌, List, [], ◌∷◌, Option, none, some, if◌then◌else◌, ◌==◌,
  ltb, any, keep, String, str_eq,
}
use guard_pipe.Errors.{
  AppError, Result, ok, err, internal_error, fail_with, not_found, validation, forbidden, conflict,
  unprocessable, ◌>>=◌, ◌>>◌, refuse_if,
}
use guard_pipe.Domain.Engine.{Role, role_valid, Actor}
use guard_pipe.Identity.Store.{User, MemberRow, user_by_id}
use guard_pipe.Identity.Service.{Env, normalize_email}
use guard_pipe.Organization.Store.{
  OrgStore, Invite, pending, accepted, expired, revoked, declined, is_pending, list_home_members,
  list_by_org, insert_membership, invite_by_id, invite_by_hash, insert_invite, set_status,
  exists_pending,
}
use guard_pipe.Organization.Service.{Operation, require_own_org}

-- Seven days
abbrev pub invite_ttl : ℕ
invite_ttl = 604_800_000_000_000

-- What the code takes from elsewhere: that of signing in, folding compare, and parsing a UUID.
pub record OrgEnv : Type 0 where
  pub base : Env
  pub equal_fold : String → String → Bool
  pub parse_uuid : String → Option ℕ

abbrev pub invite_not_found : AppError
invite_not_found = fail_with not_found "organization.invite_not_found"

abbrev pub invite_not_pending : AppError
invite_not_pending = fail_with unprocessable "organization.invite_not_pending"

abbrev pub invite_expired : AppError
invite_expired = fail_with unprocessable "organization.invite_expired"

-- The second loop of `isAlreadyMember`: it fails at a membership whose user is gone.
unfoldable pub any_member_with :
    (String → String → Bool) → String → OrgStore → List MemberRow → Result Bool
any_member_with same email s [] = ok false
any_member_with same email s (m ∷ ms) =
    let rest = any_member_with same email s ms in
    elim (user_by_id m.user_id s.database) [
      | none ↦ err internal_error
      | some u ↦ if same u.email email then ok true else rest
    ]

unfoldable pub is_already_member : (String → String → Bool) → ℕ → String → OrgStore → Result Bool
is_already_member same org email s =
    if any (λ (u : User). same u.email email) (list_home_members org s)
    then ok true
    else any_member_with same email s (list_by_org org s)

-- What `CreateInvite` checks before it draws a token.
unfoldable pub check_invite : OrgEnv → ℕ → Actor → ℕ → String → Role → OrgStore → Result String
check_invite env now actor org address role s = do
  require_own_org actor org
  let email = normalize_email env.base address
  refuse_if (str_eq email "") (fail_with validation "organization.invalid_input")
  refuse_if (not (role_valid role)) (fail_with validation "organization.invalid_input")
  already ← is_already_member env.equal_fold org email s
  refuse_if already (fail_with conflict "organization.already_member")
  refuse_if (exists_pending env.base.same_email now org email s)
      (fail_with conflict "organization.invite_already_pending")
  ok email

abbrev pub new_invite : OrgEnv → ℕ → String → ℕ → String → Role → OrgStore → Invite
new_invite env now fresh org email role s = record {
  id = s.database.next_id;
  org_id = org;
  email = email;
  role = role;
  token_hash = env.base.sha256 fresh;
  status = pending;
  expires_at = now + invite_ttl;
}

abbrev pub draw_id : OrgStore → OrgStore
draw_id s = record s { database = record s.database { next_id = suc s.database.next_id } }

-- A write that may fail: an internal error then, and no change.
abbrev pub written {ℓ} : {A : Type ℓ} → A → OrgStore → Result OrgStore → Result A × OrgStore
written a s (ok s') = (ok a, s')
written a s (err e) = (err internal_error, s)

unfoldable pub create_invite : OrgEnv → ℕ → String → Actor → ℕ → String → Role → Operation Invite
create_invite env now fresh actor org address role s =
    elim (check_invite env now actor org address role s) [
      | err e ↦ (err e, s)
      | ok email ↦
          let inv = new_invite env now fresh org email role s in
          written inv (draw_id s) (insert_invite inv (draw_id s))
    ]

unfoldable pub check_revocation : Actor → ℕ → ℕ → OrgStore → Result (Unit {0})
check_revocation actor org i s = do
  require_own_org actor org
  elim (invite_by_id i s) [
    | none ↦ err invite_not_found
    | some inv ↦
        if not (inv.org_id == org)
        then err invite_not_found
        else refuse_if (not (is_pending inv.status)) invite_not_pending
  ]

unfoldable pub revoke_invite : Actor → ℕ → ℕ → Operation (Unit {0})
revoke_invite actor org i s = elim (check_revocation actor org i s) [
  | err e ↦ (err e, s)
  | ok allowed ↦ (ok tt, set_status i revoked s)
]

-- What `acceptInvite` checks of a pending invitation that has not expired.
unfoldable pub check_acceptance : OrgEnv → Actor → Invite → OrgStore → Result (Unit {0})
check_acceptance env actor inv s = elim (user_by_id actor.user_id s.database) [
  | none ↦ err internal_error
  | some caller ↦ do
    refuse_if (not (env.equal_fold caller.email inv.email))
        (fail_with forbidden "organization.invite_email_mismatch")
    already ← is_already_member env.equal_fold inv.org_id caller.email s
    refuse_if already (fail_with conflict "organization.already_member")
]

-- The membership that an invitation gives.
abbrev pub granted_membership : Actor → Invite → MemberRow
granted_membership actor inv = record {
  org_id = inv.org_id;
  user_id = actor.user_id;
  role = inv.role;
}

unfoldable pub accept_row : OrgEnv → ℕ → Actor → Invite → Operation MemberRow
accept_row env now actor inv s =
    if not (is_pending inv.status)
    then (err invite_not_pending, s)
    else if ltb inv.expires_at now
    then (err invite_expired, set_status inv.id expired s)
    else elim (check_acceptance env actor inv s) [
      | err e ↦ (err e, s)
      | ok allowed ↦
          let m = granted_membership actor inv in
          elim (insert_membership m s) [
            | err e ↦ (err internal_error, s)
            | ok s' ↦ (ok m, set_status inv.id accepted s')
          ]
    ]

-- The invitation that an identifier means: its UUID, or else its token.
unfoldable pub find_invite : OrgEnv → String → OrgStore → Option Invite
find_invite env identifier s = elim (env.parse_uuid identifier) [
  | some i ↦ invite_by_id i s
  | none ↦ invite_by_hash (env.base.sha256 identifier) s
]

unfoldable pub accept_invite : OrgEnv → ℕ → Actor → String → Operation MemberRow
accept_invite env now actor text s =
    let identifier = env.base.trim text in
    if str_eq identifier ""
    then (err (fail_with validation "organization.invalid_input"), s)
    else elim (find_invite env identifier s) [
      | none ↦ (err invite_not_found, s)
      | some inv ↦ accept_row env now actor inv s
    ]

-- The loop of `ListMyInvites` over the caller's invitations: pending ones that have run out are marked.
unfoldable pub expire_each : ℕ → List Invite → OrgStore → OrgStore
expire_each now [] s = s
expire_each now (inv ∷ invs) s =
    expire_each now invs
      (if is_pending inv.status && ltb inv.expires_at now then set_status inv.id expired s else s)

abbrev pub is_actionable : ℕ → Invite → Bool
is_actionable now inv = is_pending inv.status && not (ltb inv.expires_at now)

unfoldable pub list_my_invites : OrgEnv → ℕ → Actor → Operation (List Invite)
list_my_invites env now actor s = elim (user_by_id actor.user_id s.database) [
  | none ↦ (err internal_error, s)
  | some caller ↦
      let mine = keep (λ (inv : Invite). env.base.same_email inv.email caller.email) s.invites in
      (ok (keep (is_actionable now) mine), expire_each now mine s)
]

unfoldable pub check_decline : OrgEnv → Actor → ℕ → OrgStore → Result (Unit {0})
check_decline env actor i s = elim (invite_by_id i s) [
  | none ↦ err invite_not_found
  | some inv ↦ do
    refuse_if (not (is_pending inv.status)) invite_not_pending
    elim (user_by_id actor.user_id s.database) [
      | none ↦ err internal_error
      | some caller ↦
          refuse_if (not (env.equal_fold caller.email inv.email))
            (fail_with forbidden "organization.invite_email_mismatch")
    ]
]

unfoldable pub decline_invite : OrgEnv → Actor → ℕ → Operation (Unit {0})
decline_invite env actor i s = elim (check_decline env actor i s) [
  | err e ↦ (err e, s)
  | ok allowed ↦ (ok tt, set_status i declined s)
]
