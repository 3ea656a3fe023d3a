-- ===== src/Organization/Store.antt =====
-- internal/modules/organization/types.go and the repositories of memberships and invitations: rows
-- and queries. Users and memberships are those of Identity.Store. A key is unique, so a statement
-- that names one touches the first row that has it.
use guard_pipe.Prelude.{
  ℕ, Bool, true, false, List, [], ◌∷◌, ◌++◌, Option, if◌then◌else◌, ◌==◌, ltb, ◌&&◌, any, find?,
  is_some, keep, String,
}
use guard_pipe.Errors.{Result, ok, err, internal_error}
use guard_pipe.Domain.Engine.{Role}
use guard_pipe.Identity.Store.{User, MemberRow, Database}

pub data InviteStatus : Type 0 where
  pending accepted expired revoked declined : InviteStatus

abbrev pub is_pending : InviteStatus → Bool
is_pending pending = true
is_pending _ = false

pub record Invite : Type 0 where
  pub id : ℕ
  pub org_id : ℕ
  pub email : String
  pub role : Role
  pub token_hash : ℕ
  pub status : InviteStatus
  pub expires_at : ℕ

pub record OrgStore : Type 0 where
  pub database : Database
  pub invites : List Invite

module _ {ℓ} {A : Type ℓ} where
  -- UPDATE … WHERE the key is this one
  abbrev pub update_first : (A → Bool) → (A → A) → List A → List A
  update_first p f [] = []
  update_first p f (x ∷ xs) = if p x then f x ∷ xs else x ∷ update_first p f xs

  -- DELETE … WHERE the key is this one
  abbrev pub delete_first : (A → Bool) → List A → List A
  delete_first p [] = []
  delete_first p (x ∷ xs) = if p x then xs else x ∷ delete_first p xs

abbrev pub is_membership : ℕ → ℕ → MemberRow → Bool
is_membership org user m = m.org_id == org && m.user_id == user

abbrev pub is_user : ℕ → User → Bool
is_user i u = u.id == i

-- `ListHomeMembers`
unfoldable pub list_home_members : ℕ → OrgStore → List User
list_home_members org s = keep (λ u. u.org_id == org) s.database.users

-- `MembershipRepo.ListByOrg`
unfoldable pub list_by_org : ℕ → OrgStore → List MemberRow
list_by_org org s = keep (λ m. m.org_id == org) s.database.members

unfoldable pub get_membership : ℕ → ℕ → OrgStore → Option MemberRow
get_membership org user s = find? (is_membership org user) s.database.members

-- UNIQUE (org_id, user_id)
unfoldable pub insert_membership : MemberRow → OrgStore → Result OrgStore
insert_membership m s =
    if is_some (find? (is_membership m.org_id m.user_id) s.database.members)
    then err internal_error
    else ok (record s { database = record s.database { members = s.database.members ++ m ∷ [] } })

unfoldable pub set_membership_role : ℕ → ℕ → Role → OrgStore → OrgStore
set_membership_role org user role s = record s {
  database = record s.database {
    members =
        update_first (is_membership org user) (λ m. record m { role = role }) s.database.members;
  };
}

unfoldable pub delete_membership : ℕ → ℕ → OrgStore → OrgStore
delete_membership org user s = record s {
  database = record s.database {
    members = delete_first (is_membership org user) s.database.members;
  };
}

unfoldable pub set_home_role : ℕ → Role → OrgStore → OrgStore
set_home_role user role s = record s {
  database = record s.database {
    users = update_first (is_user user) (λ u. record u { role = role }) s.database.users;
  };
}

abbrev pub is_invite : ℕ → Invite → Bool
is_invite i inv = inv.id == i

unfoldable pub invite_by_id : ℕ → OrgStore → Option Invite
invite_by_id i s = find? (is_invite i) s.invites

unfoldable pub invite_by_hash : ℕ → OrgStore → Option Invite
invite_by_hash h s = find? (λ (inv : Invite). inv.token_hash == h) s.invites

-- UNIQUE (token_hash)
unfoldable pub insert_invite : Invite → OrgStore → Result OrgStore
insert_invite inv s =
    if is_some (invite_by_hash inv.token_hash s)
    then err internal_error
    else ok (record s { invites = s.invites ++ inv ∷ [] })

unfoldable pub set_status : ℕ → InviteStatus → OrgStore → OrgStore
set_status i status s = record s {
  invites = update_first (is_invite i) (λ inv. record inv { status = status }) s.invites;
}

-- A pending invitation of the organisation to this address that has not expired.
unfoldable pub exists_pending : (String → String → Bool) → ℕ → ℕ → String → OrgStore → Bool
exists_pending same now org email s =
    any
      (λ (inv : Invite).
        inv.org_id == org
        && same inv.email email
        && is_pending inv.status
        && ltb now inv.expires_at)
      s.invites
