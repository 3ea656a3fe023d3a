-- ===== src/Identity/Store.antt =====
-- internal/modules/identity/types.go and the repositories of users, organisations, refresh tokens,
-- memberships and project collaborators: the rows that sign-in reads and writes, and its queries.
-- Times are nanoseconds; `next_id` stands for `id.New()`, which never repeats an identifier. Of a
-- refresh token the user agent, the address and the creation time are not kept: no code reads them.
use guard_pipe.Prelude.{
  ℕ, Bool, List, [], ◌∷◌, ◌++◌, Option, none, some, if◌then◌else◌, ◌==◌, ◌&&◌, not, find?, is_some,
  map, String,
}
use guard_pipe.Errors.{Result, ok, err, internal_error, fail_with, not_found}
use guard_pipe.Domain.Engine.{Role}

pub record User : Type 0 where
  pub id : ℕ
  pub org_id : ℕ
  pub email : String
  pub display_name : String
  pub password_hash : String
  pub role : Role
  pub last_login_at : Option ℕ
  pub failed_login_count : ℕ
  pub locked_until : Option ℕ
  pub suspended_at : Option ℕ

-- A row of `organizations`: what sign-in reads of it.
pub record Organization : Type 0 where
  pub id : ℕ
  pub name : String
  pub suspended_at : Option ℕ

pub record RefreshToken : Type 0 where
  pub id : ℕ
  pub user_id : ℕ
  pub token_hash : ℕ
  pub family_id : ℕ
  pub family_issued_at : ℕ
  pub expires_at : ℕ
  pub consumed_at : Option ℕ
  pub revoked_at : Option ℕ
  pub org_id : Option ℕ
  pub project_id : Option ℕ

-- A row of `organization_memberships`.
pub record MemberRow : Type 0 where
  pub org_id : ℕ
  pub user_id : ℕ
  pub role : Role

-- A row of `project_collaborators`, joined with the organisation that owns the project.
pub record CollaboratorRow : Type 0 where
  pub project_id : ℕ
  pub user_id : ℕ
  pub role : Role
  pub owner_org : ℕ

pub record Database : Type 0 where
  pub users : List User
  pub organizations : List Organization
  pub tokens : List RefreshToken
  pub members : List MemberRow
  pub collaborators : List CollaboratorRow
  pub next_id : ℕ

-- An operation on the database: what it wrote stays when it fails.
abbrev pub Action {ℓ} : Type ℓ → Type ℓ
Action A = Database → Result A × Database

unfoldable pub user_by_id : ℕ → Database → Option User
user_by_id i db = find? (λ u. u.id == i) db.users

-- `email` is a CITEXT column: `same` compares as it does.
unfoldable pub user_by_email : (String → String → Bool) → String → Database → Option User
user_by_email same email db = find? (λ u. same u.email email) db.users

-- The changes of one user's row.
unfoldable pub change_user : ℕ → (User → User) → Database → Database
change_user i f db = record db { users = map (λ u. if u.id == i then f u else u) db.users }

unfoldable pub set_failed_login : ℕ → ℕ → Option ℕ → Database → Database
set_failed_login i count until =
    change_user i λ u. record u { failed_login_count = count; locked_until = until }

unfoldable pub record_successful_login : ℕ → ℕ → Database → Database
record_successful_login i at =
    change_user i
      λ u. record u { failed_login_count = 0; locked_until = none; last_login_at = some at }

-- `organizations.suspended_at`; an error where there is no such organisation.
unfoldable pub suspension_state : ℕ → Database → Result (Option ℕ)
suspension_state org db = elim (find? (λ (o : Organization). o.id == org) db.organizations) [
  | none ↦ err (fail_with not_found "identity.organization_not_found")
  | some o ↦ ok o.suspended_at
]

-- Inserts a user: the column `email` is unique.
unfoldable pub insert_user : (String → String → Bool) → User → Action (Unit {0})
insert_user same u db =
    if is_some (user_by_email same u.email db)
    then (err internal_error, db)
    else (ok tt, record db { users = db.users ++ u ∷ [] })

unfoldable pub token_by_hash : ℕ → Database → Option RefreshToken
token_by_hash h db = find? (λ t. t.token_hash == h) db.tokens

-- `RefreshTokenRepo.Create`: the column `token_hash` is unique; the statement names no `project_id`.
unfoldable pub create_token : RefreshToken → Action (Unit {0})
create_token t db =
    if is_some (token_by_hash t.token_hash db)
    then (err internal_error, db)
    else (ok tt, record db { tokens = db.tokens ++ record t { project_id = none } ∷ [] })

-- WHERE id = $1
unfoldable pub consume : ℕ → ℕ → RefreshToken → RefreshToken
consume i at t = if t.id == i then record t { consumed_at = some at } else t

unfoldable pub mark_consumed : ℕ → ℕ → Database → Database
mark_consumed i at db = record db { tokens = map (consume i at) db.tokens }

-- WHERE family_id = $1 AND revoked_at IS NULL
unfoldable pub revoke : ℕ → ℕ → RefreshToken → RefreshToken
revoke family at t =
    if t.family_id == family && not (is_some t.revoked_at)
    then record t { revoked_at = some at }
    else t

unfoldable pub revoke_family : ℕ → ℕ → Database → Database
revoke_family family at db = record db { tokens = map (revoke family at) db.tokens }

unfoldable pub member_role : ℕ → ℕ → Database → Option Role
member_role org user db =
    elim (find? (λ (m : MemberRow). m.org_id == org && m.user_id == user) db.members) [
      | none ↦ none
      | some m ↦ some m.role
    ]

-- The collaborator's role, and the organisation that owns the project.
unfoldable pub collaborator_role : ℕ → ℕ → Database → Option (ℕ × Role)
collaborator_role project user db =
    elim (find? (λ (c : CollaboratorRow). c.project_id == project && c.user_id == user)
      db.collaborators) [ none ↦ none | some c ↦ some (c.owner_org, c.role) ]
