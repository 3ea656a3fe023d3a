-- ===== src/Identity/Service.antt =====
-- internal/modules/identity/service.go and password.go: registering, signing in, rotating refresh
-- tokens, signing out, and switching to another organisation or to one shared project. One clock
-- reading serves a whole call; audit rows and the texts of errors are not modelled.
use guard_pipe.Prelude.{
  ℕ, suc, ◌+◌, ◌/◌, Bool, List, [], ◌∷◌, ◌++◌, Option, none, some, ltb, ◌||◌, is_some, any, String,
  str_eq,
}
use Prim.Native.String.{◌++◌ as append, len}
use guard_pipe.Errors.{
  AppError, Result, ok, err, internal_error, fail_with, unauthorized, forbidden, conflict,
  validation, ◌>>=◌, ◌>>◌, refuse_if,
}
use guard_pipe.Domain.Engine.{Role, admin}
use guard_pipe.Identity.Store.{
  User, Organization, RefreshToken, Database, Action, user_by_email, insert_user, create_token,
}

-- What the code takes from elsewhere: text functions, SHA-256, Argon2id, the signing of access
-- tokens (of a user, an organisation, a role and perhaps a project), and the configured lifetimes.
pub record Env : Type 0 where
  pub trim : String → String
  pub lower : String → String
  pub same_email : String → String → Bool
  pub sha256 : String → ℕ
  pub hash_password : String → Result String
  pub verify_password : String → String → Result Bool
  pub sign : ℕ → ℕ → Role → Option ℕ → Result String
  pub access_ttl : ℕ
  pub refresh_ttl : ℕ
  pub session_ttl : ℕ

abbrev pub max_failed_logins : ℕ
max_failed_logins = 10

-- 15 minutes
abbrev pub lockout_duration : ℕ
lockout_duration = 900_000_000_000

abbrev pub token_invalid : AppError
token_invalid = fail_with unauthorized "auth.token_invalid"

abbrev pub refresh_reused : AppError
refresh_reused = fail_with unauthorized "auth.refresh_reused"

abbrev pub token_expired : AppError
token_expired = fail_with unauthorized "auth.token_expired"

abbrev pub session_expired : AppError
session_expired = fail_with unauthorized "auth.session_expired"

abbrev pub invalid_credentials : AppError
invalid_credentials = fail_with unauthorized "auth.invalid_credentials"

abbrev pub account_suspended : AppError
account_suspended = fail_with forbidden "auth.account_suspended"

-- The account as the response shows it.
pub record SignedIn : Type 0 where
  pub user_id : ℕ
  pub org_id : ℕ
  pub role : Role
  pub scoped_project : Option ℕ

pub record TokenPair : Type 0 where
  pub access_token : String
  pub refresh_token : String
  pub expires_in : ℕ
  pub user : Option SignedIn

-- The row of a new token of a family.
abbrev pub new_token : Env → ℕ → String → User → ℕ → ℕ → ℕ → Option ℕ → Database → RefreshToken
new_token env now fresh user org family issued project db = record {
  id = db.next_id;
  user_id = user.id;
  token_hash = env.sha256 fresh;
  family_id = family;
  family_issued_at = issued;
  expires_at = now + env.refresh_ttl;
  consumed_at = none;
  revoked_at = none;
  org_id = some org;
  project_id = project;
}

-- A value once a write has succeeded; a failed write is an internal error.
abbrev pub answer {ℓ} : {A : Type ℓ} → A → Result (Unit {0}) × Database → Result A × Database
answer a (ok done, db) = (ok a, db)
answer a (err e, db) = (err internal_error, db)

-- `issueTokenPairInFamily`; `fresh` is the text of the 32 random bytes.
unfoldable pub issue_in_family :
    Env → ℕ → String → User → ℕ → Role → ℕ → ℕ → Option ℕ → Action TokenPair
issue_in_family env now fresh user org role family issued project db =
    elim (env.sign user.id org role project) [
      | err e ↦ (err internal_error, db)
      | ok access ↦
          let row = new_token env now fresh user org family issued project db in
          answer
            (record {
              access_token = access;
              refresh_token = fresh;
              expires_in = env.access_ttl / 1_000_000_000;
              user = some (record {
                user_id = user.id;
                org_id = org;
                role = role;
                scoped_project = project;
              });
            })
            (create_token row (record db { next_id = suc db.next_id }))
    ]

-- A new family: its identifier is `id.New()`.
unfoldable pub issue_new_family : Env → ℕ → String → User → ℕ → Role → Option ℕ → Action TokenPair
issue_new_family env now fresh user org role project db =
    issue_in_family env now fresh user org role db.next_id now project
      (record db { next_id = suc db.next_id })

abbrev pub common_passwords : List String
common_passwords =
    "password1234" ∷ "password12345" ∷ "letmein123456" ∷ "qwertyuiop123" ∷ "123456789012"
    ∷ "administrator" ∷ "changeme12345" ∷ "iloveyou12345" ∷ "welcome123456"
    ∷ "correcthorsebatterystaple" ∷ []

unfoldable pub validate_password : (String → String) → String → Result (Unit {0})
validate_password lower password = do
  refuse_if (ltb (len password) 12) (fail_with validation "identity.weak_password")
  refuse_if (any (str_eq (lower password)) common_passwords)
      (fail_with validation "identity.weak_password")

pub record RegisterInput : Type 0 where
  pub email : String
  pub display_name : String
  pub password : String

abbrev pub normalize_email : Env → String → String
normalize_email env email = env.lower (env.trim email)

abbrev pub is_blank : String → Bool
is_blank s = str_eq s ""

abbrev pub org_name_for : String → String
org_name_for name = append name "'s Organization"

-- What `Register` checks before it writes: the address, the name and the hash of the password.
unfoldable pub check_registration :
    Env → RegisterInput → Database → Result (String × String × String)
check_registration env input db = do
  let email = normalize_email env input.email
  let name = env.trim input.display_name
  refuse_if (is_blank email || is_blank name) (fail_with validation "identity.invalid_input")
  validate_password env.lower input.password
  refuse_if (is_some (user_by_email env.same_email email db))
      (fail_with conflict "identity.email_taken")
  hash ← elim (env.hash_password input.password) [ ok h ↦ ok h | err e ↦ err internal_error ]
  ok (email, name, hash)

-- Every account gets an organisation of its own, and is its admin.
unfoldable pub register : Env → RegisterInput → Action User
register env input db = elim (check_registration env input db) [
  | err e ↦ (err e, db)
  | ok (email, name, hash) ↦
      let org : Organization = record {
        id = db.next_id;
        name = org_name_for name;
        suspended_at = none;
      } in
      let user : User = record {
        id = suc db.next_id;
        org_id = db.next_id;
        email = email;
        display_name = name;
        password_hash = hash;
        role = admin;
        last_login_at = none;
        failed_login_count = 0;
        locked_until = none;
        suspended_at = none;
      } in
      let with_org = record db {
        organizations = db.organizations ++ org ∷ [];
        next_id = suc (suc db.next_id);
      } in
      answer user (insert_user env.same_email user with_org)
]
