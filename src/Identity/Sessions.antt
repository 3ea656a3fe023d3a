-- ===== src/Identity/Sessions.antt =====
-- internal/modules/identity/service.go: `Login`, `Refresh`, `Logout`, `CheckSuspension`,
-- `IssueTokenPairForOrg` and `IssueTokenPairForProject`.
use guard_pipe.Prelude.{
  ℕ, ◌+◌, Bool, true, false, Option, none, some, if◌then◌else◌, ltb, leb, ◌==◌, is_some, String,
}
use guard_pipe.Errors.{Result, ok, err, internal_error, fail_with, not_found}
use guard_pipe.Domain.Engine.{Role, Actor}
use guard_pipe.Identity.Store.{
  User, RefreshToken, Database, Action, user_by_id, user_by_email, set_failed_login,
  record_successful_login, suspension_state, token_by_hash, mark_consumed, revoke_family,
  member_role, collaborator_role,
}
use guard_pipe.Identity.Service.{
  Env, TokenPair, issue_in_family, issue_new_family, normalize_email, max_failed_logins,
  lockout_duration, token_invalid, refresh_reused, token_expired, session_expired,
  invalid_credentials, account_suspended,
}

-- The rejection of a suspended account or organisation.
unfoldable pub refuse_suspended : User → ℕ → Database → Result (Unit {0})
refuse_suspended user org db =
    if is_some user.suspended_at then err account_suspended else elim (suspension_state org db) [
      | err e ↦ err internal_error
      | ok none ↦ ok tt
      | ok (some at) ↦ err account_suspended
    ]

abbrev pub is_locked : ℕ → Option ℕ → Bool
is_locked now none = false
is_locked now (some until) = ltb now until

-- The row after a wrong password: the tenth failure in a row locks the account.
unfoldable pub count_failure : ℕ → User → Database → Database
count_failure now user =
    let count = user.failed_login_count + 1 in
    set_failed_login user.id count
      (if leb max_failed_logins count then some (now + lockout_duration) else none)

unfoldable pub login_user : Env → ℕ → String → String → User → Action TokenPair
login_user env now password fresh user db =
    if is_locked now user.locked_until
    then (err invalid_credentials, db)
    else elim (refuse_suspended user user.org_id db) [
      | err e ↦ (err e, db)
      | ok allowed ↦ elim (env.verify_password password user.password_hash) [
        | err e ↦ (err internal_error, db)
        | ok false ↦ (err invalid_credentials, count_failure now user db)
        | ok true ↦
            issue_new_family env now fresh user user.org_id user.role none
              (record_successful_login user.id now db)
      ]
    ]

unfoldable pub login : Env → ℕ → String → String → String → Action TokenPair
login env now email password fresh db =
    elim (user_by_email env.same_email (normalize_email env email) db) [
      | none ↦ (err invalid_credentials, db)
      | some user ↦ login_user env now password fresh user db
    ]

-- The organisation and the role that a refreshed session acts in; `none` where the collaborator's
-- grant or the membership behind it is gone.
unfoldable pub scope_of : User → RefreshToken → Database → Option (ℕ × Role)
scope_of user rt db = elim rt.project_id [
  | some project ↦ collaborator_role project user.id db
  | none ↦ elim rt.org_id [
    | none ↦ some (user.org_id, user.role)
    | some org ↦
        if org == user.org_id
        then some (user.org_id, user.role)
        else elim (member_role org user.id db) [ none ↦ none | some role ↦ some (org, role) ]
  ]
]

abbrev pub without_user : Result TokenPair → Result TokenPair
without_user (ok pair) = ok (record pair { user = none })
without_user (err e) = err e

-- `Refresh` once the token is consumed.
unfoldable pub rotate : Env → ℕ → String → RefreshToken → Action TokenPair
rotate env now fresh rt db = elim (user_by_id rt.user_id db) [
  | none ↦ (err internal_error, db)
  | some user ↦ elim (scope_of user rt db) [
    | none ↦ (err token_invalid, revoke_family rt.family_id now db)
    | some (org, role) ↦
        let (pair, db') =
          issue_in_family env now fresh user org role rt.family_id rt.family_issued_at rt.project_id
            db in
        (without_user pair, db')
  ]
]

-- `Refresh` on the row of the token that was presented.
unfoldable pub refresh_token : Env → ℕ → String → RefreshToken → Action TokenPair
refresh_token env now fresh rt db =
    if is_some rt.revoked_at
    then (err token_invalid, db)
    else if is_some rt.consumed_at
    then (err refresh_reused, revoke_family rt.family_id now db)
    else if ltb rt.expires_at now
    then (err token_expired, db)
    else if ltb (rt.family_issued_at + env.session_ttl) now
    then (err session_expired, revoke_family rt.family_id now db)
    else rotate env now fresh rt (mark_consumed rt.id now db)

-- One step: two refreshes at the same time are not modelled.
unfoldable pub refresh : Env → ℕ → String → String → Action TokenPair
refresh env now raw fresh db = elim (token_by_hash (env.sha256 raw) db) [
  | none ↦ (err token_invalid, db)
  | some rt ↦ refresh_token env now fresh rt db
]

unfoldable pub logout : Env → ℕ → String → Action (Unit {0})
logout env now raw db = elim (token_by_hash (env.sha256 raw) db) [
  | none ↦ (ok tt, db)
  | some rt ↦ (ok tt, revoke_family rt.family_id now db)
]

unfoldable pub check_suspension : Actor → Database → Result (Unit {0})
check_suspension actor db = elim (user_by_id actor.user_id db) [
  | none ↦ err token_invalid
  | some user ↦ refuse_suspended user actor.org_id db
]

unfoldable pub me : Actor → Database → Result User
me actor db = elim (user_by_id actor.user_id db) [
  | none ↦ err (fail_with not_found "identity.user_not_found")
  | some user ↦ ok user
]

-- `IssueTokenPairForOrg`, and `IssueTokenPairForProject` where a project is given.
unfoldable pub issue_scoped : Env → ℕ → String → ℕ → ℕ → Role → Option ℕ → Action TokenPair
issue_scoped env now fresh user_id org role project db = elim (user_by_id user_id db) [
  | none ↦ (err token_invalid, db)
  | some user ↦ elim (refuse_suspended user org db) [
    | err e ↦ (err e, db)
    | ok allowed ↦ issue_new_family env now fresh user org role project db
  ]
]

unfoldable pub issue_for_org : Env → ℕ → String → ℕ → ℕ → Role → Action TokenPair
issue_for_org env now fresh user_id org role = issue_scoped env now fresh user_id org role none

unfoldable pub issue_for_project : Env → ℕ → String → ℕ → ℕ → ℕ → Role → Action TokenPair
issue_for_project env now fresh user_id project org role =
    issue_scoped env now fresh user_id org role (some project)
