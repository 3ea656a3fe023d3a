-- ===== src/Identity/Refines.antt =====
-- internal/modules/identity/service.go: every request follows the abstract view of the token table.
use guard_pipe.Prelude.{
  ℕ, ◌+◌, ◌≡◌, refl, true, false, Option, none, some, arith, ltb, is_some, String, Bool-cases,
  Option-cases, inl, inr,
}
use guard_pipe.Errors.{Result-cases}
use guard_pipe.Domain.Engine.{Role}
use guard_pipe.Identity.Store.{
  User, RefreshToken, Database, user_by_id, user_by_email, change_user, set_failed_login,
  record_successful_login, insert_user, token_by_hash, mark_consumed, revoke_family,
}
use guard_pipe.Identity.Service.{Env, RegisterInput, check_registration, register, normalize_email}
use guard_pipe.Identity.Sessions.{
  refuse_suspended, is_locked, count_failure, login_user, login, scope_of, rotate, refresh_token,
  refresh, logout, issue_scoped, issue_for_org, issue_for_project,
}
use guard_pipe.Identity.Requests.{
  Request, registers, logs_in, refreshes, logs_out, switches_org, switches_project, elsewhere,
  handle,
}
use guard_pipe.Identity.Moves.{
  MayRotate, Move, keeps, revokes, consumes, drops, rotates, issue_new_family-Move,
  issue_in_family-Issued, refused, written,
}

module _ (env : Env) where
  pub register-Move :
      (input : RegisterInput) (db : Database) → Move env db (register env input db).1
  unfolding register insert_user user_by_email
  register-Move input db = elim (Result-cases (check_registration env input db)) [
    | inr (e, refused_input) ↦ rw (refused_input, register) (keeps refl (omega arith))
    | inl (checked, accepted) ↦
        let taken = is_some (user_by_email env.same_email checked.0 db) in
        elim (Bool-cases taken) [
          | inl old ↦ rw (accepted, old, register) (keeps refl (omega arith))
          | inr new ↦ rw (accepted, new, register) (keeps refl (omega arith))
        ]
  ]

  module _ (now : ℕ) where
    login_user-Move :
        (password fresh : String) (user : User) (db : Database)
        → Move env db (login_user env now password fresh user db).1
    unfolding login_user count_failure set_failed_login change_user record_successful_login
    login_user-Move password fresh user db = elim (Bool-cases (is_locked now user.locked_until)) [
      | inl locked ↦ rw locked (keeps refl (omega arith))
      | inr unlocked ↦ elim (Result-cases (refuse_suspended user user.org_id db)) [
        | inr (e, suspended) ↦ rw (unlocked, suspended, login_user) (keeps refl (omega arith))
        | inl (allowed, active) ↦
            elim (Result-cases (env.verify_password password user.password_hash)) [
              | inr (e, broken) ↦
                  rw (unlocked, active, broken, login_user) (keeps refl (omega arith))
              | inl (true, right) ↦
                  rw (unlocked, active, right, login_user)
                    (issue_new_family-Move env now fresh user user.org_id user.role none db _ refl
                      refl)
              | inl (false, wrong) ↦
                  rw (unlocked, active, wrong, login_user) (keeps refl (omega arith))
            ]
      ]
    ]

    login-Move :
        (email password fresh : String) (db : Database)
        → Move env db (login env now email password fresh db).1
    unfolding login
    login-Move email password fresh db =
        elim (Option-cases (user_by_email env.same_email (normalize_email env email) db)) [
          | inl nobody ↦ rw (nobody, login) (keeps refl (omega arith))
          | inr (user, known) ↦ rw (known, login) (login_user-Move password fresh user db)
        ]

    logout-Move : (raw : String) (db : Database) → Move env db (logout env now raw db).1
    unfolding logout revoke_family
    logout-Move raw db = elim (Option-cases (token_by_hash (env.sha256 raw) db)) [
      | inl nothing ↦ rw (nothing, logout) (keeps refl (omega arith))
      | inr (t, found) ↦ rw (found, logout) (revokes t.family_id now refl (omega arith))
    ]

    pub issue_scoped-Move :
        (fresh : String) (i org : ℕ) (role : Role) (project : Option ℕ) (db : Database)
        → Move env db (issue_scoped env now fresh i org role project db).1
    unfolding issue_scoped
    issue_scoped-Move fresh i org role project db = elim (Option-cases (user_by_id i db)) [
      | inl nobody ↦ rw (nobody, issue_scoped) (keeps refl (omega arith))
      | inr (user, known) ↦ elim (Result-cases (refuse_suspended user org db)) [
        | inr (e, suspended) ↦ rw (known, suspended, issue_scoped) (keeps refl (omega arith))
        | inl (allowed, active) ↦
            rw (known, active, issue_scoped)
              (issue_new_family-Move env now fresh user org role project db db refl refl)
      ]
    ]

    rotate-Move :
        (fresh : String) (t : RefreshToken) (db : Database)
        → MayRotate env now db t
        → Move env db (rotate env now fresh t (mark_consumed t.id now db)).1
    unfolding rotate mark_consumed revoke_family
    rotate-Move fresh t db may =
        let used = mark_consumed t.id now db in
        elim (Option-cases (user_by_id t.user_id used)) [
          | inl nobody ↦ rw (nobody, rotate) (consumes now t may refl (omega arith))
          | inr (user, known) ↦ elim (Option-cases (scope_of user t used)) [
            | inl gone ↦ rw (known, gone, rotate) (drops now t may refl (omega arith))
            | inr (scope, kept) ↦
                rw (known, kept, rotate)
                  (elim (issue_in_family-Issued env now fresh user scope.0 scope.1 t.family_id
                    t.family_issued_at t.project_id used) [
                      | refused same later ↦ consumes now t may same later
                      | written row new of_family same later ↦
                          rotates now t row may new of_family same later
                    ])
          ]
        ]

    refresh_token-Move :
        (hash : ℕ) (fresh : String) (t : RefreshToken) (db : Database)
        → token_by_hash hash db ≡ some t
        → Move env db (refresh_token env now fresh t db).1
    unfolding refresh_token revoke_family
    refresh_token-Move hash fresh t db found = elim (Bool-cases (is_some t.revoked_at)) [
      | inl ended ↦ rw ended (keeps refl (omega arith))
      | inr alive ↦ elim (Bool-cases (is_some t.consumed_at)) [
        | inl reused ↦ rw (alive, reused) (revokes t.family_id now refl (omega arith))
        | inr unused ↦ elim (Bool-cases (ltb t.expires_at now)) [
          | inl late ↦ rw (alive, unused, late) (keeps refl (omega arith))
          | inr in_time ↦ elim (Bool-cases (ltb (t.family_issued_at + env.session_ttl) now)) [
            | inl over ↦
                rw (alive, unused, in_time, over) (revokes t.family_id now refl (omega arith))
            | inr within ↦
                rw (alive, unused, in_time, within)
                  (rotate-Move fresh t db (record {
                    hash = hash;
                    found = found;
                    live = record { unused = ground arith; unrevoked = ground arith };
                    in_time = ground arith;
                    in_session = ground arith;
                  }))
          ]
        ]
      ]
    ]

    refresh-Move :
        (raw fresh : String) (db : Database) → Move env db (refresh env now raw fresh db).1
    unfolding refresh
    refresh-Move raw fresh db = elim (Option-cases (token_by_hash (env.sha256 raw) db)) [
      | inl nothing ↦ rw (nothing, refresh) (keeps refl (omega arith))
      | inr (t, found) ↦ rw (found, refresh) (refresh_token-Move (env.sha256 raw) fresh t db found)
    ]

-- Every request changes the table of refresh tokens by one move of its abstract view: nothing; a
-- family revoked; a live token that is in time and within its session used up, with nothing else,
-- with its family revoked, or with one new live row of the same family and first sign-in; or one new
-- live row of a family that is not in use.
pub handle-Move : (env : Env) (r : Request) (db : Database) → Move env db (handle env r db)
unfolding handle issue_for_org issue_for_project
handle-Move env (registers input) db = register-Move env input db
handle-Move env (logs_in now email password fresh) db = login-Move env now email password fresh db
handle-Move env (refreshes now raw fresh) db = refresh-Move env now raw fresh db
handle-Move env (logs_out now raw) db = logout-Move env now raw db
handle-Move env (switches_org now fresh user org role) db =
    issue_scoped-Move env now fresh user org role none db
handle-Move env (switches_project now fresh user project org role) db =
    issue_scoped-Move env now fresh user org role (some project) db
handle-Move env (elsewhere us os ms cs) db = keeps refl (omega arith)
