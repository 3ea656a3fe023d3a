-- ===== src/Identity/Lockout.antt =====
-- internal/modules/identity/service.go: ten wrong passwords in a row lock an account.
use guard_pipe.Prelude.{
  ℕ, ◌+◌, ◌<◌, ◌≡◌, refl, ap, ◌∙◌, true, false, List, [], ◌∷◌, none, some, arith, if◌then◌else◌,
  leb, ◌==◌, ==_refl, map, find?, length, All, String, Bool-cases, inl, inr, some_inj,
}
use guard_pipe.Errors.{ok, err}
use guard_pipe.Identity.Store.{
  User, Database, user_by_email, change_user, set_failed_login, suspension_state,
}
use guard_pipe.Identity.Service.{Env, invalid_credentials, lockout_duration, normalize_email}
use guard_pipe.Identity.Sessions.{login, login_user, refuse_suspended, count_failure, is_locked}

-- The user's row after one more wrong password.
abbrev failed : ℕ → User → User
failed now u = record u {
  failed_login_count = u.failed_login_count + 1;
  locked_until = if leb 10 (u.failed_login_count + 1) then some (now + lockout_duration) else none;
}

-- One attempt to sign in.
pub record Attempt : Type 0 where
  pub at : ℕ
  pub password : String
  pub fresh : String

module _ (env : Env) (email : String) where
  -- Signing in with this address meets this active account.
  pub record Meets (u : User) (db : Database) : Type 0 where
    pub found : user_by_email env.same_email (normalize_email env email) db ≡ some u
    pub active : u.suspended_at ≡ none
    pub org_active : suspension_state u.org_id db ≡ ok none

  attempt : Attempt → Database → Database
  attempt a db = (login env a.at email a.password a.fresh db).1

  -- The attempts one after the other, the last one apart.
  pub attempts : List Attempt → Attempt → Database → Database
  unfolding attempt
  attempts [] last db = attempt last db
  attempts (a ∷ tries) last db = attempts tries last (attempt a db)

  abbrev pub IsWrong : User → Attempt → Type 0
  IsWrong u a = env.verify_password a.password u.password_hash ≡ ok false

  -- The update of one row.
  abbrev change : ℕ → User → User → User
  change now u v =
      if v.id == u.id
      then record v {
        failed_login_count = u.failed_login_count + 1;
        locked_until =
            if leb 10 (u.failed_login_count + 1) then some (now + lockout_duration) else none;
      }
      else v

  find?-change :
      (e : String) (now : ℕ) (u : User) (us : List User)
      → find? (λ v. env.same_email v.email e) us ≡ some u
      → find? (λ v. env.same_email v.email e) (map (change now u) us) ≡ some (failed now u)
  find?-change e now u [] f = ground arith
  find?-change e now u (v ∷ us) f = elim (Bool-cases (env.same_email v.email e)) [
    | inl hit ↦
        let same : v ≡ u = some_inj (rw hit at f) in
        let known : env.same_email u.email e ≡ true = rw same at hit in
        rw same (rw (==_refl u.id) (rw known refl))
    | inr miss ↦
        let rest = find?-change e now u us (rw miss at f) in
        elim (Bool-cases (v.id == u.id)) [
          | inl own ↦ rw own (rw miss rest)
          | inr other ↦ rw other (rw miss rest)
        ]
  ]

  Meets-failure :
      (u : User) (now : ℕ) (db : Database)
      → Meets u db
      → Meets (failed now u) (count_failure now u db)
  unfolding count_failure set_failed_login change_user user_by_email suspension_state
  Meets-failure u now db m = record {
    found = find?-change (normalize_email env email) now u db.users m.found;
    active = m.active;
    org_active = m.org_active;
  }

  login_known :
      (u : User) (now : ℕ) (password fresh : String) (db : Database)
      → Meets u db
      → login env now email password fresh db ≡ login_user env now password fresh u db
  unfolding login
  login_known u now password fresh db m = rw (m.found, login) refl

  login_user_wrong :
      (u : User) (a : Attempt) (db : Database)
      → Meets u db
      → is_locked a.at u.locked_until ≡ false
      → IsWrong u a
      → login_user env a.at a.password a.fresh u db
        ≡ (err invalid_credentials, count_failure a.at u db)
  unfolding login_user refuse_suspended count_failure
  login_user_wrong u a db m unlocked wrong =
      rw (unlocked, m.active, m.org_active, wrong, login_user) refl

  login_wrong :
      (u : User) (a : Attempt) (db : Database)
      → Meets u db
      → is_locked a.at u.locked_until ≡ false
      → IsWrong u a
      → attempt a db ≡ count_failure a.at u db
  unfolding attempt
  login_wrong u a db m unlocked wrong =
      ap (λ r. r.1)
        (login_known u a.at a.password a.fresh db m ∙ login_user_wrong u a db m unlocked wrong)

  login_locked :
      (u : User) (now : ℕ) (password fresh : String) (db : Database)
      → Meets u db
      → is_locked now u.locked_until ≡ true
      → login env now email password fresh db ≡ (err invalid_credentials, db)
  unfolding login_user
  login_locked u now password fresh db m locked =
      login_known u now password fresh db m ∙ rw locked refl

  -- When an active account that is not locked has had some failures, and as many wrong passwords
  -- follow as make ten in a row, then until fifteen minutes after the last of them signing in is
  -- refused with `invalid_credentials` whatever the password, and changes nothing.
  pub login_lockout :
      (u : User) (tries : List Attempt) (last : Attempt) (now : ℕ) (password fresh : String)
      (db : Database)
      → Meets u db
      → u.locked_until ≡ none
      → All (IsWrong u) tries
      → IsWrong u last
      → u.failed_login_count + length tries + 1 ≡ 10
      → now < last.at + lockout_duration
      → login env now email password fresh (attempts tries last db)
        ≡ (err invalid_credentials, attempts tries last db)
  unfolding attempts
  login_lockout u [] last now password fresh db m open_account wrong wrong_last count soon =
      let step = login_wrong u last db m (rw open_account refl) wrong_last in
      let tenth : leb 10 (u.failed_login_count + 1) ≡ true = ground (arith, count) in
      let later = Meets-failure u last.at db m in
      rw step (
        login_locked (failed last.at u) now password fresh (count_failure last.at u db) later
          (rw tenth (ground (arith, soon))))
  login_lockout u (a ∷ tries) last now password fresh db m open_account wrong wrong_last count
        soon =
      let step = login_wrong u a db m (rw open_account refl) wrong.0 in
      let early : leb 10 (u.failed_login_count + 1) ≡ false = ground (arith, count) in
      let later = Meets-failure u a.at db m in
      rw step (
        login_lockout (failed a.at u) tries last now password fresh (count_failure a.at u db) later
          (rw early refl) wrong.1 wrong_last (omega (arith, count)) soon)
