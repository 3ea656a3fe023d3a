-- ===== src/Identity/Widened.antt =====
-- internal/modules/identity/service.go: what a refresh makes of a session that was limited to one
-- shared project.
use guard_pipe.Prelude.{
  List, [], All, ℕ, suc, ◌≡◌, refl, Option, none, arith, is_some, String, inl, inr, Option-cases,
  Bool-cases,
}
use guard_pipe.Errors.{Result, ok, err, OnOk, Result-cases}
use guard_pipe.Domain.Engine.{Role}
use guard_pipe.Identity.Store.{
  User, user_by_id, RefreshToken, Database, token_by_hash, mark_consumed,
}
use guard_pipe.Identity.Service.{issue_in_family, new_token, Env, TokenPair}
use guard_pipe.Identity.Sessions.{rotate, scope_of, without_user, refresh, refresh_token}
use guard_pipe.Identity.Moves.{create_token_taken, create_token_new}
use guard_pipe.Identity.Requests.{Request, run_requests}
use guard_pipe.Identity.Live.{All-find, IsHealthy, run_requests-IsHealthy}

issue_in_family-sign :
    (env : Env) (now : ℕ) (fresh : String) (user : User) (org : ℕ) (role : Role) (family issued : ℕ)
    (project : Option ℕ) (db : Database)
    → OnOk
        (λ pair. env.sign user.id org role project ≡ ok pair.access_token)
        (issue_in_family env now fresh user org role family issued project db).0
unfolding issue_in_family
issue_in_family-sign env now fresh user org role family issued project db =
    elim (Result-cases (env.sign user.id org role project)) [
      | inr (e, failed) ↦ rw (failed, issue_in_family) tt
      | inl (access, signed) ↦
          let db1 : Database = record db { next_id = suc db.next_id } in
          let row = new_token env now fresh user org family issued project db in
          elim (Bool-cases (is_some (token_by_hash row.token_hash db1))) [
            | inl taken ↦ rw (signed, create_token_taken env now row db1 taken, issue_in_family) tt
            | inr new ↦ rw (signed, create_token_new env now row db1 new, issue_in_family) refl
          ]
    ]

-- The access token is signed for some user, organisation and role, and for no project.
abbrev pub SignedWithout : Env → TokenPair → Type 0
SignedWithout env pair =
    (user org : ℕ) × (role : Role) × (env.sign user org role none ≡ ok pair.access_token)

widened :
    (env : Env) (user org : ℕ) (role : Role) (project : Option ℕ) (r : Result TokenPair)
    → project ≡ none
    → OnOk (λ pair. env.sign user org role project ≡ ok pair.access_token) r
    → OnOk (SignedWithout env) (without_user r)
widened env user org role project (err e) none_left h = tt
widened env user org role project (ok pair) none_left h = (user, org, role, rw none_left at h)

rotate-unscoped :
    (env : Env) (now : ℕ) (fresh : String) (t : RefreshToken) (db : Database)
    → t.project_id ≡ none
    → OnOk (SignedWithout env) (rotate env now fresh t db).0
unfolding rotate
rotate-unscoped env now fresh t db unscoped = elim (Option-cases (user_by_id t.user_id db)) [
  | inl nobody ↦ rw (nobody, rotate) tt
  | inr (user, known) ↦ elim (Option-cases (scope_of user t db)) [
    | inl gone ↦ rw (known, gone, rotate) tt
    | inr (scope, kept) ↦
        rw (known, kept, rotate)
          (widened env user.id scope.0 scope.1 t.project_id _ unscoped (
            issue_in_family-sign env now fresh user scope.0 scope.1 t.family_id t.family_issued_at
              t.project_id db))
  ]
]

refresh-unscoped_row :
    (env : Env) (now : ℕ) (raw fresh : String) (db : Database)
    → All (λ (u : RefreshToken). u.project_id ≡ none) db.tokens
    → OnOk (SignedWithout env) (refresh env now raw fresh db).0
unfolding refresh refresh_token token_by_hash
refresh-unscoped_row env now raw fresh db stored =
    elim (Option-cases (token_by_hash (env.sha256 raw) db)) [
      | inl nothing ↦ rw (nothing, refresh) tt
      | inr (t, found) ↦
          let unscoped : t.project_id ≡ none =
            All-find (λ (u : RefreshToken). u.project_id ≡ none) _ db.tokens found stored in
          let rest = rotate-unscoped env now fresh t (mark_consumed t.id now db) unscoped in
          rw (found, refresh) (ground (arith, rest))
    ]

no_tokens-IsHealthy : (env : Env) (db : Database) → db.tokens ≡ [] → IsHealthy env db
no_tokens-IsHealthy env db empty = record {
  below = rw empty tt;
  single = λ f. rw empty (omega arith);
  bounded = rw empty tt;
  unscoped = rw empty tt;
}

-- From a database without refresh tokens, after any history of requests, switches to shared projects
-- among them, a refresh that succeeds hands out an access token that is signed for no project: one for a
-- whole organisation, also where the session it continues was limited to a project.
pub refresh-unscoped :
    (env : Env) (rs : List Request) (now : ℕ) (raw fresh : String) (db : Database)
    → db.tokens ≡ []
    → OnOk (SignedWithout env) (refresh env now raw fresh (run_requests env rs db)).0
refresh-unscoped env rs now raw fresh db empty =
    refresh-unscoped_row env now raw fresh (run_requests env rs db)
      (run_requests-IsHealthy env rs db (no_tokens-IsHealthy env db empty)).unscoped
