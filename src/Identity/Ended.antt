-- ===== src/Identity/Ended.antt =====
-- internal/modules/identity/service.go: a session that is signed out, or whose token was used twice,
-- is over for good.
use guard_pipe.Prelude.{
  ℕ, ◌≤◌, ◌<◌, ◌≡◌, refl, sym, subst, true, false, List, [], ◌∷◌, some, arith, ◌==◌, ◌&&◌, not,
  is_some, map, All, All-append, String,
}
use guard_pipe.Errors.{ok, err}
use guard_pipe.Identity.Store.{
  RefreshToken, Database, token_by_hash, consume, revoke, revoke_family,
}
use guard_pipe.Identity.Service.{Env, token_invalid}
use guard_pipe.Identity.Sessions.{refresh, refresh_token, logout}
use guard_pipe.Identity.Requests.{Request, handle, run_requests}
use guard_pipe.Identity.Moves.{Move, keeps, revokes, consumes, drops, rotates, begins}
use guard_pipe.Identity.Refines.{handle-Move}
use guard_pipe.Identity.Live.{All-of-map, All-find, IsHealthy}

module _ (family : ℕ) where
  -- The row is not a token of the family that could still be exchanged.
  abbrev Revoked : RefreshToken → Type 0
  Revoked t = (t.family_id == family && not (is_some t.revoked_at)) ≡ false

  -- The family was handed out, and all its tokens are revoked.
  abbrev pub IsOver : Database → Type 0
  IsOver db = (family < db.next_id) × All Revoked db.tokens

  revoke-Revoked : (at : ℕ) (ts : List RefreshToken) → All Revoked (map (revoke family at) ts)
  unfolding revoke
  revoke-Revoked at [] = tt
  revoke-Revoked at (t ∷ ts) = (ground arith, revoke-Revoked at ts)

  revoke_keeps :
      (f at : ℕ) (ts : List RefreshToken) → All Revoked ts → All Revoked (map (revoke f at) ts)
  unfolding revoke
  revoke_keeps f at ts h = All-of-map Revoked (revoke f at) ts (λ t k. ground arith) h

  consume_keeps :
      (i at : ℕ) (ts : List RefreshToken) → All Revoked ts → All Revoked (map (consume i at) ts)
  unfolding consume
  consume_keeps i at ts h = All-of-map Revoked (consume i at) ts (λ t k. ground arith) h

  IsOver-tokens :
      (db db' : Database) (ts : List RefreshToken)
      → db'.tokens ≡ ts
      → db.next_id ≤ db'.next_id
      → IsOver db
      → All Revoked ts
      → IsOver db'
  IsOver-tokens db db' ts e le o h = (omega (arith, o.0), subst (All Revoked) (sym e) h)

  Move-IsOver : {env : Env} {db db' : Database} → Move env db db' → IsOver db → IsOver db'
  unfolding token_by_hash
  Move-IsOver {env} {db} {db'} (keeps e le) o = IsOver-tokens db db' db.tokens e le o o.1
  Move-IsOver {env} {db} {db'} (revokes f at e le) o =
      IsOver-tokens db db' _ e le o (revoke_keeps f at db.tokens o.1)
  Move-IsOver {env} {db} {db'} (consumes now t may e le) o =
      IsOver-tokens db db' _ e le o (consume_keeps t.id now db.tokens o.1)
  Move-IsOver {env} {db} {db'} (drops now t may e le) o =
      IsOver-tokens db db' _ e le o
        (revoke_keeps t.family_id now _ (consume_keeps t.id now db.tokens o.1))
  Move-IsOver {env} {db} {db'} (rotates now t row may new same e le) o =
      let other : Revoked t = All-find Revoked _ db.tokens may.found o.1 in
      IsOver-tokens db db' _ e le o (
        All-append Revoked _ (row ∷ []) (consume_keeps t.id now db.tokens o.1)
          (ground (arith, other, may.live.unrevoked, same.0), tt))
  Move-IsOver {env} {db} {db'} (begins now row new fresh e later) o =
      IsOver-tokens db db' _ e (omega (arith, fresh.0)) o
        (All-append Revoked db.tokens (row ∷ []) o.1 (ground (arith, fresh.0, o.0), tt))

  run_requests-IsOver :
      (env : Env) (rs : List Request) (db : Database) → IsOver db → IsOver (run_requests env rs db)
  unfolding run_requests
  run_requests-IsOver env [] db o = o
  run_requests-IsOver env (r ∷ rs) db o =
      run_requests-IsOver env rs (handle env r db) (Move-IsOver (handle-Move env r db) o)

  IsOver-refresh :
      (env : Env) (now : ℕ) (raw fresh : String) (t : RefreshToken) (db : Database)
      → IsOver db
      → token_by_hash (env.sha256 raw) db ≡ some t
      → t.family_id ≡ family
      → refresh env now raw fresh db ≡ (err token_invalid, db)
  unfolding refresh refresh_token token_by_hash
  IsOver-refresh env now raw fresh t db o found same =
      let over : Revoked t = All-find Revoked _ db.tokens found o.1 in
      let ended : is_some t.revoked_at ≡ true = ground (arith, over, same) in
      rw (found, refresh) (rw (ended, refresh_token) refl)

-- `raw` is the text of a token of the family, and exchanging it is refused without a change.
abbrev pub Refused : Env → ℕ → Database → Type 0
Refused env family db =
    (now : ℕ) (raw fresh : String) (t : RefreshToken)
    → token_by_hash (env.sha256 raw) db ≡ some t
    → t.family_id ≡ family
    → refresh env now raw fresh db ≡ (err token_invalid, db)

after_end :
    (env : Env) (family : ℕ) (rs : List Request) (db : Database)
    → IsOver family db
    → Refused env family (run_requests env rs db)
after_end env family rs db o now raw fresh t found same =
    IsOver-refresh family env now raw fresh t (run_requests env rs db)
      (run_requests-IsOver family env rs db o) found same

family_below :
    (env : Env) (h : ℕ) (t : RefreshToken) (db : Database)
    → IsHealthy env db
    → token_by_hash h db ≡ some t
    → t.family_id < db.next_id
unfolding token_by_hash
family_below env h t db healthy found =
    All-find (λ (u : RefreshToken). u.family_id < db.next_id) _ db.tokens found healthy.below

logout_known :
    (env : Env) (now : ℕ) (raw : String) (t : RefreshToken) (db : Database)
    → token_by_hash (env.sha256 raw) db ≡ some t
    → logout env now raw db ≡ (ok tt, revoke_family t.family_id now db)
unfolding logout
logout_known env now raw t db found = rw (found, logout) refl

revoke_family-Refused :
    (env : Env) (now h : ℕ) (t : RefreshToken) (rs : List Request) (db : Database)
    → IsHealthy env db
    → token_by_hash h db ≡ some t
    → Refused env t.family_id (run_requests env rs (revoke_family t.family_id now db))
unfolding revoke_family
revoke_family-Refused env now h t rs db healthy found =
    after_end env t.family_id rs _
      (family_below env h t db healthy found, revoke-Revoked t.family_id now db.tokens)

-- Signing out with a known token succeeds and ends its session: after any further requests, whoever
-- presents a token of its family is refused, and nothing changes.
pub logout-Refused :
    (env : Env) (now : ℕ) (raw : String) (t : RefreshToken) (rs : List Request) (db : Database)
    → IsHealthy env db
    → token_by_hash (env.sha256 raw) db ≡ some t
    → ((logout env now raw db).0 ≡ ok tt)
      × Refused env t.family_id (run_requests env rs (logout env now raw db).1)
logout-Refused env now raw t rs db healthy found =
    rw (logout_known env now raw t db found)
      (refl, revoke_family-Refused env now (env.sha256 raw) t rs db healthy found)
