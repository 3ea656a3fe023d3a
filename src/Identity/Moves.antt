-- ===== src/Identity/Moves.antt =====
-- What the table of refresh tokens may do: the abstract view of internal/modules/identity, which
-- every request of the detailed model follows.
use guard_pipe.Prelude.{
  ℕ, suc, ◌+◌, ◌≤◌, ◌<◌, ◌≡◌, refl, ap, ◌∙◌, true, false, [], ◌∷◌, ◌++◌, Option, none, some, arith,
  is_some, map, String, Bool-cases, inl, inr,
}
use guard_pipe.Errors.{ok, err, internal_error, Result-cases}
use guard_pipe.Domain.Engine.{Role}
use guard_pipe.Identity.Store.{
  User, RefreshToken, Database, token_by_hash, create_token, consume, revoke,
}
use guard_pipe.Identity.Service.{Env, new_token, issue_in_family, issue_new_family}

-- Neither used nor revoked.
pub record IsLive (t : RefreshToken) : Type 0 where
  pub unused : t.consumed_at ≡ none
  pub unrevoked : t.revoked_at ≡ none

-- A row that was written at this moment.
pub record IsNew (env : Env) (now : ℕ) (t : RefreshToken) : Type 0 where
  pub live : IsLive t
  pub unscoped : t.project_id ≡ none
  pub idle : t.expires_at ≡ now + env.refresh_ttl

-- The token that was presented may be exchanged.
pub record MayRotate (env : Env) (now : ℕ) (db : Database) (t : RefreshToken) : Type 0 where
  pub hash : ℕ
  pub found : token_by_hash hash db ≡ some t
  pub live : IsLive t
  pub in_time : now ≤ t.expires_at
  pub in_session : now ≤ t.family_issued_at + env.session_ttl

pub data Move (env : Env) (db db' : Database) : Type 0 where
  keeps : db'.tokens ≡ db.tokens → db.next_id ≤ db'.next_id → Move env db db'
  revokes :
      (family at : ℕ)
      → db'.tokens ≡ map (revoke family at) db.tokens
      → db.next_id ≤ db'.next_id
      → Move env db db'
  consumes :
      (now : ℕ) (t : RefreshToken)
      → MayRotate env now db t
      → db'.tokens ≡ map (consume t.id now) db.tokens
      → db.next_id ≤ db'.next_id
      → Move env db db'
  drops :
      (now : ℕ) (t : RefreshToken)
      → MayRotate env now db t
      → db'.tokens ≡ map (revoke t.family_id now) (map (consume t.id now) db.tokens)
      → db.next_id ≤ db'.next_id
      → Move env db db'
  rotates :
      (now : ℕ) (t row : RefreshToken)
      → MayRotate env now db t
      → IsNew env now row
      → (row.family_id ≡ t.family_id) × (row.family_issued_at ≡ t.family_issued_at)
      → db'.tokens ≡ map (consume t.id now) db.tokens ++ row ∷ []
      → db.next_id ≤ db'.next_id
      → Move env db db'
  begins :
      (now : ℕ) (row : RefreshToken)
      → IsNew env now row
      → (db.next_id ≤ row.family_id) × (row.family_issued_at ≡ now)
      → db'.tokens ≡ db.tokens ++ row ∷ []
      → row.family_id < db'.next_id
      → Move env db db'

module _ (env : Env) (now : ℕ) where
  -- What an attempt to issue a token did: nothing, or one new row.
  pub data Issued (family issued : ℕ) (db db' : Database) : Type 0 where
    refused : db'.tokens ≡ db.tokens → db.next_id ≤ db'.next_id → Issued family issued db db'
    written :
        (row : RefreshToken)
        → IsNew env now row
        → (row.family_id ≡ family) × (row.family_issued_at ≡ issued)
        → db'.tokens ≡ db.tokens ++ row ∷ []
        → db.next_id ≤ db'.next_id
        → Issued family issued db db'

  pub create_token_taken :
      (row : RefreshToken) (db : Database)
      → is_some (token_by_hash row.token_hash db) ≡ true
      → create_token row db ≡ (err internal_error, db)
  unfolding create_token
  create_token_taken row db h = rw (h, create_token) refl

  pub create_token_new :
      (row : RefreshToken) (db : Database)
      → is_some (token_by_hash row.token_hash db) ≡ false
      → create_token row db
        ≡ (ok tt, record db { tokens = db.tokens ++ record row { project_id = none } ∷ [] })
  unfolding create_token
  create_token_new row db h = rw (h, create_token) refl

  pub issue_in_family-Issued :
      (fresh : String) (user : User) (org : ℕ) (role : Role) (family issued : ℕ)
      (project : Option ℕ) (db : Database)
      → Issued family issued db
          (issue_in_family env now fresh user org role family issued project db).1
  unfolding issue_in_family
  issue_in_family-Issued fresh user org role family issued project db =
      let row = new_token env now fresh user org family issued project db in
      let db1 : Database = record db { next_id = suc db.next_id } in
      elim (Result-cases (env.sign user.id org role project)) [
        | inr (e, failed) ↦ rw (failed, issue_in_family) (refused refl (omega arith))
        | inl (access, signed) ↦ elim (Bool-cases (is_some (token_by_hash row.token_hash db1))) [
          | inl taken ↦
              rw (signed, create_token_taken row db1 taken, issue_in_family)
                (refused refl (omega arith))
          | inr new ↦
              rw (signed, create_token_new row db1 new, issue_in_family)
                (written (record row { project_id = none })
                  (record {
                    live = record { unused = refl; unrevoked = refl };
                    unscoped = refl;
                    idle = refl;
                  })
                  (refl, refl) refl (omega arith))
        ]
      ]

  pub issue_new_family-Move :
      (fresh : String) (user : User) (org : ℕ) (role : Role) (project : Option ℕ)
      (before db : Database)
      → db.tokens ≡ before.tokens
      → db.next_id ≡ before.next_id
      → Move env before (issue_new_family env now fresh user org role project db).1
  unfolding issue_new_family
  issue_new_family-Move fresh user org role project before db tokens ids =
      let db1 : Database = record db { next_id = suc db.next_id } in
      elim (issue_in_family-Issued fresh user org role db.next_id now project db1) [
        | refused same later ↦ keeps (same ∙ tokens) (omega arith)
        | written row new of_family same later ↦
            begins now row new (omega (arith, of_family.0), of_family.1)
              (same ∙ ap (λ ts. ts ++ row ∷ []) tokens) (omega (arith, of_family.0))
      ]
