-- ===== src/Identity/Live.antt =====
-- internal/modules/identity/service.go: what every history keeps true of the refresh tokens.
use guard_pipe.Prelude.{
  ℕ, ◌+◌, ◌≤◌, ◌<◌, ◌≡◌, refl, Bool, List, [], ◌∷◌, ◌++◌, none, some, arith, if◌then◌else◌, ◌==◌,
  ◌&&◌, not, is_some, map, find?, sum_of, sum_of-append, All, All-append, All-map, Bool-cases, inl,
  inr, sym, subst, some_inj,
}
use guard_pipe.Identity.Store.{RefreshToken, Database, token_by_hash, consume, revoke}
use guard_pipe.Identity.Service.{Env}
use guard_pipe.Identity.Requests.{Request, handle, run_requests}
use guard_pipe.Identity.Moves.{IsLive, Move, keeps, revokes, consumes, drops, rotates, begins}
use guard_pipe.Identity.Refines.{handle-Move}

abbrev pub is_live : ℕ → RefreshToken → Bool
is_live f t = t.family_id == f && not (is_some t.consumed_at) && not (is_some t.revoked_at)

-- How many tokens of a family can still be exchanged.
abbrev pub live_count : ℕ → List RefreshToken → ℕ
live_count f = sum_of λ t. if is_live f t then 1 else 0

live_count-revoke :
    (f g at : ℕ) (ts : List RefreshToken) → live_count f (map (revoke g at) ts) ≤ live_count f ts
unfolding revoke
live_count-revoke f g at [] = omega arith
live_count-revoke f g at (t ∷ ts) = ground (arith, live_count-revoke f g at ts)

live_count-consume :
    (f i at : ℕ) (ts : List RefreshToken) → live_count f (map (consume i at) ts) ≤ live_count f ts
unfolding consume
live_count-consume f i at [] = omega arith
live_count-consume f i at (t ∷ ts) = ground (arith, live_count-consume f i at ts)

-- Using up a live token leaves one less in its family.
live_count-consume_self :
    (h at : ℕ) (t : RefreshToken) (ts : List RefreshToken)
    → find? (λ (u : RefreshToken). u.token_hash == h) ts ≡ some t
    → IsLive t
    → live_count t.family_id (map (consume t.id at) ts) + 1 ≤ live_count t.family_id ts
unfolding consume
live_count-consume_self h at t [] found live = ground arith
live_count-consume_self h at t (u ∷ ts) found live = elim (Bool-cases (u.token_hash == h)) [
  | inl hit ↦
      let same : u ≡ t = some_inj (rw hit at found) in
      rw same (ground (arith, live_count-consume t.family_id t.id at ts))
  | inr miss ↦ ground (arith, live_count-consume_self h at t ts (rw miss at found) live)
]

live_count-unused :
    (f n : ℕ) (ts : List RefreshToken) → n ≤ f → All (λ t. t.family_id < n) ts → live_count f ts ≡ 0
live_count-unused f n [] h below = refl
live_count-unused f n (t ∷ ts) h below = ground (arith, live_count-unused f n ts h below.1)

pub All-of-map {κ} :
    (P : RefreshToken → Type κ) (g : RefreshToken → RefreshToken) (ts : List RefreshToken)
    → ((t : RefreshToken) → P t → P (g t))
    → All P ts
    → All P (map g ts)
All-of-map P g [] k h = tt
All-of-map P g (t ∷ ts) k h = (k t h.0, All-of-map P g ts k h.1)

pub All-find {κ} :
    (P : RefreshToken → Type κ) (p : RefreshToken → Bool) (ts : List RefreshToken)
    {t : RefreshToken}
    → find? p ts ≡ some t
    → All P ts
    → P t
All-find P p [] found h = cc
All-find P p (u ∷ ts) {t} found h = elim (Bool-cases (p u)) [
  | inl hit ↦ subst P (some_inj (rw hit at found)) h.0
  | inr miss ↦ All-find P p ts {t = t} (rw miss at found) h.1
]

module _ (env : Env) where
  -- The table of refresh tokens as sign-in keeps it.
  pub record IsHealthy (db : Database) : Type 0 where
    pub below : All (λ t. t.family_id < db.next_id) db.tokens
    pub single : (f : ℕ) → live_count f db.tokens ≤ 1
    pub bounded :
        All (λ t. t.expires_at ≤ t.family_issued_at + env.session_ttl + env.refresh_ttl) db.tokens
    pub unscoped : All (λ t. t.project_id ≡ none) db.tokens

  abbrev Bounded : RefreshToken → Type 0
  Bounded t = t.expires_at ≤ t.family_issued_at + env.session_ttl + env.refresh_ttl

  abbrev Below : ℕ → RefreshToken → Type 0
  Below n t = t.family_id < n

  abbrev Unscoped : RefreshToken → Type 0
  Unscoped t = t.project_id ≡ none

  -- The table of a healthy database, seen as a list of rows.
  abbrev Rows : ℕ → List RefreshToken → Type 0
  Rows n ts = All (Below n) ts × All Bounded ts × All Unscoped ts

  Rows-later : (n m : ℕ) (ts : List RefreshToken) → n ≤ m → Rows n ts → Rows m ts
  Rows-later n m ts h r = (All-map (Below n) (Below m) ts (λ t k. omega arith) r.0, r.1, r.2)

  Rows-revoke : (n f at : ℕ) (ts : List RefreshToken) → Rows n ts → Rows n (map (revoke f at) ts)
  unfolding revoke
  Rows-revoke n f at ts r = (
    All-of-map (Below n) (revoke f at) ts (λ t k. ground arith) r.0,
    All-of-map Bounded (revoke f at) ts (λ t k. ground arith) r.1,
    All-of-map Unscoped (revoke f at) ts (λ t k. ground arith) r.2,
  )

  Rows-consume : (n i at : ℕ) (ts : List RefreshToken) → Rows n ts → Rows n (map (consume i at) ts)
  unfolding consume
  Rows-consume n i at ts r = (
    All-of-map (Below n) (consume i at) ts (λ t k. ground arith) r.0,
    All-of-map Bounded (consume i at) ts (λ t k. ground arith) r.1,
    All-of-map Unscoped (consume i at) ts (λ t k. ground arith) r.2,
  )

  Rows-append :
      (n : ℕ) (row : RefreshToken) (ts : List RefreshToken)
      → Below n row
      → Bounded row
      → Unscoped row
      → Rows n ts
      → Rows n (ts ++ row ∷ [])
  Rows-append n row ts below bounded unscoped r = (
    All-append (Below n) ts (row ∷ []) r.0 (below, tt),
    All-append Bounded ts (row ∷ []) r.1 (bounded, tt),
    All-append Unscoped ts (row ∷ []) r.2 (unscoped, tt),
  )

  abbrev Single : List RefreshToken → Type 0
  Single ts = (f : ℕ) → live_count f ts ≤ 1

  Single-append :
      (row : RefreshToken) (ts : List RefreshToken)
      → Single ts
      → live_count row.family_id ts ≡ 0
      → Single (ts ++ row ∷ [])
  Single-append row ts s none_live f =
      rw (sum_of-append (λ (t : RefreshToken). if is_live f t then 1 else 0) ts (row ∷ []))
        (elim (Bool-cases (row.family_id == f)) [
          | inl own ↦
              let e : row.family_id ≡ f = ground arith in
              let z : live_count f ts ≡ 0 = subst (λ g. live_count g ts ≡ 0) e none_live in
              rw own (ground (arith, z))
          | inr other ↦ rw other (omega (arith, s f))
        ])

  Rows-IsHealthy :
      (db : Database) (ts : List RefreshToken)
      → db.tokens ≡ ts
      → Rows db.next_id ts
      → Single ts
      → IsHealthy db
  Rows-IsHealthy db ts e r s =
      let rows : Rows db.next_id db.tokens = subst (Rows db.next_id) (sym e) r in
      record {
        below = rows.0;
        single = subst Single (sym e) s;
        bounded = rows.1;
        unscoped = rows.2;
      }

  IsHealthy-Rows : (db : Database) (n : ℕ) → db.next_id ≤ n → IsHealthy db → Rows n db.tokens
  IsHealthy-Rows db n le h = Rows-later db.next_id n db.tokens le (h.below, h.bounded, h.unscoped)

  Single-revoke : (f at : ℕ) (ts : List RefreshToken) → Single ts → Single (map (revoke f at) ts)
  Single-revoke f at ts s g = omega (arith, live_count-revoke g f at ts, s g)

  Single-consume : (i at : ℕ) (ts : List RefreshToken) → Single ts → Single (map (consume i at) ts)
  Single-consume i at ts s g = omega (arith, live_count-consume g i at ts, s g)

  Move-IsHealthy : {db db' : Database} → Move env db db' → IsHealthy db → IsHealthy db'
  unfolding token_by_hash
  Move-IsHealthy {db} {db'} (keeps e le) h =
      Rows-IsHealthy db' db.tokens e (IsHealthy-Rows db db'.next_id le h) h.single
  Move-IsHealthy {db} {db'} (revokes f at e le) h =
      Rows-IsHealthy db' _ e
        (Rows-revoke db'.next_id f at db.tokens (IsHealthy-Rows db db'.next_id le h))
        (Single-revoke f at db.tokens h.single)
  Move-IsHealthy {db} {db'} (consumes now t may e le) h =
      Rows-IsHealthy db' _ e
        (Rows-consume db'.next_id t.id now db.tokens (IsHealthy-Rows db db'.next_id le h))
        (Single-consume t.id now db.tokens h.single)
  Move-IsHealthy {db} {db'} (drops now t may e le) h =
      Rows-IsHealthy db' _ e
        (Rows-revoke db'.next_id t.family_id now _
          (Rows-consume db'.next_id t.id now db.tokens (IsHealthy-Rows db db'.next_id le h)))
        (Single-revoke t.family_id now _ (Single-consume t.id now db.tokens h.single))
  Move-IsHealthy {db} {db'} (rotates now t row may new same e le) h =
      let rows = Rows-consume db'.next_id t.id now db.tokens (IsHealthy-Rows db db'.next_id le h) in
      let of_t : Below db'.next_id t =
        All-find (Below db'.next_id) _ db.tokens may.found (IsHealthy-Rows db db'.next_id le h).0 in
      Rows-IsHealthy db' _ e
        (Rows-append db'.next_id row _ (omega (arith, of_t, same.0))
          (omega (arith, new.idle, may.in_session, same.1)) new.unscoped rows)
        (Single-append row _ (Single-consume t.id now db.tokens h.single) (
          rw same.0 (
            omega (
              arith,
              live_count-consume_self may.hash now t db.tokens may.found may.live,
              h.single t.family_id,
            ))))
  Move-IsHealthy {db} {db'} (begins now row new fresh e later) h =
      Rows-IsHealthy db' _ e
        (Rows-append db'.next_id row _ later (omega (arith, new.idle, fresh.1)) new.unscoped
          (IsHealthy-Rows db db'.next_id (omega (arith, fresh.0)) h))
        (Single-append row db.tokens h.single
          (live_count-unused row.family_id db.next_id db.tokens fresh.0 h.below))

-- In every history of requests that starts with a healthy table of refresh tokens, the table stays
-- healthy: each family has at most one token that is neither used nor revoked, no token expires
-- later than its sign-in plus the session's lifetime plus the idle lifetime, every family is one that
-- was handed out, and no row holds a project.
pub run_requests-IsHealthy :
    (env : Env) (rs : List Request) (db : Database)
    → IsHealthy env db
    → IsHealthy env (run_requests env rs db)
unfolding run_requests
run_requests-IsHealthy env [] db h = h
run_requests-IsHealthy env (r ∷ rs) db h =
    run_requests-IsHealthy env rs (handle env r db) (Move-IsHealthy env (handle-Move env r db) h)
