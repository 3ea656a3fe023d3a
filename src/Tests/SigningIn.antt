-- ===== src/Tests/SigningIn.antt =====
-- internal/modules/identity at concrete inputs.
use Prim.Native.String.{len}
use guard_pipe.Prelude.{
  ℕ, ◌≡◌, refl, List, [], ◌∷◌, some, none, arith, str_eq, is_some, if◌then◌else◌,
}
use guard_pipe.Errors.{ok, err, OnOk}
use guard_pipe.Domain.Engine.{admin, member, viewer}
use guard_pipe.Identity.Store.{
  User, RefreshToken, Database, user_by_email, user_by_id, token_by_hash, suspension_state,
  create_token, change_user, record_successful_login, mark_consumed, consume, member_role,
}
use guard_pipe.Identity.Service.{Env, invalid_credentials, issue_in_family, issue_new_family}
use guard_pipe.Identity.Sessions.{
  login, login_user, refuse_suspended, refresh, refresh_token, rotate, scope_of, logout,
  issue_scoped, issue_for_project,
}
use guard_pipe.Identity.Requests.{
  Request, logs_in, refreshes, switches_project, handle, run_requests,
}
use guard_pipe.Identity.Moves.{Move}
use guard_pipe.Identity.Refines.{handle-Move}
use guard_pipe.Identity.Live.{IsHealthy, run_requests-IsHealthy}
use guard_pipe.Identity.Ended.{Refused, logout-Refused}
use guard_pipe.Identity.Widened.{SignedWithout, refresh-unscoped}
use guard_pipe.Identity.Lockout.{Attempt, attempts, login_lockout}

-- A toy digest, passwords stored as they are, and access tokens that say what they are for.
abbrev pub env : Env
env = record {
  trim = λ s. s;
  lower = λ s. s;
  same_email = str_eq;
  sha256 = len;
  hash_password = ok;
  verify_password = λ p h. ok (str_eq p h);
  sign =
      λ user org role project. ok (if is_some project then "one project" else "whole organisation");
  access_ttl = 900_000_000_000;
  refresh_ttl = 1000;
  session_ttl = 5000;
}

abbrev pub ann : User
ann = record {
  id = 7;
  org_id = 1;
  email = "ann@example.org";
  display_name = "Ann";
  password_hash = "a long password";
  role = admin;
  last_login_at = none;
  failed_login_count = 7;
  locked_until = none;
  suspended_at = none;
}

-- Ann is a member of organisation 2, and has a grant for its project 50.
abbrev start : Database
start = record {
  users = ann ∷ [];
  organizations =
      record { id = 1; name = "Ann's Organization"; suspended_at = none }
      ∷ record { id = 2; name = "Other"; suspended_at = none }
      ∷ [];
  tokens = [];
  members = record { org_id = 2; user_id = 7; role = member } ∷ [];
  collaborators = record { project_id = 50; user_id = 7; role = viewer; owner_org = 2 } ∷ [];
  next_id = 100;
}

start-IsHealthy : IsHealthy env start
start-IsHealthy = record { below = tt; single = λ f. omega arith; bounded = tt; unscoped = tt }

abbrev signs_in : Request
signs_in = logs_in 10 "ann@example.org" "a long password" "r1"

handle-Move_example : Move env start (handle env signs_in start)
handle-Move_example = handle-Move env signs_in start

-- Signed in, and the first token exchanged.
abbrev day : List Request
day = signs_in ∷ refreshes 20 "r1" "r22" ∷ []

run_requests-IsHealthy_example : IsHealthy env (run_requests env day start)
run_requests-IsHealthy_example = run_requests-IsHealthy env day start start-IsHealthy

abbrev first : RefreshToken
first = record {
  id = 101;
  user_id = 7;
  token_hash = 2;
  family_id = 100;
  family_issued_at = 10;
  expires_at = 1010;
  consumed_at = some 20;
  revoked_at = none;
  org_id = some 1;
  project_id = none;
}

first_used : token_by_hash 2 (run_requests env day start) ≡ some first
unfolding token_by_hash run_requests handle login login_user refuse_suspended suspension_state
    user_by_email user_by_id issue_new_family issue_in_family create_token record_successful_login
    change_user refresh refresh_token rotate scope_of mark_consumed consume
first_used = refl

logout-Refused_example :
    let db = run_requests env day start in
    ((logout env 30 "r1" db).0 ≡ ok tt)
    × Refused env 100 (run_requests env day (logout env 30 "r1" db).1)
logout-Refused_example =
    logout-Refused env 30 "r1" first day (run_requests env day start) run_requests-IsHealthy_example
      first_used

-- Ann switches into project 50 of organisation 2.
abbrev shared : List Request
shared = switches_project 10 "r1" 7 50 2 viewer ∷ []

refresh-unscoped_example :
    OnOk (SignedWithout env) (refresh env 20 "r1" "r22" (run_requests env shared start)).0
refresh-unscoped_example = refresh-unscoped env shared 20 "r1" "r22" start refl

-- What that refresh answers: a token for the whole of organisation 2.
widened_token :
    OnOk
      (λ pair. pair.access_token ≡ "whole organisation")
      (refresh env 20 "r1" "r22" (run_requests env shared start)).0
unfolding token_by_hash run_requests handle refuse_suspended suspension_state user_by_id
    issue_for_project issue_scoped issue_new_family issue_in_family create_token refresh
    refresh_token rotate scope_of member_role mark_consumed consume
widened_token = refl

abbrev guess : ℕ → Attempt
guess t = record { at = t; password = "password"; fresh = "r" }

ann_found : user_by_email str_eq "ann@example.org" start ≡ some ann
unfolding user_by_email
ann_found = refl

ann_active : suspension_state 1 start ≡ ok none
unfolding suspension_state
ann_active = refl

-- Seven failures were counted, and three more follow; then the right password is refused.
login_lockout_example :
    let db = attempts env "ann@example.org" (guess 1 ∷ guess 2 ∷ []) (guess 3) start in
    login env 4 "ann@example.org" "a long password" "r1" db ≡ (err invalid_credentials, db)
login_lockout_example =
    login_lockout env "ann@example.org" ann (guess 1 ∷ guess 2 ∷ []) (guess 3) 4 "a long password"
      "r1" start (record { found = ann_found; active = refl; org_active = ann_active }) refl
      (refl, (refl, tt)) refl (omega arith) (omega arith)
