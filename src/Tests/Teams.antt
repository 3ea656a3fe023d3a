-- ===== src/Tests/Teams.antt =====
-- internal/modules/organization at concrete inputs.
use guard_pipe.Prelude.{ℕ, ◌≡◌, refl, false, List, [], ◌∷◌, none, some, arith, str_eq, String}
use guard_pipe.Errors.{ok, err}
use guard_pipe.Domain.Engine.{admin, member, role_valid, is_admin, Actor}
use guard_pipe.Identity.Store.{User, MemberRow, user_by_id}
use guard_pipe.Organization.Store.{
  OrgStore, Invite, pending, accepted, list_home_members, list_by_org, invite_by_hash,
  insert_membership, set_status,
}
use guard_pipe.Organization.Service.{
  count_admins, update_member_role, check_role_change, require_own_org, resolve_member,
  require_not_last_admin,
}
use guard_pipe.Organization.Invites.{
  OrgEnv, accept_invite, accept_row, find_invite, check_acceptance, granted_membership,
  is_already_member, any_member_with, invite_not_pending,
}
use guard_pipe.Organization.Requests.{OrgRequest, changes_role, accepts, declines, run_org}
use guard_pipe.Organization.Admins.{HasAdmin}
use guard_pipe.Organization.Kept.{run_org-HasAdmin}
use guard_pipe.Organization.Closed.{IsKeyed, IsAnswered, run_org-IsAnswered}
use guard_pipe.Organization.Once.{accept_invite_once}
use guard_pipe.Tests.SigningIn.{env, ann}

-- No text is a UUID here.
abbrev org_env : OrgEnv
org_env = record { base = env; equal_fold = str_eq; parse_uuid = λ s. none }

abbrev bob : User
bob = record {
  id = 8;
  org_id = 3;
  email = "bob@example.org";
  display_name = "Bob";
  password_hash = "another password";
  role = admin;
  last_login_at = none;
  failed_login_count = 0;
  locked_until = none;
  suspended_at = none;
}

-- Ann's organisation 1 has invited Bob; the digest of the invitation's token is 4.
abbrev invitation : Invite
invitation = record {
  id = 60;
  org_id = 1;
  email = "bob@example.org";
  role = member;
  token_hash = 4;
  status = pending;
  expires_at = 500;
}

abbrev pub team : OrgStore
team = record {
  database = record {
    users = ann ∷ bob ∷ [];
    organizations = [];
    tokens = [];
    members = [];
    collaborators = [];
    next_id = 100;
  };
  invites = invitation ∷ [];
}

abbrev as_ann : Actor
as_ann = record { user_id = 7; org_id = 1; role = admin; project_id = none }

abbrev as_bob : Actor
as_bob = record { user_id = 8; org_id = 3; role = admin; project_id = none }

-- Ann tries to step down, then Bob joins, becomes an administrator, and Ann steps down.
abbrev handover : List OrgRequest
handover =
    changes_role as_ann 1 7 member
    ∷ accepts 10 as_bob "abcd"
    ∷ changes_role as_ann 1 8 admin
    ∷ changes_role as_ann 1 7 member
    ∷ []

team-HasAdmin : HasAdmin 1 team
unfolding count_admins list_home_members list_by_org is_admin
team-HasAdmin = omega arith

run_org-HasAdmin_example : HasAdmin 1 (run_org org_env handover team)
run_org-HasAdmin_example = run_org-HasAdmin 1 org_env handover team team-HasAdmin

-- Stepping down is refused while Ann is the last one.
first_refused : (update_member_role as_ann 1 7 member team).1 ≡ team
unfolding update_member_role check_role_change require_own_org role_valid resolve_member user_by_id
    require_not_last_admin count_admins list_home_members list_by_org is_admin
first_refused = refl

abbrev joined : MemberRow
joined = record { org_id = 1; user_id = 8; role = member }

bob_joins : (accept_invite org_env 10 as_bob "abcd" team).0 ≡ ok joined
unfolding accept_invite accept_row find_invite invite_by_hash check_acceptance user_by_id
    is_already_member any_member_with list_home_members list_by_org insert_membership set_status
bob_joins = refl

team-IsKeyed : IsKeyed team
team-IsKeyed = ((tt, tt), (omega arith, tt))

accept_invite_once_example :
    (inv : Invite) × (find_invite org_env "abcd" team ≡ some inv)
    × (joined ≡ granted_membership as_bob inv)
    × ((accept_invite org_env 10 as_bob "abcd" team).1.database.members ≡ joined ∷ [])
    × ((rs : List OrgRequest) (later : ℕ) (other : Actor) (text' : String) (again : Invite)
        → str_eq text' "" ≡ false
        → find_invite org_env text'
            (run_org org_env rs (accept_invite org_env 10 as_bob "abcd" team).1)
          ≡ some again
        → again.id ≡ inv.id
        → accept_invite org_env later other text'
            (run_org org_env rs (accept_invite org_env 10 as_bob "abcd" team).1)
          ≡ (
            err invite_not_pending,
            run_org org_env rs (accept_invite org_env 10 as_bob "abcd" team).1,
          ))
accept_invite_once_example =
    accept_invite_once org_env 10 as_bob "abcd" team joined team-IsKeyed bob_joins

abbrev closed_team : OrgStore
closed_team = record team { invites = record invitation { status = accepted } ∷ [] }

run_org-IsAnswered_example :
    let inv : Invite = record invitation { status = accepted } in
    let after = run_org org_env (declines as_bob 60 ∷ accepts 20 as_bob "abcd" ∷ []) closed_team in
    IsKeyed after × IsAnswered inv after
run_org-IsAnswered_example =
    run_org-IsAnswered org_env (record invitation { status = accepted })
      (declines as_bob 60 ∷ accepts 20 as_bob "abcd" ∷ []) closed_team ((tt, tt), (omega arith, tt))
      (omega arith, (refl, tt), refl)
