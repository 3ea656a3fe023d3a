-- ===== src/Organization/Steps.antt =====
-- internal/modules/organization/service.go: what an operation may do to the table of invitations.
use guard_pipe.Prelude.{
  All-keep, ℕ, ◌≤◌, ◌<◌, ◌≡◌, refl, ap, ◌∙◌, Bool, true, false, ◌&&◌, List, [], ◌∷◌, ◌++◌, none,
  some, arith, if◌then◌else◌, ==_refl, ltb, find?, any, All, All-map, keep, Bool-cases,
  Option-cases, String, inl, inr,
}
use guard_pipe.Errors.{Result-cases}
use guard_pipe.Domain.Engine.{Role, Actor}
use guard_pipe.Identity.Store.{Database, user_by_id}
use guard_pipe.Identity.Service.{Env}
use guard_pipe.Identity.Sessions.{issue_for_org}
use guard_pipe.Identity.Moves.{Move, keeps, revokes, consumes, drops, rotates, begins}
use guard_pipe.Identity.Refines.{issue_scoped-Move}
use guard_pipe.Organization.Store.{
  OrgStore, Invite, InviteStatus, expired, is_pending, is_invite, update_first, set_status,
  set_home_role, set_membership_role, delete_membership,
}
use guard_pipe.Organization.Service.{
  check_role_change, update_member_role, check_removal, remove_member, switch_role, switch_org,
}
use guard_pipe.Organization.Invites.{OrgEnv, expire_each, list_my_invites}
use guard_pipe.Organization.Grows.{expire_each-database}
use guard_pipe.Organization.Keys.{mark, waits}

-- The rows after some are marked, one after the other.
abbrev pub mark_all : List (ℕ × InviteStatus) → List Invite → List Invite
mark_all [] xs = xs
mark_all ((i, status) ∷ ms) xs = mark_all ms (update_first (is_invite i) (mark status) xs)

pub data InviteStep (s s' : OrgStore) : Type 0 where
  marked :
      (ms : List (ℕ × InviteStatus))
      → All (λ m. any (waits m.0) s.invites ≡ true) ms
      → s'.invites ≡ mark_all ms s.invites
      → s.database.next_id ≤ s'.database.next_id
      → InviteStep s s'
  added :
      (row : Invite)
      → row.id ≡ s.database.next_id
      → s'.invites ≡ s.invites ++ row ∷ []
      → row.id < s'.database.next_id
      → InviteStep s s'

pub untouched :
    (s s' : OrgStore)
    → s'.invites ≡ s.invites
    → s.database.next_id ≤ s'.database.next_id
    → InviteStep s s'
untouched s s' e le = marked [] tt e le

-- A row that a test finds, and that is pending, waits.
pub waits_found :
    (p : Invite → Bool) (xs : List Invite) {inv : Invite}
    → find? p xs ≡ some inv
    → is_pending inv.status ≡ true
    → any (waits inv.id) xs ≡ true
waits_found p [] f w = cc
waits_found p (x ∷ xs) {inv} f w = elim (Bool-cases (p x)) [
  | inl hit ↦ ground (arith, hit, ==_refl x.id)
  | inr miss ↦ let rest = waits_found p xs {inv = inv} (rw miss at f) w in ground (arith, rest)
]

pub Move-later : {env : Env} {d d' : Database} → Move env d d' → d.next_id ≤ d'.next_id
Move-later (keeps e le) = le
Move-later (revokes f at e le) = le
Move-later (consumes now t may e le) = le
Move-later (drops now t may e le) = le
Move-later (rotates now t row may new same e le) = le
Move-later (begins now row new fresh e later) = omega (arith, fresh.0)

pub update_member_role-InviteStep :
    (actor : Actor) (org user : ℕ) (role : Role) (s : OrgStore)
    → InviteStep s (update_member_role actor org user role s).1
unfolding update_member_role set_home_role set_membership_role
update_member_role-InviteStep actor org user role s =
    elim (Result-cases (check_role_change actor org user role s)) [
      | inr (e, refused) ↦ rw (refused, update_member_role) (untouched s s refl (omega arith))
      | inl (none, same) ↦ rw (same, update_member_role) (untouched s s refl (omega arith))
      | inl (some true, home) ↦ rw (home, update_member_role) (untouched s _ refl (omega arith))
      | inl (some false, away) ↦ rw (away, update_member_role) (untouched s _ refl (omega arith))
    ]

pub remove_member-InviteStep :
    (actor : Actor) (org user : ℕ) (s : OrgStore) → InviteStep s (remove_member actor org user s).1
unfolding remove_member delete_membership
remove_member-InviteStep actor org user s = elim (Result-cases (check_removal actor org user s)) [
  | inr (e, refused) ↦ rw (refused, remove_member) (untouched s s refl (omega arith))
  | inl (allowed, checked) ↦ rw (checked, remove_member) (untouched s _ refl (omega arith))
]

pub switch_org-InviteStep :
    (env : Env) (now : ℕ) (fresh : String) (actor : Actor) (target : ℕ) (s : OrgStore)
    → InviteStep s (switch_org env now fresh actor target s).1
unfolding switch_org issue_for_org
switch_org-InviteStep env now fresh actor target s =
    elim (Result-cases (switch_role actor target s)) [
      | inr (e, refused) ↦ rw (refused, switch_org) (untouched s s refl (omega arith))
      | inl (role, allowed) ↦
          rw (allowed, switch_org)
            (untouched s _ refl (
              Move-later
                (issue_scoped-Move env now fresh actor.user_id target role none s.database)))
    ]

-- The loop over invitations of the table marks some that wait in it.
late_marks : ℕ → List Invite → List (ℕ × InviteStatus)
late_marks now [] = []
late_marks now (inv ∷ invs) =
    if is_pending inv.status && ltb inv.expires_at now
    then (inv.id, expired) ∷ late_marks now invs
    else late_marks now invs

mark_if :
    (late : Bool) (i : ℕ) (ms : List (ℕ × InviteStatus)) (s : OrgStore)
    → mark_all ms (if late then set_status i expired s else s).invites
      ≡ mark_all (if late then (i, expired) ∷ ms else ms) s.invites
unfolding set_status
mark_if true i ms s = refl
mark_if false i ms s = refl

expire_each-mark_all :
    (now : ℕ) (invs : List Invite) (s : OrgStore)
    → (expire_each now invs s).invites ≡ mark_all (late_marks now invs) s.invites
unfolding expire_each late_marks
expire_each-mark_all now [] s = refl
expire_each-mark_all now (inv ∷ invs) s =
    expire_each-mark_all now invs _
    ∙ mark_if (is_pending inv.status && ltb inv.expires_at now) inv.id (late_marks now invs) s

late_marks-wait :
    (now : ℕ) (xs invs : List Invite)
    → All (λ v. is_pending v.status ≡ true → any (waits v.id) xs ≡ true) invs
    → All (λ m. any (waits m.0) xs ≡ true) (late_marks now invs)
unfolding late_marks
late_marks-wait now xs [] h = tt
late_marks-wait now xs (inv ∷ invs) h =
    elim (Bool-cases (is_pending inv.status && ltb inv.expires_at now)) [
      | inl late ↦ rw late (h.0 (ground arith), late_marks-wait now xs invs h.1)
      | inr kept ↦ rw kept (late_marks-wait now xs invs h.1)
    ]

abbrev Known : List Invite → Invite → Type 0
Known xs v = is_pending v.status ≡ true → any (waits v.id) xs ≡ true

All-Known : (xs : List Invite) → All (Known xs) xs
All-Known [] = tt
All-Known (x ∷ xs) = (
  λ w. ground (arith, ==_refl x.id),
  All-map (Known xs) (Known (x ∷ xs)) xs (λ v k w. ground (arith, k w)) (All-Known xs),
)

pub list_my_invites-InviteStep :
    (env : OrgEnv) (now : ℕ) (actor : Actor) (s : OrgStore)
    → InviteStep s (list_my_invites env now actor s).1
unfolding list_my_invites
list_my_invites-InviteStep env now actor s =
    elim (Option-cases (user_by_id actor.user_id s.database)) [
      | inl nobody ↦ rw (nobody, list_my_invites) (untouched s s refl (omega arith))
      | inr (caller, known) ↦
          let mine =
            keep (λ (inv : Invite). env.base.same_email inv.email caller.email) s.invites in
          rw (known, list_my_invites)
            (marked (late_marks now mine)
              (late_marks-wait now s.invites mine
                (All-keep (Known s.invites) _ s.invites (All-Known s.invites)))
              (expire_each-mark_all now mine s)
              (omega (arith, ap (λ (d : Database). d.next_id) (expire_each-database now mine s))))
    ]
