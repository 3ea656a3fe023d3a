-- ===== src/Organization/Answers.antt =====
-- internal/modules/organization/service.go: what making and answering an invitation does to the table
-- of invitations, and so every operation.
use guard_pipe.Prelude.{
  ℕ, ◌≡◌, refl, true, not, List, [], ◌∷◌, some, arith, ◌==◌, ltb, is_some, find?, any, Bool-cases,
  Option-cases, String, str_eq, inl, inr,
}
use guard_pipe.Errors.{ok, Result-cases, bind-eq-ok, refuse_if-eq-ok}
use guard_pipe.Domain.Engine.{Role, Actor}
use guard_pipe.Identity.Refines.{register-Move}
use guard_pipe.Organization.Store.{
  OrgStore, Invite, accepted, expired, revoked, declined, is_pending, is_invite, is_membership,
  invite_by_id, invite_by_hash, insert_invite, insert_membership, set_status,
}
use guard_pipe.Organization.Service.{require_own_org}
use guard_pipe.Organization.Invites.{
  OrgEnv, check_invite, new_invite, create_invite, check_revocation, revoke_invite,
  check_acceptance, granted_membership, accept_row, find_invite, accept_invite, check_decline,
  decline_invite, draw_id,
}
use guard_pipe.Organization.Requests.{
  OrgRequest, changes_role, removes, invites_to, revokes_invite, accepts, lists_mine, declines,
  switches, registers_account, handle_org,
}
use guard_pipe.Organization.Keys.{waits}
use guard_pipe.Organization.Steps.{
  InviteStep, marked, added, untouched, waits_found, Move-later, update_member_role-InviteStep,
  remove_member-InviteStep, switch_org-InviteStep, list_my_invites-InviteStep,
}

create_invite-InviteStep :
    (env : OrgEnv) (now : ℕ) (fresh : String) (actor : Actor) (org : ℕ) (email : String)
    (role : Role) (s : OrgStore)
    → InviteStep s (create_invite env now fresh actor org email role s).1
unfolding create_invite insert_invite
create_invite-InviteStep env now fresh actor org email role s =
    elim (Result-cases (check_invite env now actor org email role s)) [
      | inr (e, refused) ↦ rw (refused, create_invite) (untouched s s refl (omega arith))
      | inl (address, allowed) ↦
          let inv = new_invite env now fresh org address role s in
          elim (Bool-cases (is_some (invite_by_hash inv.token_hash (draw_id s)))) [
            | inl taken ↦ rw (allowed, taken, create_invite) (untouched s _ refl (omega arith))
            | inr new ↦ rw (allowed, new, create_invite) (added inv refl refl (omega arith))
          ]
    ]

accept_row-InviteStep :
    (env : OrgEnv) (now : ℕ) (actor : Actor) (inv : Invite) (s : OrgStore)
    → (is_pending inv.status ≡ true → any (waits inv.id) s.invites ≡ true)
    → InviteStep s (accept_row env now actor inv s).1
unfolding accept_row insert_membership set_status
accept_row-InviteStep env now actor inv s known = elim (Bool-cases (is_pending inv.status)) [
  | inr closed ↦ rw closed (untouched s s refl (omega arith))
  | inl waiting ↦ elim (Bool-cases (ltb inv.expires_at now)) [
    | inl late ↦
        rw (waiting, late) (marked ((inv.id, expired) ∷ []) (known waiting, tt) refl (omega arith))
    | inr in_time ↦ elim (Result-cases (check_acceptance env actor inv s)) [
      | inr (e, refused) ↦
          rw (waiting, in_time, refused, accept_row) (untouched s s refl (omega arith))
      | inl (allowed, by) ↦
          let m = granted_membership actor inv in
          elim (Bool-cases
            (is_some (find? (is_membership m.org_id m.user_id) s.database.members))) [
              | inl there ↦
                  rw (waiting, in_time, by, there, accept_row) (untouched s s refl (omega arith))
              | inr new ↦
                  rw (waiting, in_time, by, new, accept_row)
                    (marked ((inv.id, accepted) ∷ []) (known waiting, tt) refl (omega arith))
            ]
    ]
  ]
]

find_invite-waits :
    (env : OrgEnv) (identifier : String) (s : OrgStore) (inv : Invite)
    → find_invite env identifier s ≡ some inv
    → is_pending inv.status ≡ true
    → any (waits inv.id) s.invites ≡ true
unfolding find_invite invite_by_id invite_by_hash
find_invite-waits env identifier s inv found waiting =
    elim (Option-cases (env.parse_uuid identifier)) [
      | inl token ↦
          waits_found (λ (v : Invite). v.token_hash == env.base.sha256 identifier) s.invites
            {inv = inv} (rw (token, find_invite) at found) waiting
      | inr (i, uuid) ↦
          waits_found (is_invite i) s.invites {inv = inv} (rw (uuid, find_invite) at found) waiting
    ]

accept_invite-InviteStep :
    (env : OrgEnv) (now : ℕ) (actor : Actor) (text : String) (s : OrgStore)
    → InviteStep s (accept_invite env now actor text s).1
unfolding accept_invite
accept_invite-InviteStep env now actor text s =
    let identifier = env.base.trim text in
    elim (Bool-cases (str_eq identifier "")) [
      | inl blank ↦ rw (blank, accept_invite) (untouched s s refl (omega arith))
      | inr given ↦ elim (Option-cases (find_invite env identifier s)) [
        | inl nothing ↦ rw (given, nothing, accept_invite) (untouched s s refl (omega arith))
        | inr (inv, found) ↦
            rw (given, found, accept_invite)
              (accept_row-InviteStep env now actor inv s
                (find_invite-waits env identifier s inv found))
      ]
    ]

waits_by_id :
    (i : ℕ) (xs : List Invite) {inv : Invite}
    → find? (is_invite i) xs ≡ some inv
    → is_pending inv.status ≡ true
    → any (waits i) xs ≡ true
waits_by_id i [] f w = cc
waits_by_id i (x ∷ xs) {inv} f w = elim (Bool-cases (x.id == i)) [
  | inl hit ↦ ground (arith, hit)
  | inr miss ↦ let rest = waits_by_id i xs {inv = inv} (rw miss at f) w in ground (arith, rest)
]

check_revocation-waits :
    (actor : Actor) (org i : ℕ) (s : OrgStore) {allowed : Unit {0}}
    → check_revocation actor org i s ≡ ok allowed
    → any (waits i) s.invites ≡ true
unfolding check_revocation invite_by_id
check_revocation-waits actor org i s e =
    let (own, own_ok, e1) = bind-eq-ok (require_own_org actor org) _ e in
    elim (Option-cases (find? (is_invite i) s.invites)) [
      | inl nothing ↦ absurd (ground (arith, nothing, e1))
      | inr (inv, found) ↦ waits_by_id i s.invites {inv = inv} found (ground (arith, found, e1))
    ]

revoke_invite-InviteStep :
    (actor : Actor) (org i : ℕ) (s : OrgStore) → InviteStep s (revoke_invite actor org i s).1
unfolding revoke_invite set_status
revoke_invite-InviteStep actor org i s = elim (Result-cases (check_revocation actor org i s)) [
  | inr (e, refused) ↦ rw (refused, revoke_invite) (untouched s s refl (omega arith))
  | inl (allowed, checked) ↦
      let wait = check_revocation-waits actor org i s checked in
      rw (checked, revoke_invite) (marked ((i, revoked) ∷ []) (wait, tt) refl (omega arith))
]

check_decline-waits :
    (env : OrgEnv) (actor : Actor) (i : ℕ) (s : OrgStore) {allowed : Unit {0}}
    → check_decline env actor i s ≡ ok allowed
    → any (waits i) s.invites ≡ true
unfolding check_decline invite_by_id
check_decline-waits env actor i s e = elim (Option-cases (invite_by_id i s)) [
  | inl nothing ↦ absurd (ground (arith, nothing))
  | inr (inv, found) ↦
      let (waiting, rest) =
        refuse_if-eq-ok (not (is_pending inv.status)) _ _ (rw (found, check_decline) at e) in
      waits_by_id i s.invites {inv = inv} found (ground (arith, waiting))
]

decline_invite-InviteStep :
    (env : OrgEnv) (actor : Actor) (i : ℕ) (s : OrgStore)
    → InviteStep s (decline_invite env actor i s).1
unfolding decline_invite set_status
decline_invite-InviteStep env actor i s = elim (Result-cases (check_decline env actor i s)) [
  | inr (e, refused) ↦ rw (refused, decline_invite) (untouched s s refl (omega arith))
  | inl (allowed, checked) ↦
      let wait = check_decline-waits env actor i s checked in
      rw (checked, decline_invite) (marked ((i, declined) ∷ []) (wait, tt) refl (omega arith))
]

pub handle_org-InviteStep :
    (env : OrgEnv) (r : OrgRequest) (s : OrgStore) → InviteStep s (handle_org env r s)
unfolding handle_org
handle_org-InviteStep env (changes_role actor org user role) s =
    update_member_role-InviteStep actor org user role s
handle_org-InviteStep env (removes actor org user) s = remove_member-InviteStep actor org user s
handle_org-InviteStep env (invites_to now fresh actor org email role) s =
    create_invite-InviteStep env now fresh actor org email role s
handle_org-InviteStep env (revokes_invite actor org i) s = revoke_invite-InviteStep actor org i s
handle_org-InviteStep env (accepts now actor text) s = accept_invite-InviteStep env now actor text s
handle_org-InviteStep env (lists_mine now actor) s = list_my_invites-InviteStep env now actor s
handle_org-InviteStep env (declines actor i) s = decline_invite-InviteStep env actor i s
handle_org-InviteStep env (switches now fresh actor target) s =
    switch_org-InviteStep env.base now fresh actor target s
handle_org-InviteStep env (registers_account input) s =
    untouched s _ refl (Move-later (register-Move env.base input s.database))
