-- ===== src/Organization/Closed.antt =====
-- internal/modules/organization/service.go: an invitation is answered once.
use guard_pipe.Prelude.{
  ℕ, ◌<◌, ◌≡◌, refl, sym, subst, true, false, List, [], ◌∷◌, ◌++◌, some, arith, ◌==◌, ltb, is_some,
  find?, All, All-append, All-map, Bool-cases, inl, inr, any, ◌∙◌,
}
use guard_pipe.Errors.{ok, ok_inj, Result-cases}
use guard_pipe.Domain.Engine.{Actor}
use guard_pipe.Identity.Store.{MemberRow}
use guard_pipe.Organization.Store.{
  OrgStore, Invite, InviteStatus, accepted, is_pending, is_invite, is_membership, update_first,
  insert_membership, set_status,
}
use guard_pipe.Organization.Invites.{OrgEnv, check_acceptance, granted_membership, accept_row}
use guard_pipe.Organization.Requests.{OrgRequest, handle_org, run_org}
use guard_pipe.Organization.Keys.{
  Distinct, mark, Distinct-mark, below_mark, Distinct-append, find?-mark_ne, find?-append, waits,
  NoneWaits, NoneWaits-mark, NoneWaits-any,
}
use guard_pipe.Organization.Steps.{InviteStep, marked, added, mark_all}
use guard_pipe.Organization.Answers.{handle_org-InviteStep}

-- Invitations have identifiers of their own, all handed out.
abbrev pub IsKeyed : OrgStore → Type 0
IsKeyed s = Distinct s.invites × All (λ inv. inv.id < s.database.next_id) s.invites

-- The invitation was handed out, is this row, and is answered or has expired.
abbrev pub IsAnswered : Invite → OrgStore → Type 0
IsAnswered inv s =
    (inv.id < s.database.next_id)
    × NoneWaits inv.id s.invites
    × (find? (is_invite inv.id) s.invites ≡ some inv)

Keyed-mark_all :
    (n : ℕ) (ms : List (ℕ × InviteStatus)) (xs : List Invite)
    → Distinct xs × All (λ inv. inv.id < n) xs
    → Distinct (mark_all ms xs) × All (λ inv. inv.id < n) (mark_all ms xs)
Keyed-mark_all n [] xs k = k
Keyed-mark_all n ((i, status) ∷ ms) xs k =
    Keyed-mark_all n ms _ (Distinct-mark i status xs k.0, below_mark n i status xs k.1)

InviteStep-IsKeyed : (s s' : OrgStore) → InviteStep s s' → IsKeyed s → IsKeyed s'
InviteStep-IsKeyed s s' (marked ms wait e le) k =
    let below =
      All-map (λ (v : Invite). v.id < s.database.next_id)
        (λ (v : Invite). v.id < s'.database.next_id) s.invites (λ v h. omega arith) k.1 in
    subst (λ xs. Distinct xs × All (λ inv. inv.id < s'.database.next_id) xs) (sym e)
      (Keyed-mark_all s'.database.next_id ms s.invites (k.0, below))
InviteStep-IsKeyed s s' (added row new e later) k =
    let below =
      All-map (λ (v : Invite). v.id < s.database.next_id)
        (λ (v : Invite). v.id < s'.database.next_id) s.invites (λ v h. omega (arith, new, later))
        k.1 in
    let before =
      All-map (λ (v : Invite). v.id < s.database.next_id) (λ (v : Invite). v.id < row.id) s.invites
        (λ v h. omega (arith, new)) k.1 in
    subst (λ xs. Distinct xs × All (λ inv. inv.id < s'.database.next_id) xs) (sym e)
      (
        Distinct-append row s.invites before k.0,
        All-append (λ (v : Invite). v.id < s'.database.next_id) s.invites (row ∷ []) below
            (later, tt),
      )

Answered-mark_all :
    (inv : Invite) (ms : List (ℕ × InviteStatus)) (xs : List Invite)
    → All (λ m. (m.0 == inv.id) ≡ false) ms
    → NoneWaits inv.id xs × (find? (is_invite inv.id) xs ≡ some inv)
    → NoneWaits inv.id (mark_all ms xs) × (find? (is_invite inv.id) (mark_all ms xs) ≡ some inv)
Answered-mark_all inv [] xs other a = a
Answered-mark_all inv ((i, status) ∷ ms) xs other a =
    Answered-mark_all inv ms _ other.1 (
      NoneWaits-mark inv.id i status xs other.0 a.0,
      find?-mark_ne inv.id i status xs other.0 ∙ a.1,
    )

InviteStep-IsAnswered :
    (inv : Invite) (s s' : OrgStore) → InviteStep s s' → IsAnswered inv s → IsAnswered inv s'
InviteStep-IsAnswered inv s s' (marked ms wait e le) a =
    let other =
      All-map (λ (m : ℕ × InviteStatus). any (waits m.0) s.invites ≡ true)
        (λ (m : ℕ × InviteStatus). (m.0 == inv.id) ≡ false) ms
        (λ m h. NoneWaits-any inv.id m.0 s.invites a.1 h) wait in
    let rest = Answered-mark_all inv ms s.invites other (a.1, a.2) in
    (
      omega (arith, a.0),
      subst (NoneWaits inv.id) (sym e) rest.0,
      subst (λ xs. find? (is_invite inv.id) xs ≡ some inv) (sym e) rest.1,
    )
InviteStep-IsAnswered inv s s' (added row new e later) a = (
  omega (arith, a.0, new, later),
  subst (NoneWaits inv.id) (sym e) (
      All-append (λ (v : Invite). waits inv.id v ≡ false) s.invites (row ∷ []) a.1
        (ground (arith, a.0, new), tt)),
  subst (λ xs. find? (is_invite inv.id) xs ≡ some inv) (sym e)
      (find?-append inv.id row s.invites {inv = inv} a.2),
)

-- In every history, invitations that start with identifiers of their own keep them, and one that is
-- answered, revoked or expired stays the same row.
pub run_org-IsAnswered :
    (env : OrgEnv) (inv : Invite) (rs : List OrgRequest) (s : OrgStore)
    → IsKeyed s
    → IsAnswered inv s
    → IsKeyed (run_org env rs s) × IsAnswered inv (run_org env rs s)
unfolding run_org
run_org-IsAnswered env inv [] s k a = (k, a)
run_org-IsAnswered env inv (r ∷ rs) s k a =
    let step = handle_org-InviteStep env r s in
    run_org-IsAnswered env inv rs (handle_org env r s) (InviteStep-IsKeyed s _ step k)
      (InviteStep-IsAnswered inv s _ step a)

-- The rows once an invitation is accepted.
abbrev pub accepted_by : Actor → Invite → OrgStore → OrgStore
accepted_by actor inv s = record s {
  database = record s.database {
    members = s.database.members ++ granted_membership actor inv ∷ [];
  };
  invites = update_first (is_invite inv.id) (mark accepted) s.invites;
}

pub accept_row_accepted :
    (env : OrgEnv) (now : ℕ) (actor : Actor) (inv : Invite) (s : OrgStore) {m : MemberRow}
    → (accept_row env now actor inv s).0 ≡ ok m
    → (m ≡ granted_membership actor inv)
      × ((accept_row env now actor inv s).1 ≡ accepted_by actor inv s)
unfolding accept_row insert_membership set_status
accept_row_accepted env now actor inv s {m} e = elim (Bool-cases (is_pending inv.status)) [
  | inr closed ↦ absurd (ground (arith, closed))
  | inl waiting ↦ elim (Bool-cases (ltb inv.expires_at now)) [
    | inl late ↦ absurd (ground (arith, waiting, late))
    | inr in_time ↦ elim (Result-cases (check_acceptance env actor inv s)) [
      | inr (x, refused) ↦ absurd (ground (arith, waiting, in_time, refused))
      | inl (allowed, checked) ↦
          let row = granted_membership actor inv in
          elim (Bool-cases
            (is_some (find? (is_membership row.org_id row.user_id) s.database.members))) [
              | inl there ↦ absurd (ground (arith, waiting, in_time, checked, there))
              | inr new ↦ (
                ok_inj (sym (rw (waiting, in_time, checked, new, accept_row) at e)),
                rw (waiting, in_time, checked, new, accept_row) refl,
              )
            ]
    ]
  ]
]
