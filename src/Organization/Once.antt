-- ===== src/Organization/Once.antt =====
-- internal/modules/organization/service.go, `AcceptInvite`: an invitation gives one membership.
use guard_pipe.Prelude.{
  ℕ, ◌≡◌, refl, sym, ap, false, List, [], ◌∷◌, ◌++◌, some, arith, ◌==◌, find?, Bool-cases,
  Option-cases, String, str_eq, some_inj, inl, inr, ◌∙◌,
}
use guard_pipe.Errors.{ok, err}
use guard_pipe.Domain.Engine.{Actor}
use guard_pipe.Identity.Store.{MemberRow}
use guard_pipe.Organization.Store.{
  OrgStore, Invite, accepted, is_pending, is_invite, invite_by_id, invite_by_hash,
}
use guard_pipe.Organization.Invites.{
  OrgEnv, granted_membership, accept_row, find_invite, accept_invite, invite_not_pending,
}
use guard_pipe.Organization.Requests.{OrgRequest, run_org}
use guard_pipe.Organization.Keys.{
  mark, Distinct-mark, below_mark, find?-Distinct, find?-mark_self, NoneWaits-closed, find?-below,
}
use guard_pipe.Organization.Closed.{
  IsKeyed, IsAnswered, run_org-IsAnswered, accepted_by, accept_row_accepted,
}

module _ (env : OrgEnv) where
  -- An invitation that an identifier finds is the row of its own identifier.
  find_invite_own :
      (identifier : String) (s : OrgStore) (inv : Invite)
      → IsKeyed s
      → find_invite env identifier s ≡ some inv
      → find? (is_invite inv.id) s.invites ≡ some inv
  unfolding find_invite invite_by_id invite_by_hash
  find_invite_own identifier s inv k found = elim (Option-cases (env.parse_uuid identifier)) [
    | inl token ↦
        find?-Distinct (λ v. v.token_hash == env.base.sha256 identifier) s.invites {inv = inv} k.0
          (rw (token, find_invite) at found)
    | inr (i, uuid) ↦
        find?-Distinct (is_invite i) s.invites {inv = inv} k.0 (rw (uuid, find_invite) at found)
  ]

  accepted_by-IsAnswered :
      (actor : Actor) (inv : Invite) (s : OrgStore)
      → IsKeyed s
      → find? (is_invite inv.id) s.invites ≡ some inv
      → IsKeyed (accepted_by actor inv s) × IsAnswered (mark accepted inv) (accepted_by actor inv s)
  accepted_by-IsAnswered actor inv s k own =
      let distinct = Distinct-mark inv.id accepted s.invites k.0 in
      let row = find?-mark_self inv.id accepted s.invites {inv = inv} own in
      (
        (distinct, below_mark s.database.next_id inv.id accepted s.invites k.1),
        (
          find?-below s.database.next_id inv.id s.invites {inv = inv} own k.1,
          NoneWaits-closed inv.id _ {inv = mark accepted inv} distinct row refl,
          row,
        ),
      )

  answered_again :
      (now : ℕ) (actor : Actor) (text : String) (inv again : Invite) (t : OrgStore)
      → IsKeyed t
      → IsAnswered (mark accepted inv) t
      → str_eq (env.base.trim text) "" ≡ false
      → find_invite env (env.base.trim text) t ≡ some again
      → again.id ≡ inv.id
      → accept_invite env now actor text t ≡ (err invite_not_pending, t)
  unfolding accept_invite accept_row
  answered_again now actor text inv again t k a given found same =
      let own = find_invite_own (env.base.trim text) t again k found in
      let it : again ≡ mark accepted inv =
        some_inj (sym own ∙ ap (λ i. find? (is_invite i) t.invites) same ∙ a.2) in
      let closed : is_pending again.status ≡ false = rw it refl in
      rw (given, found, accept_invite) (rw (closed, accept_row) refl)

  accept_invite_found :
      (now : ℕ) (actor : Actor) (text : String) (s : OrgStore) {m : MemberRow}
      → (accept_invite env now actor text s).0 ≡ ok m
      → (inv : Invite) × (find_invite env (env.base.trim text) s ≡ some inv)
        × (accept_invite env now actor text s ≡ accept_row env now actor inv s)
  unfolding accept_invite
  accept_invite_found now actor text s {m} e = elim (Bool-cases (str_eq (env.base.trim text) "")) [
    | inl blank ↦ absurd (ground (arith, blank))
    | inr given ↦ elim (Option-cases (find_invite env (env.base.trim text) s)) [
      | inl nothing ↦ absurd (ground (arith, given, nothing))
      | inr (inv, found) ↦ (inv, found, rw (given, found, accept_invite) refl)
    ]
  ]

-- When accepting an identifier succeeds, where invitations have identifiers of their own, it found an
-- invitation, answers with the membership of that invitation's organisation and role for the caller,
-- and adds exactly that membership; and after any history that follows, whoever accepts an
-- identifier, not blank, that finds this invitation is refused with `invite_not_pending`, and
-- nothing changes.
pub accept_invite_once :
    (env : OrgEnv) (now : ℕ) (actor : Actor) (text : String) (s : OrgStore) (m : MemberRow)
    → IsKeyed s
    → (accept_invite env now actor text s).0 ≡ ok m
    → (inv : Invite) × (find_invite env (env.base.trim text) s ≡ some inv)
      × (m ≡ granted_membership actor inv)
      × ((accept_invite env now actor text s).1.database.members ≡ s.database.members ++ m ∷ [])
      × ((rs : List OrgRequest) (later : ℕ) (other : Actor) (text' : String) (again : Invite)
          → str_eq (env.base.trim text') "" ≡ false
          → find_invite env
              (env.base.trim text')
              (run_org env rs (accept_invite env now actor text s).1)
            ≡ some again
          → again.id ≡ inv.id
          → accept_invite env later other text'
              (run_org env rs (accept_invite env now actor text s).1)
            ≡ (err invite_not_pending, run_org env rs (accept_invite env now actor text s).1))
accept_invite_once env now actor text s m k e =
    let (inv, found, run) = accept_invite_found env now actor text s e in
    let row_ok : (accept_row env now actor inv s).0 ≡ ok m = rw run at e in
    let (is_granted, after) = accept_row_accepted env now actor inv s row_ok in
    let own = find_invite_own env (env.base.trim text) s inv k found in
    let (keyed, answered) = accepted_by-IsAnswered env actor inv s k own in
    rw run (
      rw after (
        inv,
        found,
        is_granted,
        rw is_granted refl,
        λ rs later other text' again given found' same.
            let (k', a') = run_org-IsAnswered env (mark accepted inv) rs _ keyed answered in
            answered_again env later other text' inv again _ k' a' given found' same,
      ))
