-- ===== src/Project/Public.antt =====
-- internal/modules/project/service.go and internal/platform/validate: where registered targets point.
use guard_pipe.Prelude.{
  ◌≡◌, refl, sym, ◌∙◌, subst, Bool, false, ◌&&◌, List, [], ◌∷◌, map, any, All, All-append,
  length-map, is_some, Bool-cases, inl, inr, ◌==◌, String, str_eq, arith,
}
use guard_pipe.Domain.Engine.{Actor}
use guard_pipe.Organization.Store.{update_first}
use guard_pipe.Validate.Address.{IpAddr, v4, v6, unmap, is_blocked_range}
use guard_pipe.Validate.Ranges.{in_blocked_ranges, is_blocked_range-eq-ranges}
use guard_pipe.Validate.Target.{NameServer, TargetResolution, resolved, resolve_target}
use guard_pipe.Validate.Allowed.{IsAllowed, resolve_target-IsAllowed}
use guard_pipe.Project.Store.{
  ProjectInvite, TargetRow, TargetStatus, Projects, insert_target, set_target_status,
  upsert_credential, delete_credential, insert_project_invite, set_invite_status, delete_grant,
  project_invite_by_hash,
}
use guard_pipe.Project.Requests.{Settings, Call, handle_project, run_calls}
use guard_pipe.Project.Writes.{
  Write, nothing, stores, drops, adds, marks, asks, closes, expels, handle_project-Write,
}

unmap-unmap : (ip : IpAddr) → unmap (unmap ip) ≡ unmap ip
unfolding unmap
unmap-unmap (v4 a) = refl
unmap-unmap (v6 n) = ground arith

is_blocked_range-unmap : (ip : IpAddr) → is_blocked_range (unmap ip) ≡ is_blocked_range ip
unfolding is_blocked_range
is_blocked_range-unmap ip = rw (unmap-unmap ip) refl

any_blocked-unmap :
    (ips : List IpAddr) → any in_blocked_ranges (map unmap ips) ≡ any in_blocked_ranges ips
any_blocked-unmap [] = refl
any_blocked-unmap (ip ∷ ips) =
    rw
      (
        sym (is_blocked_range-eq-ranges (unmap ip))
            ∙ is_blocked_range-unmap ip
            ∙ is_blocked_range-eq-ranges ip,
        any_blocked-unmap ips,
      )
      refl

insert_project_invite-targets :
    (v : ProjectInvite) (s : Projects) → (insert_project_invite v s).1.targets ≡ s.targets
unfolding insert_project_invite
insert_project_invite-targets v s =
    elim (Bool-cases (is_some (project_invite_by_hash v.token_hash s))) [
      | inl taken ↦ rw taken refl
      | inr free ↦ rw free refl
    ]

-- A target points at addresses that are allowed, under a host that is allowed.
abbrev pub IsPublic : Settings → TargetRow → Type 0
IsPublic set t = IsAllowed set.network set.denylist t.normalized_host t.pinned_ips

abbrev pub ArePublic : Settings → Projects → Type 0
ArePublic set s = All (IsPublic set) s.targets

module _ (set : Settings) where
  insert_target-ArePublic :
      (t : TargetRow) (s : Projects)
      → IsPublic set t
      → ArePublic set s
      → ArePublic set (insert_target t s).1
  unfolding insert_target
  insert_target-ArePublic t s good all =
      let twin : TargetRow → Bool =
        λ u. u.project_id == t.project_id && str_eq u.normalized_host t.normalized_host in
      elim (Bool-cases (any twin s.targets)) [
        | inl taken ↦ rw taken all
        | inr free ↦ rw free (All-append (IsPublic set) s.targets (t ∷ []) all (good, tt))
      ]

  update_first-ArePublic :
      (p : TargetRow → Bool) (status : TargetStatus) (ts : List TargetRow)
      → All (IsPublic set) ts
      → All (IsPublic set) (update_first p (λ t. record t { status = status }) ts)
  update_first-ArePublic p status [] all = tt
  update_first-ArePublic p status (t ∷ ts) all = elim (Bool-cases (p t)) [
    | inl hit ↦ rw hit (all.0, all.1)
    | inr miss ↦ rw miss (all.0, update_first-ArePublic p status ts all.1)
  ]

  registered-IsPublic :
      (t : TargetRow) (lookup : NameServer) (input : String) {r : TargetResolution}
      → set.allow_private ≡ false
      → resolve_target set.network lookup set.allow_private set.denylist input ≡ resolved r
      → t.normalized_host ≡ r.normalized_host
      → t.pinned_ips ≡ map unmap r.pinned_ips
      → IsPublic set t
  registered-IsPublic t lookup input {r} closed found host ips =
      let good =
        resolve_target-IsAllowed set.network lookup set.denylist input (rw closed at found) in
      rw (host, ips)
        record {
          answered = rw (length-map unmap r.pinned_ips) good.answered;
          outside = any_blocked-unmap r.pinned_ips ∙ good.outside;
          not_denied = good.not_denied;
        }

  Write-ArePublic :
      (s s' : Projects) {actor : Actor}
      → set.allow_private ≡ false
      → Write set actor s s'
      → ArePublic set s
      → ArePublic set s'
  unfolding upsert_credential delete_credential set_invite_status delete_grant set_target_status
  Write-ArePublic s _ closed nothing all = all
  Write-ArePublic s _ closed (stores row owned) all = all
  Write-ArePublic s _ closed (drops project owned) all = all
  Write-ArePublic s _ closed (adds t lookup input r n owned found host ips) all =
      insert_target-ArePublic t (record s { next_id = n })
        (registered-IsPublic t lookup input closed found host ips) all
  Write-ArePublic s _ closed (marks target status rows t found owned) all =
      update_first-ArePublic (λ (t : TargetRow). t.id == target) status s.targets all
  Write-ArePublic s _ closed (asks v n owned) all =
      subst (All (IsPublic set)) (sym (insert_project_invite-targets v (record s { next_id = n })))
        all
  Write-ArePublic s _ closed (closes invite status v found owned) all = all
  Write-ArePublic s _ closed (expels project user owned) all = all

-- Where private targets are not allowed, every registered target has an address, none of its addresses is
-- in a blocked range, and its host is neither denied nor below a denied name: this holds after any sequence
-- of calls on projects, whoever makes them and whatever the name server answers, if it held before.
pub run_calls-ArePublic :
    (set : Settings) (calls : List Call) (s : Projects)
    → set.allow_private ≡ false
    → ArePublic set s
    → ArePublic set (run_calls set calls s)
unfolding run_calls
run_calls-ArePublic set [] s closed all = all
run_calls-ArePublic set (c ∷ cs) s closed all =
    let s1 = handle_project set c.actor c.request s in
    run_calls-ArePublic set cs s1 closed
      (Write-ArePublic set s s1 closed (handle_project-Write set c.actor c.request s) all)
