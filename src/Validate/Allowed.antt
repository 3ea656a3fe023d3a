-- ===== src/Validate/Allowed.antt =====
-- internal/platform/validate/target.go: what an accepted target promises.
use Prim.Native.String.{◌++◌ as append, len, slice}
use text.Mathlib.TextPositions.{len-append, slice-append_right}
use guard_pipe.Prelude.{
  ◌-◌, ◌≤◌, ◌≡◌, ◌≢◌, refl, sym, ◌∙◌, subst, true, false, not, ◌&&◌, ◌||◌, List, [], ◌∷◌,
  Bool-cases, Option-cases, inl, inr, le→leb, any, All, or-false, length, String, str_eq, eq_iff,
  arith,
}
use guard_pipe.Validate.Address.{IpAddr, is_blocked_range}
use guard_pipe.Validate.Ranges.{in_blocked_ranges, is_blocked_range-eq-ranges}
use guard_pipe.Validate.Target.{
  TargetResolution, NameServer, resolved, Network, has_suffix, denied_name, is_denied_by,
  host_denied, normalize_target_host, check_addresses, check_found, resolve_target,
}

-- A host is neither an entry of the list of denied hosts nor below one. An entry that names nothing
-- denies nothing.
abbrev pub IsNotDenied : Network → String → String → Type 0
IsNotDenied net host entry =
    str_eq (denied_name net entry) "" ≡ false
    → (host ≢ denied_name net entry)
      × ((sub : String) → host ≢ append sub (append "." (denied_name net entry)))

-- There are addresses, none of them in a blocked range, and the host is not denied.
pub record IsAllowed (net : Network) (denylist : List String) (host : String) (ips : List IpAddr)
    : Type 0 where
  pub answered : 1 ≤ length ips
  pub outside : any in_blocked_ranges ips ≡ false
  pub not_denied : All (IsNotDenied net host) denylist

true_ne_false : true ≢ false
true_ne_false h = cc

has_suffix-append : (s t : String) → has_suffix (append s t) t ≡ true
has_suffix-append s t =
    let fits : len t ≤ len (append s t) = rw (len-append s t) (omega arith) in
    let start : len (append s t) - len t ≡ len s = rw (len-append s t) (omega arith) in
    let tail : slice (append s t) (len (append s t) - len t) (len (append s t)) ≡ t =
      rw (start, len-append s t) (slice-append_right s t) in
    rw (le→leb (len t) (len (append s t)) fits, tail) ((eq_iff t t).1 refl)

-- What a name that is not empty denies.
denies_self :
    (name : String)
    → str_eq name "" ≡ false
    → (host : String) → host ≡ name
    → (not (str_eq name "") && (str_eq host name || has_suffix host (append "." name))) ≡ true
denies_self name full host same = rw (full, same, (eq_iff name name).1 refl) refl

denies_below :
    (name : String)
    → str_eq name "" ≡ false
    → (host sub : String) → host ≡ append sub (append "." name)
    → (not (str_eq name "") && (str_eq host name || has_suffix host (append "." name))) ≡ true
denies_below name full host sub same =
    rw (full, same, has_suffix-append sub (append "." name)) (ground arith)

is_denied_by-IsNotDenied :
    (net : Network) (host entry : String)
    → is_denied_by net host (denied_name net entry) ≡ false
    → IsNotDenied net host entry
is_denied_by-IsNotDenied net host entry free full =
    let name = denied_name net entry in
    (
      (λ same. true_ne_false (sym (denies_self name full host same) ∙ free)),
      (λ sub same. true_ne_false (sym (denies_below name full host sub same) ∙ free)),
    )

host_denied-All :
    (net : Network) (host : String) (denylist : List String)
    → host_denied net host denylist ≡ false
    → All (IsNotDenied net host) denylist
unfolding host_denied
host_denied-All net host [] free = tt
host_denied-All net host (e ∷ es) free =
    let parts = or-false {a = is_denied_by net host (denied_name net e)} free in
    (is_denied_by-IsNotDenied net host e parts.0, host_denied-All net host es parts.1)

resolved_inj : {A : Type 0} {a b : A} → resolved a ≡ resolved b → a ≡ b
resolved_inj h = cc

any_blocked-ranges : (ips : List IpAddr) → any is_blocked_range ips ≡ any in_blocked_ranges ips
any_blocked-ranges [] = refl
any_blocked-ranges (ip ∷ ips) = rw (is_blocked_range-eq-ranges ip, any_blocked-ranges ips) refl

check_addresses-IsAllowed :
    (net : Network) (denylist : List String) (host : String) (ip : IpAddr) (ips : List IpAddr)
    {r : TargetResolution}
    → check_addresses net false denylist host (ip ∷ ips) ≡ resolved r
    → IsAllowed net denylist r.normalized_host r.pinned_ips
check_addresses-IsAllowed net denylist host ip ips {r} h =
    elim (Bool-cases (any is_blocked_range (ip ∷ ips))) [
      | inl bad ↦ let stopped = rw bad at h in cc
      | inr good ↦ elim (Bool-cases (host_denied net host denylist)) [
        | inl denied ↦ let stopped = rw (good, denied) at h in cc
        | inr free ↦
            let same : (let t : TargetResolution = record {
              normalized_host = host;
              pinned_ips = ip ∷ ips;
            } in
                  t)
                ≡ r =
              resolved_inj (rw (good, free) at h) in
            subst (λ (t : TargetResolution). IsAllowed net denylist t.normalized_host t.pinned_ips)
              same
              record {
                answered = omega arith;
                outside = sym (any_blocked-ranges (ip ∷ ips)) ∙ good;
                not_denied = host_denied-All net host denylist free;
              }
      ]
    ]

answer :
    (net : Network) (denylist : List String) (host : String) (ips : List IpAddr)
    {r : TargetResolution}
    → check_found net false denylist host ips ≡ resolved r
    → IsAllowed net denylist r.normalized_host r.pinned_ips
answer net denylist host [] h = cc
answer net denylist host (ip ∷ ips) h = check_addresses-IsAllowed net denylist host ip ips h

-- Where private targets are not allowed, a target that resolves has an address, none of its addresses is
-- in a blocked range, and its host is neither on the list of denied hosts nor below an entry of it.
pub resolve_target-IsAllowed :
    (net : Network) (lookup : NameServer) (denylist : List String) (target : String)
    {r : TargetResolution}
    → resolve_target net lookup false denylist target ≡ resolved r
    → IsAllowed net denylist r.normalized_host r.pinned_ips
unfolding resolve_target
resolve_target-IsAllowed net lookup denylist target h =
    elim (Option-cases (normalize_target_host net target)) [
      | inl bad ↦ let stopped = rw (bad, resolve_target) at h in cc
      | inr host ↦ elim (Option-cases (lookup host.0)) [
        | inl gone ↦ let stopped = rw (host.1, gone, resolve_target) at h in cc
        | inr found ↦ answer net denylist host.0 found.0 (rw (host.1, found.1, resolve_target) at h)
      ]
    ]
