-- ===== src/Validate/Target.antt =====
-- internal/platform/validate/target.go. The name server is a function from names to
-- addresses, none on an error; Go's functions on texts
-- and URLs are the functions of a record.
use Prim.Native.String.{◌++◌ as append, len, slice}
use text.Mathlib.Text.{starts_with, find? as find_text}
use guard_pipe.Prelude.{
  ◌≡◌, ◌⊎◌, inl, inr, refl, ℕ, zero, suc, ◌-◌, Bool, not, ◌&&◌, ◌||◌, List, [], ◌∷◌, Option, none,
  some, is_some, if◌then◌else◌, leb, any, String, str_eq,
}
use guard_pipe.Validate.Address.{IpAddr, is_blocked_range}

pub data TargetError : Type 0 where
  malformed unresolvable blocked : TargetError

pub record TargetResolution : Type 0 where
  pub normalized_host : String
  pub pinned_ips : List IpAddr

pub data Resolved (A : Type 0) : Type 0 where
  refused : TargetError → Resolved A
  resolved : A → Resolved A

pub Resolved-cases :
    {A : Type 0} (r : Resolved A)
    → ((a : A) × (r ≡ resolved a)) ⊎ ((e : TargetError) × (r ≡ refused e))
Resolved-cases (resolved a) = inl (a, refl)
Resolved-cases (refused e) = inr (e, refl)

-- `url_host` is the host name of a text that parses as a URL, `split_host` the host of one that is a host
-- and a port.
abbrev pub NameServer : Type 0
NameServer = String → Option (List IpAddr)

pub record Network : Type 0 where
  pub trim : String → String
  pub lower : String → String
  pub url_host : String → Option String
  pub split_host : String → Option String

abbrev pub has_suffix : String → String → Bool
has_suffix s t = leb (len t) (len s) && str_eq (slice s (len s - len t) (len s)) t

trim_front : ℕ → String → String
trim_front zero s = s
trim_front (suc k) s =
    let rest = trim_front k (slice s 1 (len s)) in if starts_with s "." then rest else s

trim_back : ℕ → String → String
trim_back zero s = s
trim_back (suc k) s =
    let rest = trim_back k (slice s 0 (len s - 1)) in if has_suffix s "." then rest else s

-- `strings.Trim(s, ".")`
unfoldable pub trim_dots : String → String
unfolding trim_front trim_back
trim_dots s = trim_back (len s) (trim_front (len s) s)

-- `strings.TrimPrefix(s, "*.")`
abbrev pub trim_wildcard : String → String
trim_wildcard s = if starts_with s "*." then slice s 2 (len s) else s

module _ (net : Network) where
  -- A host name, a host and port, or a URL; none where it cannot be read.
  unfoldable pub candidate_host : String → Option String
  candidate_host target =
      if is_some (find_text target "://")
      then elim (net.url_host target) [
        | none ↦ none
        | some h ↦ if str_eq h "" then none else some h
      ]
      else elim (net.split_host target) [ none ↦ some target | some h ↦ some h ]

  unfoldable pub normalize_target_host : String → Option String
  normalize_target_host target =
      let bare = net.trim target in
      if str_eq bare "" then none else elim (candidate_host bare) [
        | none ↦ none
        | some h ↦ let host = net.lower (trim_dots h) in if str_eq host "" then none else some host
      ]

  abbrev pub denied_name : String → String
  denied_name entry = net.lower (net.trim (trim_wildcard entry))

  abbrev pub is_denied_by : String → String → Bool
  is_denied_by host name =
      not (str_eq name "") && (str_eq host name || has_suffix host (append "." name))

  unfoldable pub host_denied : String → List String → Bool
  host_denied host denylist = any (λ entry. is_denied_by host (denied_name entry)) denylist

  abbrev pub check_addresses : Bool → List String → String → List IpAddr → Resolved TargetResolution
  check_addresses allow_private denylist host ips =
      if not allow_private && any is_blocked_range ips
      then refused blocked
      else if host_denied host denylist
      then refused blocked
      else resolved (record { normalized_host = host; pinned_ips = ips })

  abbrev pub check_found : Bool → List String → String → List IpAddr → Resolved TargetResolution
  check_found allow_private denylist host [] = refused unresolvable
  check_found allow_private denylist host (ip ∷ ips) =
      check_addresses allow_private denylist host (ip ∷ ips)

  unfoldable pub resolve_target :
      NameServer → Bool → List String → String → Resolved TargetResolution
  resolve_target lookup allow_private denylist target = elim (normalize_target_host target) [
    | none ↦ refused malformed
    | some host ↦ elim (lookup host) [
      | none ↦ refused unresolvable
      | some ips ↦ check_found allow_private denylist host ips
    ]
  ]
