-- ===== src/Validate/Address.antt =====
-- isBlockedRange in internal/platform/validate/target.go, and the classifiers of Go's package net that it
-- calls. An address is the number of its 32 or 128 bits.
use guard_pipe.Prelude.{ℕ, ◌/◌, ◌%◌, ◌^◌, Bool, ◌&&◌, ◌||◌, if◌then◌else◌, ◌==◌}

pub data IpAddr : Type 0 where
  v4 v6 : ℕ → IpAddr

-- `To4`: ::ffff:a.b.c.d is the IPv4 address a.b.c.d.
unfoldable pub unmap : IpAddr → IpAddr
unmap (v4 a) = v4 a
unmap (v6 n) = if n / 2 ^ 32 == 0xffff then v4 (n % 2 ^ 32) else v6 n

-- The classifiers, of an address that is not a mapped one.
abbrev pub is_private : IpAddr → Bool
is_private (v4 a) = a / 2 ^ 24 == 10 || a / 2 ^ 20 == 0xac1 || a / 2 ^ 16 == 0xc0a8
is_private (v6 n) = n / 2 ^ 121 == 0x7e

abbrev pub is_loopback : IpAddr → Bool
is_loopback (v4 a) = a / 2 ^ 24 == 127
is_loopback (v6 n) = n == 1

abbrev pub is_link_local_unicast : IpAddr → Bool
is_link_local_unicast (v4 a) = a / 2 ^ 16 == 0xa9fe
is_link_local_unicast (v6 n) = n / 2 ^ 118 == 0x3fa

abbrev pub is_link_local_multicast : IpAddr → Bool
is_link_local_multicast (v4 a) = a / 2 ^ 8 == 0xe00000
is_link_local_multicast (v6 n) = n / 2 ^ 120 == 0xff && n / 2 ^ 112 % 16 == 2

abbrev pub is_unspecified : IpAddr → Bool
is_unspecified (v4 a) = a == 0
is_unspecified (v6 n) = n == 0

abbrev pub is_multicast : IpAddr → Bool
is_multicast (v4 a) = a / 2 ^ 28 == 14
is_multicast (v6 n) = n / 2 ^ 120 == 0xff

unfoldable pub is_blocked_range : IpAddr → Bool
unfolding unmap
is_blocked_range ip =
    let a = unmap ip in
    is_private a
    || is_loopback a
    || is_link_local_unicast a
    || is_link_local_multicast a
    || is_unspecified a
    || is_multicast a
