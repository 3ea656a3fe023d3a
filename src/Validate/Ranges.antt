-- ===== src/Validate/Ranges.antt =====
-- internal/platform/validate/target.go: the blocked addresses as ranges.
use guard_pipe.Prelude.{
  ℕ, ◌+◌, ◌*◌, ◌-◌, ◌/◌, ◌%◌, ◌^◌, ◌≡◌, refl, sym, ap, ◌∙◌, inl, inr, Bool, true, false, ◌&&◌, List,
  [], ◌∷◌, any, leb, arith, Bool-cases, if◌then◌else◌, ◌==◌,
}
use guard_pipe.Validate.Address.{IpAddr, v4, v6, is_blocked_range}

-- a.b.c.d
abbrev pub dotted : ℕ → ℕ → ℕ → ℕ → ℕ
dotted a b c d = ((a * 256 + b) * 256 + c) * 256 + d

abbrev pub is_between : ℕ → ℕ × ℕ → Bool
is_between a r = leb r.0 a && leb a r.1

-- 0.0.0.0, 10/8, 127/8, 169.254/16, 172.16/12, 192.168/16 and 224/4.
abbrev pub blocked_v4 : List (ℕ × ℕ)
blocked_v4 =
    (dotted 0 0 0 0, dotted 0 0 0 0)
    ∷ (dotted 10 0 0 0, dotted 10 255 255 255)
    ∷ (dotted 127 0 0 0, dotted 127 255 255 255)
    ∷ (dotted 169 254 0 0, dotted 169 254 255 255)
    ∷ (dotted 172 16 0 0, dotted 172 31 255 255)
    ∷ (dotted 192 168 0 0, dotted 192 168 255 255)
    ∷ (dotted 224 0 0 0, dotted 239 255 255 255)
    ∷ []

-- :: and ::1, fc00::/7, fe80::/10 and ff00::/8
abbrev pub blocked_v6 : List (ℕ × ℕ)
blocked_v6 =
    (0, 1)
    ∷ (0xfc * 2 ^ 120, 0xfe * 2 ^ 120 - 1)
    ∷ (0xfe80 * 2 ^ 112, 0xfec0 * 2 ^ 112 - 1)
    ∷ (0xff * 2 ^ 120, 0x100 * 2 ^ 120 - 1)
    ∷ []

-- ::ffff:0:0/96 holds the IPv4 addresses.
abbrev pub mapped_v4 : ℕ × ℕ
mapped_v4 = (0xffff * 2 ^ 32, 0x10000 * 2 ^ 32 - 1)

abbrev pub in_blocked_ranges : IpAddr → Bool
in_blocked_ranges (v4 a) = any (is_between a) blocked_v4
in_blocked_ranges (v6 n) =
    if is_between n mapped_v4
    then any (is_between (n - mapped_v4.0)) blocked_v4
    else any (is_between n) blocked_v6

v4_ranges : (a : ℕ) → is_blocked_range (v4 a) ≡ any (is_between a) blocked_v4
unfolding is_blocked_range
v4_ranges a = ground arith

v6_ranges :
    (n : ℕ)
    → (n / 2 ^ 32 == 0xffff) ≡ false
    → is_blocked_range (v6 n) ≡ any (is_between n) blocked_v6
unfolding is_blocked_range
v6_ranges n other = ground arith

mapped_ranges :
    (n : ℕ)
    → (n / 2 ^ 32 == 0xffff) ≡ true
    → is_blocked_range (v6 n) ≡ is_blocked_range (v4 (n % 2 ^ 32))
unfolding is_blocked_range
mapped_ranges n mapped = rw mapped refl

mapped_eq : (n : ℕ) → (n / 2 ^ 32 == 0xffff) ≡ is_between n mapped_v4
mapped_eq n = ground arith

mapped_offset : (n : ℕ) → (n / 2 ^ 32 == 0xffff) ≡ true → n % 2 ^ 32 ≡ n - mapped_v4.0
mapped_offset n mapped = ground arith

pub is_blocked_range-eq-ranges : (ip : IpAddr) → is_blocked_range ip ≡ in_blocked_ranges ip
is_blocked_range-eq-ranges (v4 a) = v4_ranges a
is_blocked_range-eq-ranges (v6 n) = elim (Bool-cases (n / 2 ^ 32 == 0xffff)) [
  | inl mapped ↦ rw (sym (mapped_eq n) ∙ mapped) (
      mapped_ranges n mapped
      ∙ v4_ranges (n % 2 ^ 32)
      ∙ ap (λ a. any (is_between a) blocked_v4) (mapped_offset n mapped))
  | inr other ↦ rw (sym (mapped_eq n) ∙ other) (v6_ranges n other)
]
