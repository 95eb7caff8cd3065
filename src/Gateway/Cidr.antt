-- ===== src/Gateway/Cidr.antt =====
-- `getCidrIntRange` of gateway/proxy_router.go: a network as a range of 32-bit addresses.
pub mod Range
use mathlib.Core.List.{foldl}
use uptp.Common.{ℕ, ◌+◌, ◌-◌, ◌*◌, ◌%◌, ◌^◌, List, [], ◌∷◌, Bool, true, false}
use uptp.Common.{drop, take, length, ◌&&◌, if◌then◌else◌, ◌==◌, nat_eq}

-- `net.IPNet` as the router reads it: the bytes of `IP`, and what `Mask.Size` returns.
pub record IpNet : Type 0 where
  pub ip : List ℕ
  pub ones : ℕ
  pub bits : ℕ

abbrev all_zero : List ℕ → Bool
all_zero [] = true
all_zero (b ∷ bs) = b == 0 && all_zero bs

abbrev is_mapped : List ℕ → Bool
is_mapped (a ∷ b ∷ bs) = a == 0xff && b == 0xff
is_mapped _ = false

-- `net.IP.To4`: four bytes, or the last four of an IPv4-mapped address; `[]` is nil.
unfoldable pub to4 : List ℕ → List ℕ
to4 ip =
    if length ip == 4
    then ip
    else if length ip == 16 && (all_zero (take 10 ip) && is_mapped (drop 10 ip))
    then drop 12 ip
    else []

-- `big.Int.SetBytes`: big-endian.
unfoldable pub set_bytes : List ℕ → ℕ
set_bytes = foldl (λ n b. n * 256 + b) 0

-- `m << uint32(allBits-ones)`, then `^m`
unfoldable pub host_mask : ℕ → ℕ
host_mask s = 0xffff_ffff - 0xffff_ffff * 2 ^ s % 2 ^ 32

-- (ipMin, ipMax). `uint32(allBits-ones)` wraps where the difference is negative.
unfoldable pub get_cidr_int_range : IpNet → ℕ × ℕ
get_cidr_int_range ip_net =
    let ip_min = set_bytes (to4 ip_net.ip) % 2 ^ 64 % 2 ^ 32 in
    let shift = (ip_net.bits + 2 ^ 32 - ip_net.ones) % 2 ^ 32 in
    (ip_min, (ip_min + host_mask shift) % 2 ^ 32)
