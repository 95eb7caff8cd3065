-- ===== src/Gateway/Cidr/Range.antt =====
-- Which addresses the range of a network holds.
use uptp.Common.{ℕ, zero, suc, ◌+◌, ◌-◌, ◌*◌, ◌/◌, ◌%◌, ◌^◌, ◌≤◌, ◌<◌, ◌≡◌, refl, ap, ◌↔◌, arith}
use uptp.Common.{Bool, true, ◌&&◌, [], ◌∷◌, ◌==◌, nat_eq, nat_beq_iff}
use uptp.Common.{◌⊎◌, inl, inr}
use native.Mathlib.Nat.{div-add-mod, mod-lt, le_antisymm, lt_of_mul-lt-mul_right, mul-le-mul_right}
use uptp.Gateway.Cidr.{IpNet, to4, set_bytes, host_mask, get_cidr_int_range}

every_below : ℕ → (ℕ → Bool) → Bool
every_below zero p = true
every_below (suc n) p = p n && every_below n p

every_below→ : (n : ℕ) (p : ℕ → Bool) (x : ℕ) → every_below n p ≡ true → x < n → p x ≡ true
unfolding every_below
every_below→ zero p x h lt = absurd (omega arith)
every_below→ (suc n) p x h lt = ground (arith, every_below→ n p x)

host_mask_table : every_below 33 (λ s. host_mask s == 2 ^ s - 1) ≡ true
unfolding every_below host_mask
host_mask_table = refl

-- Under a prefix of an IPv4 network the mask leaves the low `s` bits.
pub host_mask_low : (s : ℕ) → s < 33 → host_mask s ≡ 2 ^ s - 1
host_mask_low s h = (nat_beq_iff _ _).0 (every_below→ 33 _ s host_mask_table h)

wide_mask_table : every_below 97 (λ s. host_mask (s + 32) == 0xffff_ffff) ≡ true
unfolding every_below host_mask
wide_mask_table = refl

-- A shift by 32 or more leaves no bit of the mask.
pub host_mask_wide : (s : ℕ) → s < 97 → host_mask (s + 32) ≡ 0xffff_ffff
host_mask_wide s h = (nat_beq_iff _ _).0 (every_below→ 97 _ s wide_mask_table h)

set_bytes_four :
    (a b c d : ℕ) → a < 256 → b < 256 → c < 256 → d < 256 → set_bytes (a ∷ b ∷ c ∷ d ∷ []) < 2 ^ 32
unfolding set_bytes
set_bytes_four a b c d ha hb hc hd = omega arith

pow_split_table : every_below 33 (λ s. 2 ^ (32 - s) * 2 ^ s == 2 ^ 32) ≡ true
unfolding every_below
pow_split_table = refl

pow_split : (s : ℕ) → s < 33 → 2 ^ (32 - s) * 2 ^ s ≡ 2 ^ 32
pow_split s h = (nat_beq_iff _ _).0 (every_below→ 33 _ s pow_split_table h)

-- `a` is at most `b` where the block of `a` starts before the block of `b` ends.
block_le : (a b w : ℕ) → a * w < b * w + w → a ≤ b
block_le a b w h = omega (arith, lt_of_mul-lt-mul_right w {m = a} {n = suc b} (omega arith))

-- A block of `w` numbers that starts at a multiple of `w` is a class of the division by `w`.
block_prefix : (n w x : ℕ) → 0 < w → n % w ≡ 0 → ((n ≤ x) × (x ≤ n + (w - 1))) ↔ (x / w ≡ n / w)
block_prefix n w x hw hn = (fwd, bwd)
  where
    split_n : n / w * w ≡ n
    split_n = omega (arith, div-add-mod n w)

    split_x : x / w * w + x % w ≡ x
    split_x = omega (arith, div-add-mod x w)

    rest : x % w < w
    rest = mod-lt x hw

    fwd : (n ≤ x) × (x ≤ n + (w - 1)) → x / w ≡ n / w
    fwd (lo, hi) =
        le_antisymm (block_le (x / w) (n / w) w (omega (arith, split_n, split_x, rest)))
          (block_le (n / w) (x / w) w (omega (arith, split_n, split_x, rest)))

    bwd : x / w ≡ n / w → (n ≤ x) × (x ≤ n + (w - 1))
    bwd e =
        let e' : x / w * w ≡ n / w * w = ap (λ (q : ℕ). q * w) e in
        (omega (arith, split_n, split_x, rest, e'), omega (arith, split_n, split_x, rest, e'))

-- A block that starts below a multiple of its length ends below it.
block_fits : (n w p : ℕ) → 0 < w → n % w ≡ 0 → n < p * w → n + (w - 1) < p * w
block_fits n w p hw hn h =
    let q_lt : n / w < p =
      lt_of_mul-lt-mul_right w {m = n / w} {n = p} (omega (arith, div-add-mod n w)) in
    omega (arith, div-add-mod n w, mul-le-mul_right {m = suc (n / w)} {n = p} w q_lt)

abbrev pub ipv4_net : ℕ → ℕ → ℕ → ℕ → ℕ → IpNet
ipv4_net a b c d ones = record { ip = a ∷ b ∷ c ∷ d ∷ []; ones = ones; bits = 32 }

zero_or_pos : (n : ℕ) → (n ≡ 0) ⊎ (0 < n)
zero_or_pos n = omega arith

two_pow_pos : (s : ℕ) → s < 33 → 0 < 2 ^ s
two_pow_pos s h = elim (zero_or_pos (2 ^ s)) [
  | inl e ↦ absurd (omega (arith, pow_split s h, ap (λ (t : ℕ). 2 ^ (32 - s) * t) e))
  | inr h' ↦ h'
]

module _ (a b c d ones : ℕ) (ha : a < 256) (hb : b < 256) (hc : c < 256) (hd : d < 256)
    (ho : ones ≤ 32) (aligned : set_bytes (a ∷ b ∷ c ∷ d ∷ []) % 2 ^ (32 - ones) ≡ 0) where
  -- The range of an IPv4 network with its host bits zero, and nothing wraps.
  pub get_cidr_int_range_ipv4 :
      (get_cidr_int_range (ipv4_net a b c d ones)
        ≡ (set_bytes (a ∷ b ∷ c ∷ d ∷ []), set_bytes (a ∷ b ∷ c ∷ d ∷ []) + (2 ^ (32 - ones) - 1)))
  unfolding get_cidr_int_range to4
  get_cidr_int_range_ipv4 =
      let n = set_bytes (a ∷ b ∷ c ∷ d ∷ []) in
      let small : n < 2 ^ 32 = set_bytes_four a b c d ha hb hc hd in
      let e : (32 + 2 ^ 32 - ones) % 2 ^ 32 ≡ 32 - ones = omega arith in
      let fits : n + (2 ^ (32 - ones) - 1) < 2 ^ ones * 2 ^ (32 - ones) =
        block_fits n _ _ (two_pow_pos (32 - ones) (omega arith)) aligned
          (omega (arith, pow_split ones (omega arith))) in
      rw (e, host_mask_low (32 - ones) (omega arith))
        (ground (arith, fits, pow_split ones (omega arith)))

  -- For a four-byte address whose host bits are zero, the range of the network holds exactly the
  -- addresses that share the network's prefix.
  pub get_cidr_int_range_prefix :
      (x : ℕ)
      → let range = get_cidr_int_range (ipv4_net a b c d ones) in
        ((range.0 ≤ x) × (x ≤ range.1))
        ↔ (x / 2 ^ (32 - ones) ≡ set_bytes (a ∷ b ∷ c ∷ d ∷ []) / 2 ^ (32 - ones))
  get_cidr_int_range_prefix x = rw get_cidr_int_range_ipv4 (
      block_prefix (set_bytes (a ∷ b ∷ c ∷ d ∷ [])) (2 ^ (32 - ones)) x
        (two_pow_pos (32 - ones) (omega arith)) aligned)

-- A network whose address is no IPv4 address and that leaves from 32 to 128 host bits becomes the
-- range of all IPv4 addresses.
pub get_cidr_int_range_ipv6 :
    (net : IpNet) (host_bits : ℕ)
    → to4 net.ip ≡ []
    → host_bits < 97
    → net.ones + (host_bits + 32) ≡ net.bits
    → net.bits ≤ 128
    → get_cidr_int_range net ≡ (0, 2 ^ 32 - 1)
unfolding get_cidr_int_range set_bytes
get_cidr_int_range_ipv6 net host_bits v6 hs hb hl =
    let e : (net.bits + 2 ^ 32 - net.ones) % 2 ^ 32 ≡ host_bits + 32 = omega arith in
    rw (e, v6, host_mask_wide host_bits hs)
