-- ===== src/Socks5/Packet.antt =====
-- socks5/util.go: `packetReadWriter`, by which datagrams cross a stream behind their length in two
-- bytes, the higher first. A connection is as in Stream/Packet.
use uptp.Common.{ℕ, ◌+◌, ◌*◌, ◌/◌, ◌%◌, ◌≤◌, ◌<◌, ◌≡◌, ◌↔◌, arith, ap, List, [], ◌∷◌, ◌++◌}
use uptp.Common.{
  Result, ok, err, panic, inl, inr, Bool-cases, Result-cases, ltb, if◌then◌else◌, length, false,
}
use uptp.Stream.Bytes.{read_full, read_full-append, read_full_takes}

-- The two bytes of `uint16`
abbrev pub number : List ℕ → ℕ
number (a ∷ b ∷ bytes) = a * 256 + b
number _ = 0

unfoldable pub write : List ℕ → Result (List ℕ)
write p =
    if ltb 0xffff (length p)
    then err "packet too large"
    else ok ((length p / 256) ∷ (length p % 256) ∷ p)

-- `Read` into a slice of capacity `size`: the slice `p[:l]` panics where it is too small.
unfoldable pub read : ℕ → List ℕ → Result (List ℕ) × List ℕ
read size conn =
    let (header, rest) = read_full 2 conn in
    elim header [
      | err e ↦ (err e, rest)
      | panic ↦ (panic, rest)
      | ok bytes ↦
          let packet = read_full (number bytes) rest in
          if ltb size (number bytes) then (panic, rest) else packet
    ]

header_read : (a b : ℕ) (rest : List ℕ) → read_full 2 (a ∷ b ∷ rest) ≡ (ok (a ∷ b ∷ []), rest)
header_read a b rest = read_full-append (a ∷ b ∷ []) rest

-- A packet that was written is read back whole into a slice that holds it, with what follows it
-- left on the connection.
pub read-write_datagram :
    (size : ℕ) (p sent rest : List ℕ)
    → length p ≤ size
    → write p ≡ ok sent
    → read size (sent ++ rest) ≡ (ok p, rest)
unfolding read write
read-write_datagram size p sent rest fits h = elim (Bool-cases (ltb 0xffff (length p))) [
  | inl b ↦ absurd (ground (arith, b, h))
  | inr b ↦
      let framed : (length p / 256) ∷ (length p % 256) ∷ p ≡ sent = ground (arith, b, h) in
      let whole : length p / 256 * 256 + length p % 256 ≡ length p = omega arith in
      rw (← framed) (
        ground (
          arith,
          fits,
          whole,
          header_read (length p / 256) (length p % 256) (p ++ rest),
          ap (λ n. read_full n (p ++ rest)) whole,
          read_full-append p rest,
        ))
]

-- After the two bytes of a header, `Read` panics exactly if they name more bytes than the slice
-- holds.
pub read_panic_iff :
    (size a b : ℕ) (rest : List ℕ) → ((read size (a ∷ b ∷ rest)).0 ≡ panic) ↔ (size < a * 256 + b)
unfolding read read_full
read_panic_iff size a b rest = (λ h. ground (arith, h), λ h. ground (arith, h))

-- A packet that was written and is longer than the slice makes `Read` panic.
pub read-write_oversized :
    (size : ℕ) (p sent rest : List ℕ)
    → size < length p
    → write p ≡ ok sent
    → (read size (sent ++ rest)).0 ≡ panic
unfolding read write
read-write_oversized size p sent rest long h = elim (Bool-cases (ltb 0xffff (length p))) [
  | inl b ↦ absurd (ground (arith, b, h))
  | inr b ↦
      let framed : (length p / 256) ∷ (length p % 256) ∷ p ≡ sent = ground (arith, b, h) in
      let whole : length p / 256 * 256 + length p % 256 ≡ length p = omega arith in
      rw (← framed)
        (ground (arith, long, whole, header_read (length p / 256) (length p % 256) (p ++ rest)))
]

-- A packet that is read fits in the slice, and took its bytes and two more from the connection.
pub read_takes :
    (size : ℕ) (conn got rest : List ℕ)
    → read size conn ≡ (ok got, rest)
    → (length got ≤ size) × (length got + 2 + length rest ≡ length conn)
unfolding read
read_takes size conn got rest h = elim (Result-cases (read_full 2 conn).0) [
  | inr (inl (e, q)) ↦ absurd (ground (arith, q, h))
  | inr (inr q) ↦ absurd (ground (arith, q, h))
  | inl (bytes, q) ↦
      let after = (read_full 2 conn).1 in
      let small : ltb size (number bytes) ≡ false = ground (arith, q, h) in
      let body : read_full (number bytes) after ≡ (ok got, rest) = ground (arith, q, h) in
      let (two, first) = read_full_takes 2 conn bytes after (ground (arith, q)) in
      let (many, second) = read_full_takes (number bytes) after got rest body in
      ground (arith, small, two, first, many, second)
]
