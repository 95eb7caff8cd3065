-- ===== src/Stream/Bytes.antt =====
-- What the packages stream and socks5 use of io and encoding/binary on a connection, which is the
-- list of the bytes that are still to be read: `io.ReadFull`, and varints. Reads that fail have
-- consumed what they read.
use uptp.Common.{
  ℕ, zero, suc, ◌+◌, ◌-◌, ◌*◌, ◌/◌, ◌%◌, ◌^◌, ◌≤◌, ◌<◌, ◌≡◌, arith, ap, List, [], ◌∷◌, ◌++◌,
}
use uptp.Common.{
  Result, ok, err, panic, true, leb, ltb, ◌&&◌, if◌then◌else◌, ◌==◌, nat_eq, length, take, drop,
}
use uptp.Common.{
  take-append_self, drop-append_self, length-append, length-take, length-drop, le→leb, Bool-cases,
  inl, inr,
}

-- `io.ReadFull` into `n` bytes
unfoldable pub read_full : ℕ → List ℕ → Result (List ℕ) × List ℕ
read_full n bytes =
    if leb n (length bytes)
    then (ok (take n bytes), drop n bytes)
    else (err (if length bytes == 0 then "EOF" else "unexpected EOF"), [])

-- `binary.PutUvarint`: at most `fuel` bytes follow the first one.
unfoldable pub put_loop : ℕ → ℕ → List ℕ
put_loop zero n = n ∷ []
put_loop (suc fuel) n =
    let rest = put_loop fuel (n / 128) in if ltb n 128 then n ∷ [] else (n % 128 + 128) ∷ rest

unfoldable pub put_uvarint : ℕ → List ℕ
unfolding put_loop
put_uvarint n = put_loop 9 n

-- The value of a byte that goes on, below the value of the bytes after it
abbrev pub above : ℕ → Result ℕ × List ℕ → Result ℕ × List ℕ
above b (ok v, rest) = (ok (b - 128 + 128 * v), rest)
above b (err e, rest) = (err e, rest)
above b (panic, rest) = (panic, rest)

-- The loop of `binary.ReadUvarint`, with the bytes that it may still read: the tenth byte is the last
-- one and holds one bit.
unfoldable pub read_loop : ℕ → List ℕ → Result ℕ × List ℕ
read_loop zero bytes = (err "overflow", bytes)
read_loop (suc left) [] = (err (if left == 9 then "EOF" else "unexpected EOF"), [])
read_loop (suc left) (b ∷ bytes) =
    let rest = above b (read_loop left bytes) in
    if ltb b 128
    then (if left == 0 && ltb 1 b then (err "overflow", bytes) else (ok b, bytes))
    else rest

unfoldable pub read_uvarint : List ℕ → Result ℕ × List ℕ
unfolding read_loop
read_uvarint bytes = read_loop 10 bytes

-- The first number that does not fit in the bytes
abbrev cap : ℕ → ℕ
cap zero = 2
cap (suc fuel) = 128 * cap fuel

read_loop-put_loop :
    (fuel n : ℕ) (rest : List ℕ)
    → n < cap fuel
    → read_loop (suc fuel) (put_loop fuel n ++ rest) ≡ (ok n, rest)
unfolding read_loop put_loop
read_loop-put_loop zero n rest h = ground (arith)
read_loop-put_loop (suc fuel) n rest h = elim (Bool-cases (ltb n 128)) [
  | inl b ↦ ground (arith, b)
  | inr b ↦
      let small : n / 128 < cap fuel = omega (arith, h) in
      let value : n % 128 + 128 - 128 + 128 * (n / 128) ≡ n = omega arith in
      ground
        (arith, b, value, ap (above (n % 128 + 128)) (read_loop-put_loop fuel (n / 128) rest small))
]

-- The reader reads back every uint64, and leaves what follows it.
pub read_uvarint-put_uvarint :
    (n : ℕ) (rest : List ℕ) → n < 2 ^ 64 → read_uvarint (put_uvarint n ++ rest) ≡ (ok n, rest)
unfolding read_uvarint put_uvarint
read_uvarint-put_uvarint n rest h = read_loop-put_loop 9 n rest h

-- Reading as many bytes as a packet has takes the packet.
pub read_full-append : (p rest : List ℕ) → read_full (length p) (p ++ rest) ≡ (ok p, rest)
unfolding read_full
read_full-append p rest =
    let fits : leb (length p) (length (p ++ rest)) ≡ true =
      le→leb (length p) (length (p ++ rest)) (omega (arith, length-append p rest)) in
    rw (fits, take-append_self p rest, drop-append_self p rest)

-- A read that succeeds takes as many bytes as it was asked for.
pub read_full_takes :
    (n : ℕ) (conn got rest : List ℕ)
    → read_full n conn ≡ (ok got, rest)
    → (length got ≡ n) × (length got + length rest ≡ length conn)
unfolding read_full
read_full_takes n conn got rest h = elim (Bool-cases (leb n (length conn))) [
  | inr b ↦ absurd (ground (arith, b, h))
  | inl b ↦
      let fits : n ≤ length conn = ground (arith, b) in
      let taken : take n conn ≡ got = ground (arith, b, h) in
      let left : drop n conn ≡ rest = ground (arith, b, h) in
      rw (← taken) (rw (← left) (omega (arith, length-take n conn fits, length-drop n conn)))
]
