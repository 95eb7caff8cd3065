-- ===== src/Socks5/Datagram.antt =====
-- socks5/util.go: `socks5ReadFrom` and `socks5WriteTo`, by which a datagram carries its address in
-- front. The address codecs are those of github.com/txthinking/socks5, an argument here.
use uptp.Common.{
  ℕ, ◌+◌, ◌<◌, ◌≡◌, ◌↔◌, inl, inr, ap, ◌∙◌, arith, String, List, ◌∷◌, ◌++◌, append_assoc, Answer,
  gives, fails, Answer-cases, Result, ok, err, panic, ltb, if◌then◌else◌, length, drop,
  drop-append_self, length-append,
}

-- An address as the package reads and prints it: its type, its bytes and those of its port.
pub record Addr : Type 0 where
  pub atyp : ℕ
  pub addr : List ℕ
  pub port : List ℕ

-- `ParseBytesAddress`, `ParseAddress` and `ToAddress`
pub record AddrCodec : Type 0 where
  pub parse_bytes : List ℕ → Answer Addr
  pub parse_address : String → Answer Addr
  pub to_address : Addr → String

module _ (codec : AddrCodec) where
  -- The payload of `socks5WriteTo`, before it is written in one packet
  unfoldable pub write_to : List ℕ → String → Answer (List ℕ)
  write_to p to = elim (codec.parse_address to) [
    | fails e ↦ fails e
    | gives a ↦ gives (a.atyp ∷ ((a.addr ++ a.port) ++ p))
  ]

  -- `socks5ReadFrom`, where `got` is what the read returns and `stale` the bytes of the buffer after
  -- it, which the address is read from too. The slice of the payload panics where the address ends
  -- behind the packet.
  unfoldable pub read_from : Result (List ℕ) → List ℕ → Result (List ℕ × String)
  read_from (err e) stale = err e
  read_from panic stale = panic
  read_from (ok got) stale = elim (codec.parse_bytes (got ++ stale)) [
    | fails e ↦ err e
    | gives a ↦
        if ltb (length got) (1 + length a.addr + 2)
        then panic
        else ok (drop (1 + length a.addr + 2) got, codec.to_address a)
  ]

  -- What the relay relies on at an address: parsed, it has two bytes for its port, is read back from
  -- its bytes, whatever follows them, and prints as it was written.
  pub record IsExact (to : String) : Type 0 where
    pub two_bytes : (a : Addr) → codec.parse_address to ≡ gives a → length a.port ≡ 2
    pub reads :
        (a : Addr) (rest : List ℕ)
        → codec.parse_address to ≡ gives a
        → codec.parse_bytes (a.atyp ∷ ((a.addr ++ a.port) ++ rest)) ≡ gives a
    pub prints : (a : Addr) → codec.parse_address to ≡ gives a → codec.to_address a ≡ to

  -- A packet with an address makes `socks5ReadFrom` panic exactly if the packet is shorter than the
  -- address that the buffer begins with.
  pub read_from_panic_iff :
      (got stale : List ℕ) (a : Addr)
      → codec.parse_bytes (got ++ stale) ≡ gives a
      → (read_from (ok got) stale ≡ panic) ↔ (length got < 1 + length a.addr + 2)
  unfolding read_from
  read_from_panic_iff got stale a h = (λ p. ground (arith, h, p), λ p. ground (arith, h, p))

  read_addressed :
      (a : Addr) (p stale : List ℕ)
      → length a.port ≡ 2
      → codec.parse_bytes (a.atyp ∷ ((a.addr ++ a.port) ++ (p ++ stale))) ≡ gives a
      → read_from (ok (a.atyp ∷ ((a.addr ++ a.port) ++ p))) stale ≡ ok (p, codec.to_address a)
  unfolding read_from
  read_addressed a p stale two h =
      let whole : length (a.addr ++ a.port) ≡ length a.addr + 2 =
        omega (arith, length-append a.addr a.port, two) in
      ground (
        arith,
        h,
        whole,
        ap (λ n. drop n ((a.addr ++ a.port) ++ p)) whole,
        append_assoc (a.addr ++ a.port) p stale,
        length-append (a.addr ++ a.port) p,
        drop-append_self (a.addr ++ a.port) p,
      )

  -- Where the codec is exact at an address, a datagram that was sent to it is read back with its
  -- payload and that address, whatever the buffer held.
  pub read_from-write_to :
      (to : String)
      → IsExact to
      → (p packet stale : List ℕ) → write_to p to ≡ gives packet
      → read_from (ok packet) stale ≡ ok (p, to)
  unfolding write_to
  read_from-write_to to c p packet stale h = elim (Answer-cases (codec.parse_address to)) [
    | inr (e, q) ↦ absurd (ground (arith, q, h))
    | inl (a, q) ↦
        let sent : a.atyp ∷ ((a.addr ++ a.port) ++ p) ≡ packet = ground (arith, q, h) in
        rw (← sent) (
          read_addressed a p stale (c.two_bytes a q) (c.reads a (p ++ stale) q)
          ∙ ap (λ x. ok (p, x)) (c.prints a q))
  ]
