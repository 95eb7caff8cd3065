-- ===== src/Socks5/Framed/Laws.antt =====
-- Proofs for Socks5/Framed: a datagram that is written is read back from the connection, and a read
-- shortens it.
use uptp.Common.{
  ℕ, ◌<◌, ◌≤◌, ◌≡◌, inl, inr, arith, String, List, ◌∷◌, ◌++◌, gives, refl, drop, Answer-cases, ok,
  panic, Result-cases, length, length-append, length-drop,
}
use uptp.Socks5.Packet.{write, read, read-write_datagram, read-write_oversized, read_takes}
use uptp.Socks5.Datagram.{AddrCodec, IsExact, write_to, read_from, read_from-write_to}
use uptp.Socks5.Framed.{socks5_write_to, socks5_read_from, packet_length}

module _ (codec : AddrCodec) where
  -- The packet behind a datagram that was written
  pub written_packet :
      (p : List ℕ) (to : String) (sent : List ℕ)
      → socks5_write_to codec p to ≡ ok sent
      → (packet : List ℕ) × (write_to codec p to ≡ gives packet)
        × (write packet ≡ ok sent)
        × (length packet ≡ packet_length codec p to)
  unfolding socks5_write_to write_to
  written_packet p to sent h = elim (Answer-cases (codec.parse_address to)) [
    | inr (e, q) ↦ absurd (ground (arith, q, h))
    | inl (a, q) ↦ (
      a.atyp ∷ ((a.addr ++ a.port) ++ p),
      ground (arith, q),
      ground (arith, q, h),
      ground (arith, q, length-append (a.addr ++ a.port) p, length-append a.addr a.port),
    )
  ]

  pub read-write_fitting :
      (buf p : List ℕ) (to : String) (sent rest : List ℕ)
      → IsExact codec to
      → packet_length codec p to ≤ length buf
      → socks5_write_to codec p to ≡ ok sent
      → ((socks5_read_from codec buf (sent ++ rest)).0 ≡ ok (p, to))
        × ((socks5_read_from codec buf (sent ++ rest)).1 ≡ rest)
  unfolding socks5_read_from
  read-write_fitting buf p to sent rest c fits h =
      let (packet, q, w, l) = written_packet p to sent h in
      let whole = read-write_datagram (length buf) packet sent rest (omega (arith, l, fits)) w in
      rw whole (read_from-write_to codec to c p packet _ q, refl)

  pub read-write_crashes :
      (buf p : List ℕ) (to : String) (sent rest : List ℕ)
      → length buf < packet_length codec p to
      → socks5_write_to codec p to ≡ ok sent
      → (socks5_read_from codec buf (sent ++ rest)).0 ≡ panic
  unfolding socks5_read_from read_from
  read-write_crashes buf p to sent rest long h =
      let (packet, q, w, l) = written_packet p to sent h in
      rw (read-write_oversized (length buf) packet sent rest (omega (arith, l, long)) w)

  -- A datagram that is read took at least its header from the connection.
  pub read_shortens :
      (buf conn : List ℕ) (d : List ℕ × String)
      → (socks5_read_from codec buf conn).0 ≡ ok d
      → length (socks5_read_from codec buf conn).1 < length conn
  unfolding socks5_read_from read_from
  read_shortens buf conn d h = elim (Result-cases (read (length buf) conn).0) [
    | inr (inl (e, q)) ↦ absurd (ground (arith, q, h))
    | inr (inr q) ↦ absurd (ground (arith, q, h))
    | inl (got, q) ↦
        let (fits, took) =
          read_takes (length buf) conn got (read (length buf) conn).1 (ground (arith, q)) in
        omega (arith, took)
  ]

  pub read_keeps_buffer :
      (buf conn : List ℕ) → length (socks5_read_from codec buf conn).2 ≡ length buf
  unfolding socks5_read_from
  read_keeps_buffer buf conn = elim (Result-cases (read (length buf) conn).0) [
    | inr (inl (e, q)) ↦ rw q
    | inr (inr q) ↦ rw q
    | inl (got, q) ↦
        let (fits, took) =
          read_takes (length buf) conn got (read (length buf) conn).1 (ground (arith, q)) in
        rw q (
          omega
            (arith, fits, length-append got (drop (length got) buf), length-drop (length got) buf))
  ]
