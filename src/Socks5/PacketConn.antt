-- ===== src/Socks5/PacketConn.antt =====
-- socks5/client.go: `packetConn`, the connection that `DialUDP` returns, on the bytes of its stream.
use uptp.Common.{
  ℕ, zero, suc, String, List, [], ◌∷◌, ◌++◌, Result, ok, err, panic, ◌>>=◌, length, drop, ◌≡◌,
  Result-cases, inl, inr, arith,
}
use uptp.Socks5.Datagram.{AddrCodec}
use uptp.Socks5.Framed.{socks5_write_to, socks5_read_from}

-- A payload with the address that it goes to, or comes from
abbrev pub Datagram : Type 0
Datagram = List ℕ × String

-- `copy` of a payload to the beginning of the buffer
abbrev pub copied : Result Datagram → List ℕ → List ℕ
copied (ok (payload, from)) buf = payload ++ drop (length payload) buf
copied (err e) buf = buf
copied panic buf = buf

module _ (codec : AddrCodec) where
  -- `ReadFrom`: what it returns, what it leaves on the stream, and the buffer
  unfoldable pub packet_conn_read_from : List ℕ → List ℕ → Result Datagram × List ℕ × List ℕ
  packet_conn_read_from buf conn =
      let (got, rest, after) = socks5_read_from codec buf conn in (got, rest, copied got after)

  -- `WriteTo`: the length that it returns and the bytes that it sends
  unfoldable pub packet_conn_write_to : List ℕ → String → Result (ℕ × List ℕ)
  packet_conn_write_to p to = socks5_write_to codec p to >>= λ sent. ok (length p, sent)

  -- One call after another, on one stream: what a sender has written, and what a reader of `n` calls
  -- with one buffer has got.
  unfoldable pub write_each : List Datagram → Result (List ℕ)
  write_each [] = ok []
  write_each ((p, to) ∷ ds) =
      packet_conn_write_to p to >>= λ first. write_each ds >>= λ rest. ok (first.1 ++ rest)

  unfoldable pub read_each : ℕ → List ℕ → List ℕ → List (Result Datagram)
  read_each zero buf conn = []
  read_each (suc n) buf conn =
      let (got, rest, after) = packet_conn_read_from buf conn in got ∷ read_each n after rest

  -- What several writes have sent, by the first of them.
  pub write_each_split :
      (d : Datagram) (ds : List Datagram) (sent : List ℕ)
      → write_each (d ∷ ds) ≡ ok sent
      → (first rest : List ℕ) × (socks5_write_to codec d.0 d.1 ≡ ok first)
        × (write_each ds ≡ ok rest)
        × (first ++ rest ≡ sent)
  unfolding write_each packet_conn_write_to
  write_each_split d ds sent h = elim (Result-cases (socks5_write_to codec d.0 d.1)) [
    | inr (inl (e, q)) ↦ absurd (ground (arith, q, h))
    | inr (inr q) ↦ absurd (ground (arith, q, h))
    | inl (first, q) ↦ elim (Result-cases (write_each ds)) [
      | inr (inl (e, w)) ↦ absurd (ground (arith, q, w, h))
      | inr (inr w) ↦ absurd (ground (arith, q, w, h))
      | inl (rest, w) ↦ (first, rest, q, w, ground (arith, q, w, h))
    ]
  ]
