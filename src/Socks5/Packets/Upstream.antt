-- ===== src/Socks5/Packets/Upstream.antt =====
-- From a client's packet connection to the server's socket: what `WriteTo` of Socks5/PacketConn has
-- sent, the loop of Socks5/Packets gives to the socket.
use uptp.Common.{
  Answer-cases, fails, gives, ℕ, zero, suc, ◌<◌, ◌≡◌, ◌↔◌, Bool, true, false, inl, inr, ap, ◌∙◌,
  refl, arith, String, List, [], ◌∷◌, ◌++◌, Answer, ok, err, ltb, Bool-cases, length, if◌then◌else◌,
}
use uptp.Socks5.Datagram.{AddrCodec, IsExact, read_from}
use uptp.Socks5.Packet.{read}
use uptp.Stream.Bytes.{read_full}
use uptp.Socks5.Framed.{socks5_read_from, packet_length}
use uptp.Socks5.Framed.Laws.{
  read-write_fitting, read-write_crashes, read_shortens, read_keeps_buffer,
}
use uptp.Socks5.PacketConn.{Datagram, write_each, write_each_split}
use uptp.Socks5.Packets.{
  Ending, ended, crashed, zeros, buffer_size, forwarded, forward_up, relay_up,
}
use uptp.Socks5.Packets.Laws.{length-zeros}

-- Every address is one that the codec reads back.
abbrev pub AreExact : AddrCodec → List Datagram → Type 0
AreExact codec [] = Unit {0}
AreExact codec (d ∷ ds) = IsExact codec d.1 × AreExact codec ds

-- Whether one of the packets is larger than the server's buffer.
abbrev pub oversized : AddrCodec → List Datagram → Bool
oversized codec [] = false
oversized codec (d ∷ ds) =
    if ltb buffer_size (packet_length codec d.0 d.1) then true else oversized codec ds

nothing_to_read : (codec : AddrCodec) (buf : List ℕ) → (socks5_read_from codec buf []).0 ≡ err "EOF"
unfolding socks5_read_from read read_full read_from
nothing_to_read codec buf = refl

module _ (codec : AddrCodec) (resolve : String → Answer String) where
  -- The datagrams whose address is resolved, with what it is resolved to
  abbrev pub resolved : List Datagram → List Datagram
  resolved [] = []
  resolved ((p, to) ∷ ds) = elim (resolve to) [
    | fails e ↦ resolved ds
    | gives address ↦ (p, address) ∷ resolved ds
  ]

  -- What the source does with what a client has sent.
  abbrev expected : List Datagram → List Datagram × Ending
  expected [] = ([], ended)
  expected (d ∷ ds) =
      if ltb buffer_size (packet_length codec d.0 d.1)
      then ([], crashed)
      else (forwarded resolve d (expected ds).0, (expected ds).1)

  forward_up-write_each :
      (ds : List Datagram) (fuel : ℕ) (buf sent : List ℕ)
      → AreExact codec ds
      → length buf ≡ buffer_size
      → write_each codec ds ≡ ok sent
      → length sent < fuel
      → forward_up codec resolve fuel buf sent ≡ expected ds
  unfolding forward_up
  forward_up-write_each ds zero buf sent a b h k = absurd (omega arith)
  forward_up-write_each [] (suc fuel) buf sent a b h k =
      let none : [] ≡ sent = unfold write_each in ground (arith, h) in
      rw (← none) (ground (arith, nothing_to_read codec buf))
  forward_up-write_each (d ∷ ds) (suc fuel) buf sent a b h k =
      let (first, rest, q, w, joined) = write_each_split codec d ds sent h in
      elim (Bool-cases (ltb buffer_size (packet_length codec d.0 d.1))) [
        | inl long ↦
            let c = read-write_crashes codec buf d.0 d.1 first rest (ground (arith, long, b)) q in
            ground (arith, long, c, joined)
        | inr fits ↦
            let (got, left) =
              read-write_fitting codec buf d.0 d.1 first rest a.0 (ground (arith, fits, b)) q in
            let less = read_shortens codec buf (first ++ rest) d got in
            let after = (socks5_read_from codec buf (first ++ rest)).2 in
            let ih =
              forward_up-write_each ds fuel after rest a.1
                (read_keeps_buffer codec buf (first ++ rest) ∙ b) w
                (omega (arith, less, k, ap length joined, ap length left)) in
            rw (← joined) (ground (arith, fits, got, left, ih))
      ]

  expected_fitting :
      (ds : List Datagram) → oversized codec ds ≡ false → expected ds ≡ (resolved ds, ended)
  expected_fitting [] h = refl
  expected_fitting (d ∷ ds) h = elim (Answer-cases (resolve d.1)) [
    | inl (address, q) ↦ ground (arith, q, h, expected_fitting ds)
    | inr (e, q) ↦ ground (arith, q, h, expected_fitting ds)
  ]

  expected_crashes : (ds : List Datagram) → oversized codec ds ≡ true → (expected ds).1 ≡ crashed
  expected_crashes [] h = cc
  expected_crashes (d ∷ ds) h = ground (arith, h, expected_crashes ds)

  relay_up-expected :
      (ds : List Datagram) (sent : List ℕ)
      → AreExact codec ds
      → write_each codec ds ≡ ok sent
      → relay_up codec resolve sent ≡ expected ds
  unfolding relay_up
  relay_up-expected ds sent a h =
      forward_up-write_each ds (suc (length sent)) (zeros buffer_size) sent a
        (length-zeros buffer_size) h (omega arith)

  -- Datagrams that a client writes to its packet connection one after another, each to an address at
  -- which the codec is exact and in a packet that fits in the server's buffer of 32 KiB, reach the
  -- server's socket with their payloads, in their order and none twice; only those are left out whose
  -- address is not resolved. The loop then ends by the end of the stream.
  pub relay_up-write_each :
      (ds : List Datagram) (sent : List ℕ)
      → AreExact codec ds
      → oversized codec ds ≡ false
      → write_each codec ds ≡ ok sent
      → relay_up codec resolve sent ≡ (resolved ds, ended)
  relay_up-write_each ds sent a f h = relay_up-expected ds sent a h ∙ expected_fitting ds f

  -- Datagrams to addresses at which the codec is exact, which a client's packet connection accepts, crash the
  -- server exactly if one of the packets is larger than the server's buffer of 32 KiB.
  pub relay_up_crashes_iff :
      (ds : List Datagram) (sent : List ℕ)
      → AreExact codec ds
      → write_each codec ds ≡ ok sent
      → ((relay_up codec resolve sent).1 ≡ crashed) ↔ (oversized codec ds ≡ true)
  relay_up_crashes_iff ds sent a h =
      let whole = relay_up-expected ds sent a h in
      (
        λ c. elim (Bool-cases (oversized codec ds)) [
          | inl b ↦ b
          | inr b ↦ absurd (ground (arith, whole, c, expected_fitting ds b))
        ],
        λ b. ground (arith, whole, expected_crashes ds b),
      )
