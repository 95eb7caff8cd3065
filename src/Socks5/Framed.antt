-- ===== src/Socks5/Framed.antt =====
-- socks5/util.go on a connection: `socks5ReadFrom` and `socks5WriteTo` over a `packetReadWriter`, which
-- the packet connections of both sides use. A buffer is the list of its bytes.
pub mod Laws
use uptp.Common.{
  ℕ, ◌+◌, String, List, ◌++◌, Answer, gives, fails, Result, ok, err, panic, length, drop,
}
use uptp.Socks5.Packet.{write, read}
use uptp.Socks5.Datagram.{AddrCodec, write_to, read_from}

-- A buffer after a read into its beginning; where the read fails the buffer is not used again.
abbrev pub overwritten : Result (List ℕ) → List ℕ → List ℕ
overwritten (ok got) buf = got ++ drop (length got) buf
overwritten (err e) buf = buf
overwritten panic buf = buf

-- The bytes of a buffer behind what a read returns
abbrev pub behind : Result (List ℕ) → List ℕ → List ℕ
behind (ok got) buf = drop (length got) buf
behind (err e) buf = buf
behind panic buf = buf

module _ (codec : AddrCodec) where
  -- `socks5WriteTo`: the bytes that it writes
  unfoldable pub socks5_write_to : List ℕ → String → Result (List ℕ)
  socks5_write_to p to = elim (write_to codec p to) [
    | fails e ↦ err e
    | gives packet ↦ write packet
  ]

  -- `socks5ReadFrom`: what it returns, what it leaves on the connection, and the buffer
  unfoldable pub socks5_read_from : List ℕ → List ℕ → Result (List ℕ × String) × List ℕ × List ℕ
  socks5_read_from buf conn =
      let (packet, rest) = read (length buf) conn in
      (read_from codec packet (behind packet buf), rest, overwritten packet buf)

  -- The length of the packet that carries a payload to an address
  abbrev pub packet_length : List ℕ → String → ℕ
  packet_length p to = elim (codec.parse_address to) [
    | fails e ↦ 0
    | gives a ↦ 1 + length a.addr + length a.port + length p
  ]
