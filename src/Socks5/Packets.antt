-- ===== src/Socks5/Packets.antt =====
-- socks5/server.go: the two loops of `handleUDPPackConnRequest`, which move the datagrams of a packet
-- connection. One reads the stream until it fails, and runs on fuel here; the other answers with what
-- the UDP socket receives, which is a list of rounds.
pub mod Laws
pub mod Upstream
pub mod Downstream
use uptp.Common.{
  ℕ, zero, suc, Bool, true, Option, none, some, String, List, [], ◌∷◌, ◌++◌, ◌*◌, Answer, gives,
  fails, Result, ok, err, panic, if◌then◌else◌, length, take,
}
use uptp.Socks5.Datagram.{AddrCodec}
use uptp.Socks5.Framed.{socks5_write_to, socks5_read_from}
use uptp.Socks5.PacketConn.{Datagram}

-- How the loop over the stream ends: by an error of a read, by a panic, which ends the program, or
-- for want of fuel.
pub data Ending : Type 0 where
  ended crashed starved : Ending

-- `make([]byte, n)`
unfoldable pub zeros : ℕ → List ℕ
zeros zero = []
zeros (suc n) = 0 ∷ zeros n

-- The size of `tunnelBuf`
abbrev pub buffer_size : ℕ
buffer_size = 32 * 1024

-- One round of the loop over the socket: the flag that it looks at, what `ReadFrom` returns, and where
-- the write to the stream fails, how many bytes were written before that.
pub record Round : Type 0 where
  pub stopped : Bool
  pub received : Answer Datagram
  pub cut : Option ℕ

-- A datagram that was read goes to the socket, if its address is resolved. An error of the socket is
-- logged only.
abbrev pub forwarded : (String → Answer String) → Datagram → List Datagram → List Datagram
forwarded resolve (payload, to) rest = elim (resolve to) [
  | fails e ↦ rest
  | gives address ↦ (payload, address) ∷ rest
]

module _ (codec : AddrCodec) where
  module _ (resolve : String → Answer String) where
    -- The loop over the stream, with its buffer: what it gives to the socket, and how it ends.
    unfoldable pub forward_up : ℕ → List ℕ → List ℕ → List Datagram × Ending
    forward_up zero buf conn = ([], starved)
    forward_up (suc fuel) buf conn =
        let (got, rest, after) = socks5_read_from codec buf conn in
        let later = forward_up fuel after rest in
        elim got [
          | err e ↦ ([], ended)
          | panic ↦ ([], crashed)
          | ok d ↦ (forwarded resolve d later.0, later.1)
        ]

    -- With the buffer of the source, on the bytes that come before the stream ends
    unfoldable pub relay_up : List ℕ → List Datagram × Ending
    relay_up conn = forward_up (suc (length conn)) (zeros buffer_size) conn

  -- The loop over the socket: what it writes to the stream.
  unfoldable pub forward_down : List Round → List ℕ
  forward_down [] = []
  forward_down (r ∷ rounds) = if r.stopped then [] else elim r.received [
    | fails e ↦ []
    | gives d ↦ elim (socks5_write_to codec d.0 d.1) [
      | err e ↦ []
      | panic ↦ []
      | ok sent ↦ elim r.cut [ some n ↦ take n sent | none ↦ sent ++ forward_down rounds ]
    ]
  ]
