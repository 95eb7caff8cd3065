-- ===== src/Portmap/Handshake.antt =====
-- portmap/portmap.go: the handshake by which a port map opens a relay, on both sides:
-- `relayHandshake` on the side of the accepted connection, and `handleUptpStream` on the side of the
-- target. What the peer, the system and the network answer are arguments; the JSON codec is too.
use uptp.Common.{ℕ, Option, none, some, String, List, [], ◌∷◌}
use uptp.Common.{
  Answer, gives, fails, Life, unopened, live, was_reset, Result, ok, err, panic, if◌then◌else◌,
  ◌==◌, ◌!=◌, text_eq,
}
use Prim.Native.String.{◌++◌ as append}
use uptp.Common.Int.{ℤ, pos, int_eq}
use uptp.Common.Decimal.{format_int}
use uptp.Gateway.ResourceApi.{Target}

pub record HandshakeRsp : Type 0 where
  pub code : ℤ
  pub msg : String

-- `json.Marshal` and `json.Unmarshal` at `handshakeRsp`; `none` is the error of the first.
pub record RspJson : Type 0 where
  pub marshal : HandshakeRsp → Option (List ℕ)
  pub unmarshal : List ℕ → Answer HandshakeRsp

-- What `relayHandshake` is answered: by `peer.Decode`, `NewStream` and the write, where `none` is
-- no error, and by the one read into a buffer of 100 bytes.
pub record Dialing : Type 0 where
  pub decode_peer : Option String
  pub new_stream : Option String
  pub write : Option String
  pub read : Answer (List ℕ)

-- `relayHandshake`: a nil error, or the error, and the stream afterwards. A `return nil, err` sets
-- the named result `s` before the deferred function looks at it.
unfoldable pub relay_handshake : RspJson → Dialing → Option String × Life
relay_handshake json a = elim a.decode_peer [
  | some e ↦ (some e, unopened)
  | none ↦ elim a.new_stream [
    | some e ↦ (some e, unopened)
    | none ↦ elim a.write [
      | some e ↦ (some e, live)
      | none ↦ elim a.read [
        | fails e ↦ (some e, live)
        | gives rsp ↦ elim (json.unmarshal rsp) [
          | fails e ↦ (some e, was_reset)
          | gives hs_rsp ↦
              if hs_rsp.code != pos 0
              then (some (append "handshak response: " hs_rsp.msg), was_reset)
              else (none, live)
        ]
      ]
    ]
  ]
]

-- What `handleUptpStream` does to the stream and to the connection that it dials, in its order. A
-- write carries its error, a dialled connection its network and address.
pub data Action : Type 0 where
  wrote : List ℕ → Option String → Action
  stream_closed : Action
  dialled : String → String → Action
  registered : Action
  forwarded : List ℕ → Action
  conn_closed : Action
  crashed : Action

-- What it is answered: by the first read, into a buffer of 1024 bytes; by the calls that dial and by
-- `nbio.NBConn`, where `none` is no error; by a write; and the bytes that `io.Copy` finds.
pub record Serving : Type 0 where
  pub read : Answer (List ℕ)
  pub dial_tcp : Option String
  pub resolve : Option String
  pub dial_udp : Option String
  pub wrap : Option String
  pub write : Option String
  pub copied : List ℕ

-- `fmt.Sprintf("%s:%d", addr, port)`
unfoldable pub host_port : Target → String
unfolding format_int
host_port t = append t.addr (append ":" (format_int t.port))

-- The target's connection, by its network and its address, or the message for the peer.
unfoldable pub dial : Target → Serving → Answer (String × String)
dial t a =
    if t.network == "tcp"
    then elim a.dial_tcp [
      | some e ↦ fails "connect target addr failed"
      | none ↦ gives ("tcp", host_port t)
    ]
    else elim a.resolve [
      | some e ↦ fails "resolve target addr failed"
      | none ↦ elim a.dial_udp [
        | some e ↦ fails "connect target addr failed"
        | none ↦ gives ("udp", host_port t)
      ]
    ]

module _ (json : RspJson) where
  -- The deferred function, with the message that the body left; the error of its write is ignored.
  unfoldable pub refuse : String → Serving → List Action
  refuse msg a =
      if msg == "" then [] else elim (json.marshal (record { code = pos 1; msg = msg })) [
        | none ↦ stream_closed ∷ []
        | some rsp ↦ wrote rsp a.write ∷ stream_closed ∷ []
      ]

  -- The steps on a dialled connection.
  unfoldable pub relay : Serving → List Action
  unfolding refuse
  relay a = elim a.wrap [
    | some e ↦ conn_closed ∷ refuse "unexpected connection failed" a
    | none ↦ elim (json.marshal (record { code = pos 0; msg = "ok" })) [
      | none ↦ conn_closed ∷ refuse "marshal rsp failed" a
      | some rsp ↦ elim a.write [
        | some e ↦ wrote rsp (some e) ∷ stream_closed ∷ conn_closed ∷ []
        | none ↦ wrote rsp none ∷ registered ∷ forwarded a.copied ∷ stream_closed ∷ conn_closed ∷ []
      ]
    ]
  ]

  -- `handleUptpStream`, where `handle` is `funcHandleHandshake`
  unfoldable pub handle_uptp_stream : (List ℕ → Result Target) → Serving → List Action
  unfolding refuse relay dial
  handle_uptp_stream handle a = elim a.read [
    | fails e ↦ stream_closed ∷ []
    | gives hs ↦ elim (handle hs) [
      | err e ↦ refuse e a
      | panic ↦ crashed ∷ []
      | ok t ↦ elim (dial t a) [
        | fails msg ↦ refuse msg a
        | gives (network, addr) ↦ dialled network addr ∷ relay a
      ]
    ]
  ]
