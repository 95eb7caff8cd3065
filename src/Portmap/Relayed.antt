-- ===== src/Portmap/Relayed.antt =====
-- portmap/portmap.go: the life of an accepted connection, from `onConnOpen` over `onConnData` and the
-- goroutine that copies the stream to it, until `onConnClose`. One event is one call; those of a
-- connection come in an order that the arguments choose.
pub mod Laws
pub mod Opening
use uptp.Common.{
  Life, live, shut, ℕ, Option, none, some, String, List, [], ◌∷◌, ◌++◌, Bool, true, false,
}
use uptp.Common.{if◌then◌else◌, ◌==◌, ◌||◌, text_eq}
use uptp.Common.Int.{ℤ}
use text.Mathlib.Text.{get?}
use uptp.Portmap.Handshake.{RspJson, Dialing, relay_handshake}

-- What `Session` holds: nil, the stream, or a value of another type.
pub data Session : Type 0 where
  no_session stream_session other_session : Session

pub record Conn : Type 0 where
  -- what `LocalAddr` says
  pub network : String
  pub ip : String
  pub port : ℤ
  pub session : Session
  pub is_open : Bool
  -- the stream that `onConnOpen` opened, and the bytes written to it after the handshake
  pub stream : Life
  pub sent : List ℕ
  -- the bytes that the connection was given, and whether the goroutine runs that gives them
  pub received : List ℕ
  pub copying : Bool
  -- a panic in a callback
  pub crashed : Bool

abbrev pub close_conn : Conn → Conn
close_conn c = record c { is_open = false }

-- `Close` of a stream
abbrev pub close_stream : Life → Life
close_stream live = shut
close_stream other = other

-- `funcGetHandshake`: the peer and the bytes of the handshake, where `none` is nil.
abbrev pub GetHandshake : Type 0
GetHandshake = String → String → ℤ → String × Option (List ℕ)

-- The steps of `onConnOpen` on a network that it knows.
unfoldable pub open_relay : RspJson → GetHandshake → Dialing → String → Conn → Conn
open_relay json get_handshake a prot c =
    let (pid, hs) = get_handshake prot c.ip c.port in
    elim hs [
      | none ↦ close_conn c
      | some bytes ↦
          if pid == ""
          then close_conn c
          else let (e, s) = relay_handshake json a in
            elim e [
              | some x ↦ record c { is_open = false; stream = s }
              | none ↦ record c { session = stream_session; stream = s; copying = true }
            ]
    ]

-- `onConnOpen`. The slice `prot[:3]` of a shorter name panics, after the connection was closed.
unfoldable pub on_conn_open : RspJson → GetHandshake → Dialing → Conn → Conn
unfolding open_relay
on_conn_open json get_handshake a c = elim c.session [
  | stream_session ↦ c
  | other_session ↦ close_conn c
  | no_session ↦ elim (get? c.network 0 3) [
    | none ↦ record c { is_open = false; crashed = true }
    | some prot ↦
        if prot == "tcp" || prot == "udp"
        then open_relay json get_handshake a prot c
        else close_conn c
  ]
]

-- `onConnData`, where the answer is that of the write to the stream
unfoldable pub on_conn_data : List ℕ → Option String → Conn → Conn
on_conn_data bytes answer c = elim c.session [
  | no_session ↦ close_conn c
  | other_session ↦ record c { session = no_session; is_open = false }
  | stream_session ↦ elim answer [
    | some e ↦ record c { session = no_session; is_open = false }
    | none ↦ record c { sent = c.sent ++ bytes }
  ]
]

unfoldable pub on_conn_close : Conn → Conn
on_conn_close c = elim c.session [
  | stream_session ↦ record c { stream = close_stream c.stream }
  | _ ↦ c
]

-- `io.Copy` in the goroutine of `onConnOpen` gives the connection some bytes, and ends.
unfoldable pub copy_bytes : List ℕ → Conn → Conn
copy_bytes bytes c = if c.copying then record c { received = c.received ++ bytes } else c

unfoldable pub copy_ended : Conn → Conn
copy_ended c =
    if c.copying
    then record c {
      session = no_session;
      stream = close_stream c.stream;
      is_open = false;
      copying = false;
    }
    else c

pub data Event : Type 0 where
  opened : Dialing → Event
  data_in : List ℕ → Option String → Event
  data_out : List ℕ → Event
  stream_ended : Event
  closed : Event

module _ (json : RspJson) (get_handshake : GetHandshake) where
  unfoldable pub step : Event → Conn → Conn
  unfolding on_conn_open on_conn_data on_conn_close copy_bytes copy_ended
  step (opened a) c = on_conn_open json get_handshake a c
  step (data_in bytes answer) c = on_conn_data bytes answer c
  step (data_out bytes) c = copy_bytes bytes c
  step stream_ended c = copy_ended c
  step closed c = on_conn_close c

  unfoldable pub run : List Event → Conn → Conn
  unfolding step
  run [] c = c
  run (e ∷ es) c = run es (step e c)
