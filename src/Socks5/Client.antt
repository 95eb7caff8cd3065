-- ===== src/Socks5/Client.antt =====
-- socks5/client.go: `dialContext` and `DialUDP` of a `Dialer`, which open a stream to a peer's server
-- and ask it for a connection or for a packet connection. What the network and the peer answer is an
-- argument, as are the address functions of Go's net and of github.com/txthinking/socks5.
pub mod Laws
pub mod Framing
use uptp.Common.{
  ℕ, ◌/◌, ◌%◌, Bool, true, false, Option, none, some, String, List, [], ◌∷◌, ◌&&◌, if◌then◌else◌,
  ◌==◌, nat_eq, text_eq, ltb, Answer, gives, fails, Life, unopened, live, was_reset,
}
use Prim.Native.String.{len}
use text.Mathlib.Text.{starts_with}
use uptp.Socks5.Request.{
  cmd_connect, cmd_connect_udp, cmd_packet_conn, atyp_ipv4, atyp_domain, rep_success,
}

abbrev pub atyp_ipv6 : ℕ
atyp_ipv6 = 4

abbrev pub method_none : ℕ
method_none = 0

abbrev pub method_username_password : ℕ
method_username_password = 2

abbrev pub status_success : ℕ
status_success = 0

-- A parsed address: its four bytes where `To4` gives them, and its sixteen bytes.
pub data Ip : Type 0 where
  v4 v6 : List ℕ → Ip

-- `net.SplitHostPort`, `net.ParseIP`, `net.LookupPort`, the bytes of a string
pub record Net : Type 0 where
  pub split_host_port : String → Answer (String × String)
  pub parse_ip : String → Option Ip
  pub lookup_port : String → String → Answer ℕ
  pub bytes : String → List ℕ
  -- the text of `socks5.ErrUserPassAuth`
  pub auth_error : String

-- `socks5.NewRequest`
pub record Command : Type 0 where
  pub cmd : ℕ
  pub atyp : ℕ
  pub addr : List ℕ
  pub port : List ℕ

-- `socks5.Reply`: its code, and its address as `ToAddress` prints it
pub record ServerReply : Type 0 where
  pub rep : ℕ
  pub bound : String

-- The peer's answers, in their order; `none` is a write without an error.
pub record Dialogue : Type 0 where
  pub new_stream : Option String
  pub write_methods : Option String
  pub method : Answer ℕ
  pub write_user_pass : Option String
  pub status : Answer ℕ
  pub write_request : Option String
  pub reply : Answer ServerReply

-- `streamConn` or `packetConn`: its addresses, and whether it reads and writes packets.
pub record StreamConn : Type 0 where
  pub network : String
  pub local_address : String
  pub remote_address : String
  pub framed : Bool

-- The `streamConn` of `dialContext`: it frames packets for the network "udp" alone.
abbrev pub stream_conn : String → String → String → StreamConn
stream_conn network address bound = record {
  network = network;
  local_address = bound;
  remote_address = address;
  framed = network == "udp";
}

-- What a call returns, the stream as it leaves it, and the request, where it was written.
pub record Dialled : Type 0 where
  pub result : Answer StreamConn
  pub stream : Life
  pub sent : Option Command

abbrev pub gave_up : String → Life → Dialled
gave_up e s = record { result = fails e; stream = s; sent = none }

-- The two bytes `byte(portNum >> 8)` and `byte(portNum)`
abbrev pub port_bytes : ℕ → List ℕ
port_bytes n = (n / 256 % 256) ∷ (n % 256) ∷ []

-- `net.IPv4zero`, whose form has sixteen bytes, and `net.IPv6zero`
abbrev pub ipv4_zero : List ℕ
ipv4_zero = 0 ∷ 0 ∷ 0 ∷ 0 ∷ 0 ∷ 0 ∷ 0 ∷ 0 ∷ 0 ∷ 0 ∷ 255 ∷ 255 ∷ 0 ∷ 0 ∷ 0 ∷ 0 ∷ []

abbrev pub ipv6_zero : List ℕ
ipv6_zero = 0 ∷ 0 ∷ 0 ∷ 0 ∷ 0 ∷ 0 ∷ 0 ∷ 0 ∷ 0 ∷ 0 ∷ 0 ∷ 0 ∷ 0 ∷ 0 ∷ 0 ∷ 0 ∷ []

-- The command that `dialContext` chooses.
unfoldable pub command_of : String → ℕ
command_of network = if starts_with network "udp" then cmd_connect_udp else cmd_connect

module _ (net : Net) where
  -- The user name and the password, after the server chose them. No error resets the stream.
  unfoldable pub authenticate : Dialogue → Option String × Life
  authenticate d = elim d.write_user_pass [
    | some e ↦ (some e, live)
    | none ↦ elim d.status [
      | fails e ↦ (some e, live)
      | gives s ↦ if s == status_success then (none, live) else (some net.auth_error, live)
    ]
  ]

  -- The negotiation of both calls, and its error; only `dialContext` goes on without authentication.
  unfoldable pub negotiate : Bool → Dialogue → Option String × Life
  unfolding authenticate
  negotiate allow_none d = elim d.new_stream [
    | some e ↦ (some e, unopened)
    | none ↦ elim d.write_methods [
      | some e ↦ (some e, was_reset)
      | none ↦ elim d.method [
        | fails e ↦ (some e, was_reset)
        | gives m ↦
            if m == method_username_password
            then authenticate d
            else if m == method_none && allow_none
            then (none, live)
            else (some "no acceptable authentication methods", was_reset)
      ]
    ]
  ]

  -- The type and the bytes of a host, as `dialContext` sends them.
  unfoldable pub host_bytes : String → ℕ × List ℕ
  host_bytes host = elim (net.parse_ip host) [
    | none ↦ (atyp_domain, net.bytes host)
    | some (v4 b) ↦ (atyp_ipv4, b)
    | some (v6 b) ↦ (atyp_ipv6, b)
  ]

  -- The same as `DialUDP` sends them.
  unfoldable pub listen_bytes : String → ℕ × List ℕ
  listen_bytes host = elim (net.parse_ip host) [
    | none ↦ (atyp_domain, net.bytes host)
    | some (v4 b) ↦ (atyp_ipv4, ipv4_zero)
    | some (v6 b) ↦ (atyp_ipv6, ipv6_zero)
  ]

  -- The request for an address, or the error of reading it.
  unfoldable pub request : (String → ℕ × List ℕ) → ℕ → String → String → Answer Command
  request bytes_of cmd network address = elim (net.split_host_port address) [
    | fails e ↦ fails e
    | gives (host, port) ↦ elim (net.lookup_port network port) [
      | fails e ↦ fails e
      | gives n ↦ gives (record {
        cmd = cmd;
        atyp = (bytes_of host).0;
        addr = (bytes_of host).1;
        port = port_bytes n;
      })
    ]
  ]

  -- A request is written and its reply read; each error resets the stream.
  unfoldable pub exchange : (String → StreamConn) → Answer Command → Dialogue → Dialled
  exchange conn (fails e) d = gave_up e was_reset
  exchange conn (gives c) d = elim d.write_request [
    | some e ↦ gave_up e was_reset
    | none ↦ elim d.reply [
      | fails e ↦ record { result = fails e; stream = was_reset; sent = some c }
      | gives r ↦
          if r.rep == rep_success
          then record { result = gives (conn r.bound); stream = live; sent = some c }
          else record { result = fails "SOCKS connect failed"; stream = was_reset; sent = some c }
    ]
  ]

  -- `dialContext`
  unfoldable pub dial_context : String → String → Dialogue → Dialled
  unfolding negotiate request exchange command_of host_bytes
  dial_context network address d =
      if ltb (len network) 3
      then gave_up "unsupport network type" unopened
      else let (e, s) = negotiate true d in
        elim e [
          | some x ↦ gave_up x s
          | none ↦
              exchange (stream_conn network address)
                (request host_bytes (command_of network) network address) d
        ]

  -- `DialUDP`, whose `packetConn` has no remote address.
  unfoldable pub dial_udp : String → String → Dialogue → Dialled
  unfolding negotiate request exchange listen_bytes
  dial_udp network local_addr d =
      if ltb (len network) 3
      then gave_up "unsupport network type" unopened
      else let (e, s) = negotiate false d in
        elim e [
          | some x ↦ gave_up x s
          | none ↦
              exchange
                (λ bound. record {
                  network = network;
                  local_address = bound;
                  remote_address = "";
                  framed = true;
                })
                (request listen_bytes cmd_packet_conn network local_addr) d
        ]
