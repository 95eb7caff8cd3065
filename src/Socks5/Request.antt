-- ===== src/Socks5/Request.antt =====
-- socks5/server.go: what a negotiated stream is used for, `socks5RequestConnect` with
-- `handleUDPPackConnRequest` and `replyErr`, and `handler`, which composes the two halves.
pub mod Laws
pub mod Served
use uptp.Common.{
  ℕ, ◌≡◌, Bool, true, false, Option, none, some, String, List, [], ◌∷◌, ◌++◌, if◌then◌else◌, ◌==◌,
  ◌||◌, nat_eq,
}
use uptp.Socks5.Errors.{GoError, Try, done, failed, should_log_error}
use uptp.Socks5.Negotiate.{
  Peerstore, Dialogue, Message, Ending, passed, ended, crashed, socks5_precheck, socks5_negotiate,
}

-- The numbers of RFC 1928, and the two commands of this package.
abbrev pub cmd_connect : ℕ
cmd_connect = 1

abbrev pub cmd_connect_udp : ℕ
cmd_connect_udp = 4

abbrev pub cmd_packet_conn : ℕ
cmd_packet_conn = 5

abbrev pub atyp_ipv4 : ℕ
atyp_ipv4 = 1

abbrev pub atyp_domain : ℕ
atyp_domain = 3

abbrev pub rep_success : ℕ
rep_success = 0

abbrev pub rep_host_unreachable : ℕ
rep_host_unreachable = 4

abbrev pub rep_command_not_supported : ℕ
rep_command_not_supported = 7

abbrev pub rep_address_not_supported : ℕ
rep_address_not_supported = 8

-- `socks5.Request`; the address is what its `Address` returns.
pub record Request : Type 0 where
  pub cmd : ℕ
  pub atyp : ℕ
  pub address : String

-- `outboundDialer`: what `obDialer` dials is a local address, or an error.
pub record Dialer : Type 0 where
  pub dial : String → String → Try String
  pub dial_udp : String → String → Try String

-- What the server does to the stream and to the connections behind it, in its order. A reply
-- carries its code and whether its address is an IPv6 one; a tunnel, whether it frames packets.
pub data Action : Type 0 where
  replied : ℕ → Bool → Action
  accepted : String → Action
  dialled : String → String → Action
  tunnelled : Bool → Action
  packets_relayed : Action
  target_closed : Action
  stream_closed : Action

-- What the rest is answered: by `socks5.ParseAddress` on the local address, by each write of a
-- reply, by `tunneling`, and by the calls of a packet connection, where `none` is no error.
pub record Answers : Type 0 where
  pub parse_address : Option GoError
  pub write_reply : Option GoError
  -- the second of two writes
  pub write_again : Option GoError
  pub tunnel : Option GoError
  pub resolve : Option GoError
  pub listen : Try String

-- The error of a write, or else this one.
abbrev pub first_error : Option GoError → GoError → Option GoError
first_error none e = some e
first_error (some w) e = some w

-- `replyErr`: the reply that it writes
unfoldable pub reply_err : Request → ℕ → Action
reply_err req rep =
    if req.atyp == atyp_ipv4 || req.atyp == atyp_domain then replied rep false else replied rep true

-- An error that is replied to.
abbrev pub refused : Answers → Request → ℕ → GoError → Option GoError × List Action
refused a req rep e = (first_error a.write_reply e, reply_err req rep ∷ [])

-- A dialled connection: its address is parsed and replied, then the tunnel runs.
unfoldable pub connected : Answers → Request → Bool → String → Option GoError × List Action
unfolding reply_err
connected a req framed local_addr = elim a.parse_address [
  | some e ↦ (first_error a.write_reply e, reply_err req rep_host_unreachable ∷ target_closed ∷ [])
  | none ↦ elim a.write_reply [
    | some e ↦ (some e, accepted local_addr ∷ target_closed ∷ [])
    | none ↦ (a.tunnel, accepted local_addr ∷ tunnelled framed ∷ target_closed ∷ [])
  ]
]

-- `handleUDPPackConnRequest`. It replies with success only where the address was not parsed.
unfoldable pub handle_udp_pack_conn_request : Answers → Request → Option GoError × List Action
unfolding reply_err
handle_udp_pack_conn_request a req = elim a.resolve [
  | some e ↦ refused a req rep_address_not_supported e
  | none ↦ elim a.listen [
    | failed e ↦ refused a req rep_host_unreachable e
    | done local_addr ↦ elim a.parse_address [
      | some e ↦ elim a.write_reply [
        | some w ↦ (some w, reply_err req rep_host_unreachable ∷ target_closed ∷ [])
        | none ↦ (
          first_error a.write_again e,
          reply_err req rep_host_unreachable ∷ accepted "" ∷ target_closed ∷ [],
        )
      ]
      | none ↦ (none, packets_relayed ∷ target_closed ∷ [])
    ]
  ]
]

module _ (ob : Dialer) (unsupported : GoError) where
  -- The switch of `socks5RequestConnect` and what follows it, where `unsupported` is
  -- `socks5.ErrUnsupportCmd`.
  unfoldable pub serve_request : Answers → Request → Option GoError × List Action
  unfolding connected handle_udp_pack_conn_request reply_err
  serve_request a req =
      if req.cmd == cmd_connect
      then elim (ob.dial "tcp" req.address) [
        | failed e ↦ refused a req rep_host_unreachable e
        | done local_addr ↦
            let (e, l) = connected a req false local_addr in (e, dialled "tcp" req.address ∷ l)
      ]
      else if req.cmd == cmd_connect_udp
      then elim (ob.dial_udp "udp" req.address) [
        | failed e ↦ refused a req rep_host_unreachable e
        | done local_addr ↦
            let (e, l) = connected a req true local_addr in (e, dialled "udp" req.address ∷ l)
      ]
      else if req.cmd == cmd_packet_conn
      then handle_udp_pack_conn_request a req
      else refused a req rep_command_not_supported unsupported

  -- `socks5RequestConnect`, on what `NewRequestFrom` returns; it closes the stream.
  unfoldable pub socks5_request_connect : Answers → Try Request → Option GoError × List Action
  unfolding serve_request
  socks5_request_connect a (failed e) = (some e, stream_closed ∷ [])
  socks5_request_connect a (done req) =
      let (e, l) = serve_request a req in (e, l ++ (stream_closed ∷ []))

  -- What a stream comes to: how the negotiation ends, and what is done for its request, if it is
  -- read at all.
  pub record Handled : Type 0 where
    pub ending : Ending
    pub messages : List Message
    pub actions : Option (List Action)
    pub peers : Peerstore

  -- `handler`, where only an error that `shouldLogError` names ends the stream's handling.
  unfoldable pub handler :
      (ℕ → Bool) → GoError → String → Dialogue → Answers → Try Request → Peerstore → Handled
  unfolding socks5_request_connect socks5_negotiate socks5_precheck should_log_error
  handler auth_func auth_error pid d a req peers =
      let (e, (l, peers')) =
        socks5_negotiate auth_func auth_error (socks5_precheck pid peers) pid d peers in
      let served : Option (List Action) = some (socks5_request_connect a req).1 in
      record {
        ending = e;
        messages = l;
        actions = elim e [
          | passed ↦ served
          | ended x ↦ if should_log_error (some x) then none else served
          | crashed ↦ none
        ];
        peers = peers';
      }
