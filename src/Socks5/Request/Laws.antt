-- ===== src/Socks5/Request/Laws.antt =====
-- What a handled stream leaves behind, and for whom a request is served.
use uptp.Common.{
  ℕ, ◌+◌, ◌≡◌, ◌≢◌, ◌↔◌, ◌⊎◌, inl, inr, refl, ap, ◌∙◌, arith, Bool, true, false, none, String, List,
  [], ◌∷◌, ◌++◌, ◌==◌, ◌&&◌, not, nat_eq, Option-cases,
}
use uptp.Socks5.Errors.{GoError, done}
use uptp.Socks5.Negotiate.Laws.{Try-cases}
use uptp.Socks5.Request.{
  Request, Dialer, Action, replied, accepted, dialled, tunnelled, packets_relayed, target_closed,
  stream_closed, Answers, reply_err, refused, connected, handle_udp_pack_conn_request,
  serve_request, socks5_request_connect, cmd_packet_conn, rep_host_unreachable,
  rep_command_not_supported, rep_address_not_supported,
}

-- The log in numbers: connections dialled, connections and streams closed, replies, and replies that
-- grant the request.
pub record Totals : Type 0 where
  pub dials : ℕ
  pub target_closes : ℕ
  pub stream_closes : ℕ
  pub refusals : ℕ
  pub grants : ℕ
  pub tunnels : ℕ

abbrev pub count : Action → Totals → Totals
count (replied rep v6) t = record t { refusals = t.refusals + 1 }
count (accepted l) t = record t { grants = t.grants + 1 }
count (dialled n a) t = record t { dials = t.dials + 1 }
count (tunnelled f) t = record t { tunnels = t.tunnels + 1 }
count packets_relayed t = t
count target_closed t = record t { target_closes = t.target_closes + 1 }
count stream_closed t = record t { stream_closes = t.stream_closes + 1 }

abbrev pub totals : List Action → Totals
totals [] = record {
  dials = 0;
  target_closes = 0;
  stream_closes = 0;
  refusals = 0;
  grants = 0;
  tunnels = 0;
}
totals (x ∷ l) = count x (totals l)

-- Whether a log keeps the order, given whether a connection is open and whether a reply has granted it: what is
-- granted, tunnelled or closed is a connection that was dialled before, a tunnel runs after the reply that
-- grants it, and the stream is closed last, with no connection open.
abbrev pub is_ordered : Bool → Bool → List Action → Bool
is_ordered opened granted [] = false
is_ordered opened granted (stream_closed ∷ []) = not opened
is_ordered opened granted (stream_closed ∷ _) = false
is_ordered opened granted (replied rep v6 ∷ l) = not granted && is_ordered opened granted l
is_ordered opened granted (accepted addr ∷ l) = opened && (not granted && is_ordered opened true l)
is_ordered opened granted (dialled n addr ∷ l) = not opened && is_ordered true granted l
is_ordered opened granted (tunnelled framed ∷ l) =
    opened && (granted && is_ordered opened granted l)
is_ordered opened granted (packets_relayed ∷ l) = false
is_ordered opened granted (target_closed ∷ l) = opened && is_ordered false granted l

abbrev pub is_packet_conn : Request → Bool
is_packet_conn req = req.cmd == cmd_packet_conn

module _ (ob : Dialer) (unsupported : GoError) (a : Answers) where
  -- One reply, a tunnel only where one that grants the request was written without an error, every
  -- connection closed that was dialled, and the stream closed `n` times
  pub record IsAnswered (n : ℕ) (l : List Action) : Type 0 where
    pub closed : (totals l).target_closes ≡ (totals l).dials
    pub one_reply : (totals l).refusals + (totals l).grants ≡ 1
    pub granted_first : (totals l).tunnels ≡ 0 ⊎ (((totals l).grants ≡ 1) × (a.write_reply ≡ none))
    pub hung_up : (totals l).stream_closes ≡ n

  count-reply_err :
      (req : Request) (rep : ℕ) (t : Totals)
      → count (reply_err req rep) t ≡ record t { refusals = t.refusals + 1 }
  unfolding reply_err
  count-reply_err req rep t = ground arith

  refused-IsAnswered :
      (req : Request) (rep : ℕ) (e : GoError) → IsAnswered 0 (refused a req rep e).1
  refused-IsAnswered req rep e =
      let c = count-reply_err req rep (totals []) in
      record {
        closed = rw c refl;
        one_reply = rw c refl;
        granted_first = inl (rw c refl);
        hung_up = rw c refl;
      }

  connected-IsAnswered :
      (req : Request) (framed : Bool) (local_addr network address : String)
      → IsAnswered 0 (dialled network address ∷ (connected a req framed local_addr).1)
  unfolding connected
  connected-IsAnswered req framed local_addr network address =
      ground (arith, count-reply_err req rep_host_unreachable (totals (target_closed ∷ [])))

  serve_request-IsAnswered :
      (req : Request)
      → is_packet_conn req ≡ false
      → IsAnswered 0 (serve_request ob unsupported a req).1
  unfolding serve_request
  serve_request-IsAnswered req h = ground (
    arith,
    h,
    refused-IsAnswered req rep_host_unreachable,
    refused-IsAnswered req rep_command_not_supported unsupported,
    connected-IsAnswered req false,
    connected-IsAnswered req true,
  )

  count-close :
      (x : Action) (t : Totals) → count x (count stream_closed t) ≡ count stream_closed (count x t)
  count-close x t = ground arith

  totals-close :
      (l : List Action) → totals (l ++ (stream_closed ∷ [])) ≡ count stream_closed (totals l)
  totals-close [] = refl
  totals-close (x ∷ l) = ap (count x) (totals-close l) ∙ count-close x (totals l)

  ordered-reply_err :
      (opened : Bool) (req : Request) (rep : ℕ) (l : List Action)
      → is_ordered opened false (reply_err req rep ∷ l) ≡ is_ordered opened false l
  unfolding reply_err
  ordered-reply_err opened req rep l = ground arith

  ordered_connected :
      (req : Request) (framed : Bool) (local_addr : String)
      → is_ordered true false ((connected a req framed local_addr).1 ++ (stream_closed ∷ [])) ≡ true
  unfolding connected
  ordered_connected req framed local_addr =
      ground (
        arith,
        ordered-reply_err true req rep_host_unreachable (target_closed ∷ stream_closed ∷ []),
      )

  ordered_request :
      (req : Request)
      → is_packet_conn req ≡ false
      → is_ordered false false (socks5_request_connect ob unsupported a (done req)).1 ≡ true
  unfolding socks5_request_connect serve_request
  ordered_request req h = ground (
    arith,
    h,
    ordered-reply_err false req rep_host_unreachable (stream_closed ∷ []),
    ordered-reply_err false req rep_command_not_supported (stream_closed ∷ []),
    ordered_connected req false,
    ordered_connected req true,
  )

  -- A request that is read, and is not the one for a packet connection, gets exactly one reply; every
  -- connection that was dialled is closed, and the stream is closed exactly once. A tunnel runs only where
  -- that reply grants the request and was written without an error. In this order: a connection is dialled
  -- before it is granted, granted before its tunnel, and closed after it; the stream is closed last.
  pub socks5_request_connect-IsAnswered :
      (req : Request)
      → is_packet_conn req ≡ false
      → IsAnswered 1 (socks5_request_connect ob unsupported a (done req)).1
        × (is_ordered false false (socks5_request_connect ob unsupported a (done req)).1 ≡ true)
  unfolding socks5_request_connect
  socks5_request_connect-IsAnswered req h = (
    ground (
      arith,
      serve_request-IsAnswered req h,
      totals-close (serve_request ob unsupported a req).1,
    ),
    ordered_request req h,
  )

  -- The calls of a packet connection up to its socket succeed.
  abbrev pub IsListening : Type 0
  IsListening = (a.resolve ≡ none) × ((l : String) × (a.listen ≡ done l))

  pack_grants :
      (req : Request)
      → (totals (handle_udp_pack_conn_request a req).1).grants ≡ 1
      → IsListening × ((a.parse_address ≢ none) × (a.write_reply ≡ none))
  unfolding handle_udp_pack_conn_request
  pack_grants req h = elim (Option-cases a.resolve) [
    | inr (e, p) ↦ absurd (ground (arith, h, p, count-reply_err req rep_address_not_supported))
    | inl p ↦ elim (Try-cases a.listen) [
      | inr (e, q) ↦ absurd (ground (arith, h, p, q, count-reply_err req rep_host_unreachable))
      | inl (l, q) ↦ elim (Option-cases a.parse_address) [
        | inl r ↦ absurd (ground (arith, h, p, q, r))
        | inr (e, r) ↦ elim (Option-cases a.write_reply) [
          | inr (x, w) ↦
              absurd (ground (arith, h, p, q, r, w, count-reply_err req rep_host_unreachable))
          | inl w ↦ ((p, (l, q)), ((λ z. cc (r, z)), w))
        ]
      ]
    ]
  ]

  granted_pack :
      (req : Request)
      → IsListening × ((a.parse_address ≢ none) × (a.write_reply ≡ none))
      → (totals (handle_udp_pack_conn_request a req).1).grants ≡ 1
  unfolding handle_udp_pack_conn_request
  granted_pack req ((p, (l, q)), (n, w)) = elim (Option-cases a.parse_address) [
    | inl r ↦ absurd (n r)
    | inr (e, r) ↦ ground (arith, p, q, r, w, count-reply_err req rep_host_unreachable)
  ]

  -- A packet connection whose socket was opened is granted exactly if the socket's address could not
  -- be parsed, once the reply that refuses it was written; where the address could be parsed, its
  -- packets are relayed and no reply is written at all.
  pub handle_udp_pack_conn_request-grants :
      (req : Request)
      → (((totals (handle_udp_pack_conn_request a req).1).grants ≡ 1)
          ↔ (IsListening × ((a.parse_address ≢ none) × (a.write_reply ≡ none))))
        × (IsListening
            → a.parse_address ≡ none
            → (handle_udp_pack_conn_request a req).1 ≡ packets_relayed ∷ target_closed ∷ [])
  unfolding handle_udp_pack_conn_request
  handle_udp_pack_conn_request-grants req =
      ((pack_grants req, granted_pack req), λ (p, (l, q)) r. rw (p, q, r) refl)
