-- ===== src/Socks5/Client/Framing.antt =====
-- The client's requests against the server: whether the server can read their addresses, and whether
-- both ends frame packets alike.
use uptp.Common.{
  ℕ, ◌≡◌, ◌↔◌, ◌⊎◌, inl, inr, sym, ap, ◌∙◌, arith, Bool, true, false, Option, none, some, String,
  List, [], ◌∷◌, length, if◌then◌else◌, ◌==◌, nat_eq, text_eq, eq_iff, ltb, Answer, gives,
  Answer-cases, Option-cases, Bool-cases,
}
use Prim.Native.String.{len}
use text.Mathlib.Text.{starts_with}
use uptp.Socks5.Client.{
  v4, v6, Net, Command, Dialogue, StreamConn, stream_conn, negotiate, host_bytes, listen_bytes,
  request, exchange, command_of, dial_context, atyp_ipv6,
}
use uptp.Socks5.Request.{
  Request, Dialer, Action, tunnelled, target_closed, Answers, serve_request, connected, reply_err,
  rep_host_unreachable, atyp_ipv4,
}
use uptp.Socks5.Negotiate.Laws.{Try-cases}
use uptp.Socks5.Errors.{GoError}

-- An address as long as its type says, for the types of a fixed length (RFC 1928)
abbrev pub fits : ℕ × List ℕ → Bool
fits (atyp, b) =
    if atyp == atyp_ipv4 then length b == 4 else if atyp == atyp_ipv6 then length b == 16 else true

module _ (net : Net) where
  -- `net.ParseIP` gives four bytes by `To4`, and sixteen by `To16`.
  pub record IsNet : Type 0 where
    pub four : (host : String) (b : List ℕ) → net.parse_ip host ≡ some (v4 b) → length b ≡ 4
    pub sixteen : (host : String) (b : List ℕ) → net.parse_ip host ≡ some (v6 b) → length b ≡ 16

  dialled_fits : IsNet → (host : String) → fits (host_bytes net host) ≡ true
  unfolding host_bytes
  dialled_fits i host = elim (Option-cases (net.parse_ip host)) [
    | inl p ↦ ground (arith, p)
    | inr (v4 b, p) ↦ ground (arith, p, i.four host b p)
    | inr (v6 b, p) ↦ ground (arith, p, i.sixteen host b p)
  ]

  listened_fits :
      (host : String)
      → (fits (listen_bytes net host) ≡ false) ↔ ((b : List ℕ) × (net.parse_ip host ≡ some (v4 b)))
  unfolding listen_bytes
  listened_fits host = elim (Option-cases (net.parse_ip host)) [
    | inl p ↦ (λ h. absurd (ground (arith, h, p)), λ (b, q). absurd (cc (p, q)))
    | inr (v4 b, p) ↦ (λ h. (b, p), λ h. ground (arith, p))
    | inr (v6 b, p) ↦ (λ h. absurd (ground (arith, h, p)), λ (c, q). absurd (ground (arith, p, q)))
  ]

  -- Where the parsed addresses have their lengths, the address that `dialContext` asks for is as long
  -- as its type says; the one that `DialUDP` asks for is not, exactly if its host is an IPv4 address.
  pub requests_fit :
      IsNet
      → (host : String)
      → (fits (host_bytes net host) ≡ true)
        × ((fits (listen_bytes net host) ≡ false)
            ↔ ((b : List ℕ) × (net.parse_ip host ≡ some (v4 b))))
  requests_fit i host = (dialled_fits i host, listened_fits host)

-- How a server tunnels what it logs, if it does.
abbrev pub tunnel_of : List Action → Option Bool
tunnel_of [] = none
tunnel_of (tunnelled f ∷ l) = some f
tunnel_of (_ ∷ l) = tunnel_of l

module _ (ob : Dialer) (unsupported : GoError) (a : Answers) (req : Request) where
  reply-tunnel_of : (rep : ℕ) (l : List Action) → tunnel_of (reply_err req rep ∷ l) ≡ tunnel_of l
  unfolding reply_err
  reply-tunnel_of rep l = ground arith

  connected_tunnel :
      (framed f : Bool) (local_addr : String)
      → tunnel_of (connected a req framed local_addr).1 ≡ some f
      → f ≡ framed
  unfolding connected
  connected_tunnel framed f local_addr h =
      ground (arith, h, reply-tunnel_of rep_host_unreachable (target_closed ∷ []))

  -- The server frames what it tunnels for the command of a name that begins with "udp".
  serve_tunnel :
      (network : String) (f : Bool)
      → req.cmd ≡ command_of network
      → tunnel_of (serve_request ob unsupported a req).1 ≡ some f
      → f ≡ starts_with network "udp"
  unfolding serve_request command_of
  serve_tunnel network f c h = elim (Bool-cases (starts_with network "udp")) [
    | inl b ↦ elim (Try-cases (ob.dial_udp "udp" req.address)) [
      | inr (e, p) ↦ absurd (ground (arith, h, c, b, p, reply-tunnel_of rep_host_unreachable []))
      | inl (l, p) ↦ ground (arith, h, c, b, p, connected_tunnel true f l)
    ]
    | inr b ↦ elim (Try-cases (ob.dial "tcp" req.address)) [
      | inr (e, p) ↦ absurd (ground (arith, h, c, b, p, reply-tunnel_of rep_host_unreachable []))
      | inl (l, p) ↦ ground (arith, h, c, b, p, connected_tunnel false f l)
    ]
  ]

names_agree :
    (network : String)
    → (starts_with network "udp" ≡ (network == "udp"))
      ↔ ((starts_with network "udp" ≡ false) ⊎ (network ≡ "udp"))
names_agree network = elim (Bool-cases (network == "udp")) [
  | inl b ↦
      let e = (eq_iff network "udp").0 b in
      let starts : starts_with network "udp" ≡ true = ap (λ n. starts_with n "udp") e in
      (λ x. inr e, λ o. starts ∙ sym b)
  | inr b ↦ (
    λ x. inl (x ∙ b),
    λ o. elim o [ inl s ↦ s ∙ sym b | inr e ↦ absurd (cc (b, (eq_iff network "udp").1 e)) ],
  )
]

module _ (net : Net) (network address : String) (d : Dialogue) where
  exchanged :
      (conn : String → StreamConn) (c : Answer Command) (x : StreamConn)
      → (exchange net conn c d).result ≡ gives x
      → (b : String) × (x ≡ conn b)
  unfolding exchange
  exchanged conn c x h = elim (Answer-cases c) [
    | inr (e, p) ↦ absurd (ground (arith, h, p))
    | inl (r, p) ↦ elim (Option-cases d.write_request) [
      | inr (e, q) ↦ absurd (ground (arith, h, p, q))
      | inl q ↦ elim (Answer-cases d.reply) [
        | inr (e, s) ↦ absurd (ground (arith, h, p, q, s))
        | inl (s, t) ↦ (s.bound, ground (arith, h, p, q, t))
      ]
    ]
  ]

  dialled_framed :
      (x : StreamConn)
      → (dial_context net network address d).result ≡ gives x
      → x.framed ≡ (network == "udp")
  unfolding dial_context
  dialled_framed x h = elim (Option-cases (negotiate net true d).0) [
    | inr (e, p) ↦ absurd (ground (arith, h, p))
    | inl p ↦ elim (Bool-cases (ltb (len network) 3)) [
      | inl b ↦ absurd (ground (arith, h, p, b))
      | inr b ↦
          let asked = request net (host_bytes net) (command_of network) network address in
          let (s, e) = exchanged (stream_conn network address) asked x (ground (arith, h, p, b)) in
          ap (λ y. y.framed) e
    ]
  ]

  dialled_command :
      (c : Command)
      → (dial_context net network address d).sent ≡ some c
      → c.cmd ≡ command_of network
  unfolding dial_context exchange request
  dialled_command c h = ground (arith, h)

  -- Where `dialContext` gives a connection for the request that it sent, and the server tunnels for a
  -- request with that command, both ends frame packets alike exactly if the network's name does
  -- not begin with "udp" or is "udp".
  pub framing_agrees_iff :
      (ob : Dialer) (unsupported : GoError) (a : Answers) (req : Request) (x : StreamConn)
      (c : Command) (f : Bool)
      → (dial_context net network address d).result ≡ gives x
      → (dial_context net network address d).sent ≡ some c
      → req.cmd ≡ c.cmd
      → tunnel_of (serve_request ob unsupported a req).1 ≡ some f
      → (f ≡ x.framed) ↔ ((starts_with network "udp" ≡ false) ⊎ (network ≡ "udp"))
  framing_agrees_iff ob unsupported a req x c f r s q t =
      let client = dialled_framed x r in
      let server = serve_tunnel ob unsupported a req network f (q ∙ dialled_command c s) t in
      let (agree, same) = names_agree network in
      (λ e. agree (sym server ∙ e ∙ client), λ o. server ∙ same o ∙ sym client)
