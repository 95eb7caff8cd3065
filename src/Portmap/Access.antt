-- ===== src/Portmap/Access.antt =====
-- Whom a gateway connects: `handleUptpStream` with the gateway's `handlePortmapHandshake`
-- (gateway/gateway.go) as its handshake function.
use uptp.Common.{
  ℕ, ◌≡◌, ◌∙◌, ap, Bool, true, none, some, List, [], ◌∷◌, Result, ok, err, inl, inr, if◌then◌else◌,
  ◌==◌, text_eq,
}
use uptp.Common.{arith, Answer, gives, fails, Answer-cases, String}
use uptp.Common.Int.{pos}
use uptp.Common.Decimal.{format_int}
use Prim.Native.String.{◌++◌ as append}
use uptp.Gateway.PortmapResource.{PortmapResMgr}
use uptp.Gateway.ResourceApi.{Target, PortmapAppHandshake, handle_portmap_handshake}
use uptp.Gateway.ResourceApi.Laws.{IsKeyed, Reaches, handle_portmap_handshake_iff}
use uptp.Portmap.Handshake.{
  RspJson, Serving, Action, dialled, wrote, registered, forwarded, stream_closed, conn_closed, dial,
  host_port, handle_uptp_stream,
}
use uptp.Portmap.Served.{forwards, forwards_iff, opened_log}

-- The handshake function of a gateway; `decode` is `json.Unmarshal`.
abbrev pub resource_handshake :
    {D : Type 0}
    → Bool
    → (List ℕ → Answer PortmapAppHandshake)
    → PortmapResMgr D
    → List ℕ
    → Result Target
resource_handshake trial decode m bytes = elim (decode bytes) [
  | fails e ↦ (handle_portmap_handshake trial (err e) m).0
  | gives hs ↦ (handle_portmap_handshake trial (ok hs) m).0
]

-- What a gateway does that connects a peer to a target: it dials the target's address, over TCP where the
-- target's network is tcp and else over UDP; it answers the peer, registers the connection, and forwards
-- bytes; it closes both.
abbrev pub connection_log : Target → List ℕ → List ℕ → List Action
connection_log t rsp copied =
    dialled (if t.network == "tcp" then "tcp" else "udp")
      (append t.addr (append ":" (format_int t.port)))
    ∷ wrote rsp none
    ∷ registered
    ∷ forwarded copied
    ∷ stream_closed
    ∷ conn_closed
    ∷ []

-- The network and the address of a target that was dialled
dialled_to :
    (t : Target) (a : Serving) (n addr : String)
    → dial t a ≡ gives (n, addr)
    → dialled n addr
      ≡ dialled
          (if t.network == "tcp" then "tcp" else "udp")
          (append t.addr (append ":" (format_int t.port)))
unfolding dial host_port
dialled_to t a n addr h = ground arith

module _ {D : Type 0} (m : PortmapResMgr D) (trial : Bool) where
  -- The peer sent a handshake, and the target is one that this handshake reaches.
  pub record IsReached (decode : List ℕ → Answer PortmapAppHandshake) (a : Serving) (t : Target)
      : Type 0 where
    pub bytes : List ℕ
    pub hs : PortmapAppHandshake
    pub sent : a.read ≡ gives bytes
    pub decoded : decode bytes ≡ gives hs
    pub reached : Reaches trial hs m t

  module _ (keyed : IsKeyed m) (decode : List ℕ → Answer PortmapAppHandshake) where
    handled-IsReached :
        (a : Serving) (bytes : List ℕ) (t : Target)
        → a.read ≡ gives bytes
        → resource_handshake trial decode m bytes ≡ ok t
        → IsReached decode a t
    unfolding handle_portmap_handshake
    handled-IsReached a bytes t r h = elim (Answer-cases (decode bytes)) [
      | inr (e, p) ↦ absurd (ground (arith, p, h))
      | inl (hs, p) ↦ record {
        bytes = bytes;
        hs = hs;
        sent = r;
        decoded = p;
        reached = (handle_portmap_handshake_iff trial hs m keyed t).0 (ground (arith, p, h));
      }
    ]

    -- Where every resource stands under its own id, a gateway that forwards a stream has dialled first the
    -- address of a target that the peer's handshake reaches, over TCP where the target's network is tcp and
    -- else over UDP, has then written its response with code 0, has registered and forwarded that one
    -- connection, and has closed the stream and the connection; it has done nothing else.
    pub forwards-IsReached :
        (json : RspJson) (a : Serving)
        → forwards (handle_uptp_stream json (resource_handshake trial decode m) a) ≡ true
        → (t : Target) × ((rsp : List ℕ) × (IsReached decode a t
              × ((json.marshal (record { code = pos 0; msg = "ok" }) ≡ some rsp)
                  × (handle_uptp_stream json (resource_handshake trial decode m) a
                      ≡ connection_log t rsp a.copied))))
    forwards-IsReached json a h =
        let (t, (n, (rsp, o))) = (forwards_iff json (resource_handshake trial decode m) a).0 h in
        let log = opened_log json (resource_handshake trial decode m) a t n rsp o in
        (
          t,
          (
            rsp,
            (
              handled-IsReached a o.handshake t o.handshake_read o.handshake_handled,
              (
                o.marshalled,
                log
                    ∙ ap
                        (λ d.
                          d
                          ∷ wrote rsp none
                          ∷ registered
                          ∷ forwarded a.copied
                          ∷ stream_closed
                          ∷ conn_closed
                          ∷ [])
                        (dialled_to t a n (host_port t) o.target_dialled),
              ),
            ),
          ),
        )
