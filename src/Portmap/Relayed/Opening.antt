-- ===== src/Portmap/Relayed/Opening.antt =====
-- How `onConnOpen` ends: with a relay, or with a closed connection; and when a stream is left open.
use uptp.Common.{
  live, unopened, was_reset, ap, ◌≡◌, ◌≢◌, ◌↔◌, ◌⊎◌, inl, inr, arith, none, some, String, List, ℕ,
  gives, fails, Answer-cases, Option-cases, text_eq, false, eq_iff,
}
use uptp.Common.Int.{pos, int_eq}
use text.Mathlib.Text.{get?}
use uptp.Portmap.Handshake.{RspJson, HandshakeRsp, Dialing, relay_handshake}
use uptp.Portmap.Relayed.{Conn, no_session, stream_session, GetHandshake, open_relay, on_conn_open}

-- The peer was reached, and answered with a response that says 0.
pub record IsAccepted (json : RspJson) (a : Dialing) : Type 0 where
  pub decoded : a.decode_peer ≡ none
  pub opened : a.new_stream ≡ none
  pub written : a.write ≡ none
  pub rsp : List ℕ
  pub hs_rsp : HandshakeRsp
  pub answered : a.read ≡ gives rsp
  pub parsed : json.unmarshal rsp ≡ gives hs_rsp
  pub code_zero : hs_rsp.code ≡ pos 0

-- The peer was reached, and the write or the read of the handshake failed.
abbrev pub IsLost : Dialing → Type 0
IsLost a =
    (a.decode_peer ≡ none)
    × ((a.new_stream ≡ none) × ((a.write ≢ none) ⊎ ((e : String) × (a.read ≡ fails e))))

module _ (json : RspJson) (a : Dialing) where
  accepted : IsAccepted json a → relay_handshake json a ≡ (none, live)
  unfolding relay_handshake
  accepted h = ground (arith, h.decoded, h.opened, h.written, h.answered, h.parsed, h.code_zero)

  lost : IsLost a → ((relay_handshake json a).0 ≢ none) × ((relay_handshake json a).1 ≡ live)
  unfolding relay_handshake
  lost h = ground (arith, h)

  answered_not_lost :
      (rsp : List ℕ)
      → a.decode_peer ≡ none
      → a.new_stream ≡ none
      → a.write ≡ none
      → a.read ≡ gives rsp
      → (relay_handshake json a ≡ (none, live)) ⊎ ((relay_handshake json a).1 ≡ was_reset)
  unfolding relay_handshake
  answered_not_lost rsp p q r s = ground (arith, p, q, r, s)

  unreached : (a.decode_peer ≢ none) ⊎ (a.new_stream ≢ none) → (relay_handshake json a).1 ≡ unopened
  unfolding relay_handshake
  unreached n = ground (arith, n)

  relay_handshake-IsLost :
      (relay_handshake json a).0 ≢ none → (relay_handshake json a).1 ≡ live → IsLost a
  relay_handshake-IsLost n l = elim (Option-cases a.decode_peer) [
    | inr (e, p) ↦ absurd (ground (arith, p, l, unreached))
    | inl p ↦ elim (Option-cases a.new_stream) [
      | inr (e, q) ↦ absurd (ground (arith, q, l, unreached))
      | inl q ↦ elim (Option-cases a.write) [
        | inr (e, r) ↦ (p, (q, inl (λ z. cc (r, z))))
        | inl r ↦ elim (Answer-cases a.read) [
          | inr (e, s) ↦ (p, (q, inr (e, s)))
          | inl (rsp, s) ↦ elim (answered_not_lost rsp p q r s) [
            | inl x ↦ absurd (n (ap (λ y. y.0) x))
            | inr x ↦ absurd (cc (l, x))
          ]
        ]
      ]
    ]
  ]

  -- A handshake that fails leaves a stream that nobody closes exactly if the stream was opened and
  -- the write or the read on it failed.
  pub relay_handshake_leaks_iff :
      (((relay_handshake json a).0 ≢ none) × ((relay_handshake json a).1 ≡ live)) ↔ IsLost a
  relay_handshake_leaks_iff = (λ (n, l). relay_handshake-IsLost n l, lost)

  is_accepted : (relay_handshake json a).0 ≡ none → IsAccepted json a
  unfolding relay_handshake
  is_accepted h = elim (Option-cases a.decode_peer) [
    | inr (e, p) ↦ absurd (ground (arith, p, h))
    | inl p ↦ elim (Option-cases a.new_stream) [
      | inr (e, q) ↦ absurd (ground (arith, p, q, h))
      | inl q ↦ elim (Option-cases a.write) [
        | inr (e, r) ↦ absurd (ground (arith, p, q, r, h))
        | inl r ↦ elim (Answer-cases a.read) [
          | inr (e, s) ↦ absurd (ground (arith, p, q, r, s, h))
          | inl (rsp, s) ↦ elim (Answer-cases (json.unmarshal rsp)) [
            | inr (e, u) ↦ absurd (ground (arith, p, q, r, s, u, h))
            | inl (hs, u) ↦ record {
              decoded = p;
              opened = q;
              written = r;
              rsp = rsp;
              hs_rsp = hs;
              answered = s;
              parsed = u;
              code_zero = ground (arith, p, q, r, s, u, h);
            }
          ]
        ]
      ]
    ]
  ]

  module _ (get_handshake : GetHandshake) (c : Conn) where
    -- The connection is of a known network, an app knows its port, and the app's peer accepts.
    abbrev pub IsRelayable : Type 0
    IsRelayable =
        (prot : String) × ((get? c.network 0 3 ≡ some prot)
          × (((prot ≡ "tcp") ⊎ (prot ≡ "udp"))
              × (((get_handshake prot c.ip c.port).0 ≢ "")
                  × (((get_handshake prot c.ip c.port).1 ≢ none) × IsAccepted json a))))

    relayable :
        c.session ≡ no_session
        → IsRelayable
        → (on_conn_open json get_handshake a c).session ≡ stream_session
    unfolding on_conn_open open_relay
    relayable e (prot, (p, (n, (i, (h, acc))))) = ground (
      arith,
      e,
      p,
      n,
      i,
      h,
      accepted acc,
      eq_iff prot "tcp",
      eq_iff prot "udp",
      eq_iff (get_handshake prot c.ip c.port).0 "",
    )

    opens_relay :
        (prot : String)
        → c.session ≡ no_session
        → (open_relay json get_handshake a prot c).session ≡ stream_session
        → ((get_handshake prot c.ip c.port).0 ≢ "")
          × (((get_handshake prot c.ip c.port).1 ≢ none) × ((relay_handshake json a).0 ≡ none))
    unfolding open_relay
    opens_relay prot s h = ground (arith, s, h, eq_iff (get_handshake prot c.ip c.port).0 "")

    relayed :
        c.session ≡ no_session
        → (on_conn_open json get_handshake a c).session ≡ stream_session
        → IsRelayable
    unfolding on_conn_open
    relayed s h = elim (Option-cases (get? c.network 0 3)) [
      | inl p ↦ absurd (ground (arith, s, p, h))
      | inr (prot, p) ↦
          let known : (prot ≡ "tcp") ⊎ (prot ≡ "udp") =
            ground (arith, s, p, h, eq_iff prot "tcp", eq_iff prot "udp") in
          let opened : (open_relay json get_handshake a prot c).session ≡ stream_session =
            ground (arith, s, p, h) in
          let (i, (b, x)) = opens_relay prot s opened in
          (prot, (p, (known, (i, (b, is_accepted x)))))
    ]

    open_ends :
        (prot : String)
        → ((open_relay json get_handshake a prot c).session ≡ stream_session)
          ⊎ ((open_relay json get_handshake a prot c).is_open ≡ false)
    unfolding open_relay
    open_ends prot = ground arith

    ends :
        c.session ≡ no_session
        → ((on_conn_open json get_handshake a c).session ≡ stream_session)
          ⊎ ((on_conn_open json get_handshake a c).is_open ≡ false)
    unfolding on_conn_open
    ends s = elim (Option-cases (get? c.network 0 3)) [
      | inl p ↦ ground (arith, s, p)
      | inr (prot, p) ↦ ground (arith, s, p, open_ends prot)
    ]

    -- `onConnOpen` of a connection without a session starts a relay exactly if its network is known,
    -- an app gives a handshake and a peer for its port, and the peer accepts the handshake; otherwise
    -- it closes the connection.
    pub on_conn_open_iff :
        c.session ≡ no_session
        → (((on_conn_open json get_handshake a c).session ≡ stream_session) ↔ IsRelayable)
          × (((on_conn_open json get_handshake a c).session ≡ stream_session)
              ⊎ ((on_conn_open json get_handshake a c).is_open ≡ false))
    on_conn_open_iff s = ((relayed s, relayable s), ends s)
