-- ===== src/Portmap/Served.antt =====
-- What `handleUptpStream` leaves behind, and to whom it connects a peer.
use uptp.Common.{
  ℕ, ◌≡◌, ◌≢◌, ◌↔◌, ◌⊎◌, inl, inr, refl, ap, arith, none, some, String, List, [], ◌∷◌, Bool, true,
  false, gives, fails, Answer-cases, Result, ok, err, panic, Result-cases, Option-cases,
  text_beq_ne, ◌∙◌, ◌==◌, text_eq, ◌+◌,
}
use uptp.Common.Int.{pos}
use uptp.Portmap.Handshake.{
  RspJson, Serving, Action, wrote, stream_closed, dialled, registered, forwarded, conn_closed,
  host_port, dial, refuse, relay, handle_uptp_stream,
}
use uptp.Gateway.ResourceApi.{Target}

-- How often the stream was closed, less nothing; and connections dialled and closed.
abbrev pub closes : List Action → ℕ
closes [] = 0
closes (stream_closed ∷ l) = 1 + closes l
closes (_ ∷ l) = closes l

abbrev pub dials : List Action → ℕ
dials [] = 0
dials (dialled _ _ ∷ l) = 1 + dials l
dials (_ ∷ l) = dials l

abbrev pub hang_ups : List Action → ℕ
hang_ups [] = 0
hang_ups (conn_closed ∷ l) = 1 + hang_ups l
hang_ups (_ ∷ l) = hang_ups l

abbrev pub forwards : List Action → Bool
forwards [] = false
forwards (forwarded _ ∷ l) = true
forwards (_ ∷ l) = forwards l

-- The stream is closed once, and of the connections, `n` earlier ones too, each is closed once.
abbrev pub IsReleased : ℕ → List Action → Type 0
IsReleased n l = (closes l ≡ 1) × (dials l + n ≡ hang_ups l)

module _ (json : RspJson) where
  refuse-IsReleased :
      (msg : String) (a : Serving) → (msg == "") ≡ false → IsReleased 0 (refuse json msg a)
  unfolding refuse
  refuse-IsReleased msg a n = ground (arith, n)

  relay-IsReleased : (a : Serving) → IsReleased 1 (relay json a)
  unfolding relay
  relay-IsReleased a = ground (
    arith,
    refuse-IsReleased "unexpected connection failed" a refl,
    refuse-IsReleased "marshal rsp failed" a refl,
  )

  dial_message :
      (t : Target) (a : Serving) (e : String)
      → dial t a ≡ fails e
      → (e ≡ "connect target addr failed") ⊎ (e ≡ "resolve target addr failed")
  unfolding dial
  dial_message t a e h = ground arith

  unreached-IsReleased :
      (t : Target) (a : Serving) (e : String) → dial t a ≡ fails e → IsReleased 0 (refuse json e a)
  unreached-IsReleased t a e h = elim (dial_message t a e h) [
    | inl p ↦ rw p (refuse-IsReleased "connect target addr failed" a refl)
    | inr p ↦ rw p (refuse-IsReleased "resolve target addr failed" a refl)
  ]

  module _ (handle : List ℕ → Result Target) where
    -- Unless the handshake function panics, or fails with an empty text, the stream is closed exactly
    -- once, and every connection that was dialled is closed exactly once.
    pub handle_uptp_stream-IsReleased :
        (a : Serving)
        → ((hs : List ℕ) → a.read ≡ gives hs → (handle hs ≢ panic) × (handle hs ≢ err ""))
        → IsReleased 0 (handle_uptp_stream json handle a)
    unfolding handle_uptp_stream
    handle_uptp_stream-IsReleased a h = elim (Answer-cases a.read) [
      | inr (e, p) ↦ ground (arith, p)
      | inl (hs, p) ↦ elim (Result-cases (handle hs)) [
        | inr (inr q) ↦ absurd ((h hs p).0 q)
        | inr (inl (e, q)) ↦
            let named = text_beq_ne e "" (λ z. (h hs p).1 (q ∙ ap err z)) in
            ground (arith, p, q, refuse-IsReleased e a named)
        | inl (t, q) ↦ elim (Answer-cases (dial t a)) [
          | inr (e, r) ↦ ground (arith, p, q, r, unreached-IsReleased t a e r)
          | inl (d, r) ↦ ground (arith, p, q, r, relay-IsReleased a)
        ]
      ]
    ]

    -- Everything that a relay needs: a handshake that names a target, a connection to it, and a
    -- response with code 0 that reaches the peer.
    pub record IsOpened (a : Serving) (t : Target) (n : String) (rsp : List ℕ) : Type 0 where
      pub handshake : List ℕ
      pub handshake_read : a.read ≡ gives handshake
      pub handshake_handled : handle handshake ≡ ok t
      pub target_dialled : dial t a ≡ gives (n, host_port t)
      pub wrapped : a.wrap ≡ none
      pub marshalled : json.marshal (record { code = pos 0; msg = "ok" }) ≡ some rsp
      pub written : a.write ≡ none

    abbrev pub full_log : Serving → Target → String → List ℕ → List Action
    full_log a t n rsp =
        dialled n (host_port t)
        ∷ wrote rsp none
        ∷ registered
        ∷ forwarded a.copied
        ∷ stream_closed
        ∷ conn_closed
        ∷ []

    pub opened_log :
        (a : Serving) (t : Target) (n : String) (rsp : List ℕ)
        → IsOpened a t n rsp
        → handle_uptp_stream json handle a ≡ full_log a t n rsp
    unfolding handle_uptp_stream relay
    opened_log a t n rsp o = ground (
      arith, o.handshake_read, o.handshake_handled, o.target_dialled, o.wrapped, o.marshalled,
      o.written,
    )

    refuse-forwards : (msg : String) (a : Serving) → forwards (refuse json msg a) ≡ false
    unfolding refuse
    refuse-forwards msg a = ground arith

    dial_address :
        (t : Target) (a : Serving) (n addr : String)
        → dial t a ≡ gives (n, addr)
        → addr ≡ host_port t
    unfolding dial
    dial_address t a n addr h = ground arith

    relay-forwards :
        (a : Serving)
        → forwards (relay json a) ≡ true
        → (a.wrap ≡ none)
          × (a.write ≡ none)
          × ((rsp : List ℕ) × (json.marshal (record { code = pos 0; msg = "ok" }) ≡ some rsp))
    unfolding relay
    relay-forwards a h = elim (Option-cases a.wrap) [
      | inr (e, p) ↦ absurd (ground (arith, p, h, refuse-forwards "unexpected connection failed" a))
      | inl p ↦ elim (Option-cases (json.marshal (record { code = pos 0; msg = "ok" }))) [
        | inl q ↦ absurd (ground (arith, p, q, h, refuse-forwards "marshal rsp failed" a))
        | inr (rsp, q) ↦ elim (Option-cases a.write) [
          | inr (e, r) ↦ absurd (ground (arith, p, q, r, h))
          | inl r ↦ (p, r, (rsp, q))
        ]
      ]
    ]

    forwards-IsOpened :
        (a : Serving)
        → forwards (handle_uptp_stream json handle a) ≡ true
        → (t : Target) × ((n : String) × ((rsp : List ℕ) × IsOpened a t n rsp))
    unfolding handle_uptp_stream
    forwards-IsOpened a h = elim (Answer-cases a.read) [
      | inr (e, p) ↦ absurd (ground (arith, p, h))
      | inl (hs, p) ↦ elim (Result-cases (handle hs)) [
        | inr (inr q) ↦ absurd (ground (arith, p, q, h))
        | inr (inl (e, q)) ↦ absurd (ground (arith, p, q, h, refuse-forwards e a))
        | inl (t, q) ↦ elim (Answer-cases (dial t a)) [
          | inr (e, r) ↦ absurd (ground (arith, p, q, r, h, refuse-forwards e a))
          | inl ((n, addr), r) ↦
              let (w, v, (rsp, m)) = relay-forwards a (ground (arith, p, q, r, h)) in
              (
                t,
                (
                  n,
                  (
                    rsp,
                    record {
                      handshake = hs;
                      handshake_read = p;
                      handshake_handled = q;
                      target_dialled = r ∙ ap (λ x. gives (n, x)) (dial_address t a n addr r);
                      wrapped = w;
                      marshalled = m;
                      written = v;
                    },
                  ),
                ),
              )
        ]
      ]
    ]

    -- A stream is forwarded to a connection exactly if the handshake was read and names a target,
    -- the target was dialled and wrapped, and the response with code 0 was written.
    pub forwards_iff :
        (a : Serving)
        → (forwards (handle_uptp_stream json handle a) ≡ true)
          ↔ ((t : Target) × ((n : String) × ((rsp : List ℕ) × IsOpened a t n rsp)))
    forwards_iff a =
        (forwards-IsOpened a, λ (t, (n, (rsp, o))). ap forwards (opened_log a t n rsp o))
