-- ===== src/Portmap/Relayed/Laws.antt =====
-- What crosses a relay: nothing before the handshake was accepted, and then the connection's bytes
-- in their order; and what a handshake that fails leaves behind.
use uptp.Common.{
  append-nil, append_assoc, ℕ, ◌≡◌, ◌≢◌, ◌⊎◌, inl, inr, refl, sym, ◌∙◌, arith, none, some, String,
  List, [], ◌∷◌, ◌++◌, Bool, true, false, Option-cases, ◌||◌, text_eq, gives, Answer-cases,
}
use uptp.Common.Int.{pos, int_eq, beq_ℤ_iff}
use text.Mathlib.Text.{get?}
use uptp.Portmap.Handshake.{RspJson, HandshakeRsp, Dialing, relay_handshake}
use uptp.Portmap.Relayed.{
  Conn, no_session, stream_session, GetHandshake, open_relay, on_conn_open, on_conn_data,
  on_conn_close, copy_bytes, copy_ended, close_stream, Event, opened, data_in, data_out,
  stream_ended, closed, step, run,
}

-- No relay runs on the connection.
abbrev pub IsIdle : Conn → Type 0
IsIdle c = (c.session ≢ stream_session) × (c.copying ≡ false)

module _ (json : RspJson) where
  -- A call of `onConnOpen` whose handshake is accepted
  abbrev accepts : Event → Bool
  accepts (opened a) = elim (relay_handshake json a).0 [ none ↦ true | some e ↦ false ]
  accepts _ = false

  abbrev has_accepted : List Event → Bool
  has_accepted [] = false
  has_accepted (e ∷ es) = accepts e || has_accepted es

  -- The peer and its stream were reached, the handshake was written, and the response that was read has the
  -- code 0.
  pub record IsAccepted (a : Dialing) : Type 0 where
    pub peer_decoded : a.decode_peer ≡ none
    pub stream_opened : a.new_stream ≡ none
    pub written : a.write ≡ none
    pub bytes : List ℕ
    pub bytes_read : a.read ≡ gives bytes
    pub rsp : HandshakeRsp
    pub unmarshalled : json.unmarshal bytes ≡ gives rsp
    pub code_zero : rsp.code ≡ pos 0

  -- One of the events is an `onConnOpen` whose handshake was accepted.
  abbrev pub HasAccepted : List Event → Type 0
  HasAccepted [] = ⊥
  HasAccepted (opened a ∷ es) = IsAccepted a ⊎ HasAccepted es
  HasAccepted (_ ∷ es) = HasAccepted es

  relay_handshake-IsAccepted : (a : Dialing) → (relay_handshake json a).0 ≡ none → IsAccepted a
  unfolding relay_handshake
  relay_handshake-IsAccepted a h = elim (Option-cases a.decode_peer) [
    | inr (e, p) ↦ absurd (ground (arith, h, p))
    | inl p ↦ elim (Option-cases a.new_stream) [
      | inr (e, q) ↦ absurd (ground (arith, h, p, q))
      | inl q ↦ elim (Option-cases a.write) [
        | inr (e, w) ↦ absurd (ground (arith, h, p, q, w))
        | inl w ↦ elim (Answer-cases a.read) [
          | inr (e, r) ↦ absurd (ground (arith, h, p, q, w, r))
          | inl (bytes, r) ↦ elim (Answer-cases (json.unmarshal bytes)) [
            | inr (e, u) ↦ absurd (ground (arith, h, p, q, w, r, u))
            | inl (rsp, u) ↦ record {
              peer_decoded = p;
              stream_opened = q;
              written = w;
              bytes = bytes;
              bytes_read = r;
              rsp = rsp;
              unmarshalled = u;
              code_zero = ground (arith, h, p, q, w, r, u, beq_ℤ_iff rsp.code (pos 0));
            }
          ]
        ]
      ]
    ]
  ]

  has_accepted-HasAccepted : (es : List Event) → has_accepted es ≡ true → HasAccepted es
  has_accepted-HasAccepted [] h = absurd (cc h)
  has_accepted-HasAccepted (opened a ∷ es) h = elim (Option-cases (relay_handshake json a).0) [
    | inl p ↦ inl (relay_handshake-IsAccepted a p)
    | inr (e, p) ↦ inr (has_accepted-HasAccepted es (ground (arith, h, p)))
  ]
  has_accepted-HasAccepted (data_in bytes answer ∷ es) h = has_accepted-HasAccepted es h
  has_accepted-HasAccepted (data_out bytes ∷ es) h = has_accepted-HasAccepted es h
  has_accepted-HasAccepted (stream_ended ∷ es) h = has_accepted-HasAccepted es h
  has_accepted-HasAccepted (closed ∷ es) h = has_accepted-HasAccepted es h

  module _ (get_handshake : GetHandshake) where
    open_relay-IsIdle :
        (a : Dialing) (prot : String) (c : Conn)
        → IsIdle c
        → (accepts (opened a) ≡ true)
          ⊎ (IsIdle (open_relay json get_handshake a prot c)
              × (((open_relay json get_handshake a prot c).sent ≡ c.sent)
                  × ((open_relay json get_handshake a prot c).received ≡ c.received)))
    unfolding open_relay
    open_relay-IsIdle a prot c h = ground (arith, h)

    step-IsIdle :
        (e : Event) (c : Conn)
        → IsIdle c
        → (accepts e ≡ true)
          ⊎ (IsIdle (step json get_handshake e c)
              × (((step json get_handshake e c).sent ≡ c.sent)
                  × ((step json get_handshake e c).received ≡ c.received)))
    unfolding step on_conn_open on_conn_data on_conn_close copy_bytes copy_ended
    step-IsIdle (opened a) c h = elim (Option-cases (get? c.network 0 3)) [
      | inl p ↦ ground (arith, h, p)
      | inr (prot, p) ↦ ground (arith, h, p, open_relay-IsIdle a prot c h)
    ]
    step-IsIdle (data_in bytes answer) c h = ground (arith, h)
    step-IsIdle (data_out bytes) c h = ground (arith, h)
    step-IsIdle stream_ended c h = ground (arith, h)
    step-IsIdle closed c h = ground (arith, h)

    nothing_or_accepted :
        (es : List Event) (c : Conn)
        → IsIdle c
        → (has_accepted es ≡ true)
          ⊎ (((run json get_handshake es c).sent ≡ c.sent)
              × ((run json get_handshake es c).received ≡ c.received))
    unfolding run
    nothing_or_accepted [] c h = inr (refl, refl)
    nothing_or_accepted (e ∷ es) c h = elim (step-IsIdle e c h) [
      | inl b ↦ inl (ground (arith, b))
      | inr (i, (s, r)) ↦
          ground (arith, s, r, nothing_or_accepted es (step json get_handshake e c) i)
    ]

    -- Whatever events a connection without a relay sees, where its stream or the connection itself is
    -- given any bytes, one of the events is an `onConnOpen` that reached the peer, wrote the handshake and
    -- read a response with the code 0.
    pub run_needs_handshake :
        (es : List Event) (c : Conn)
        → IsIdle c
        → ((run json get_handshake es c).sent ≢ c.sent)
          ⊎ ((run json get_handshake es c).received ≢ c.received)
        → HasAccepted es
    run_needs_handshake es c h n = elim (nothing_or_accepted es c h) [
      | inl b ↦ has_accepted-HasAccepted es b
      | inr (s, r) ↦ elim n [ inl x ↦ absurd (x s) | inr x ↦ absurd (x r) ]
    ]

-- The bytes that the stream takes: those of the data events up to the first write that fails, or
-- to the end of the stream.
abbrev pub delivered : List Event → List ℕ
delivered [] = []
delivered (data_in bytes none ∷ es) = bytes ++ delivered es
delivered (data_in bytes (some e) ∷ es) = []
delivered (stream_ended ∷ es) = []
delivered (_ ∷ es) = delivered es

abbrev pub is_opened : Event → Bool
is_opened (opened a) = true
is_opened _ = false

abbrev pub has_opened : List Event → Bool
has_opened [] = false
has_opened (e ∷ es) = is_opened e || has_opened es

module _ (json : RspJson) (get_handshake : GetHandshake) where
  idle_step :
      (e : Event) (c : Conn)
      → c.session ≢ stream_session
      → is_opened e ≡ false
      → ((step json get_handshake e c).session ≢ stream_session)
        × ((step json get_handshake e c).sent ≡ c.sent)
  unfolding step on_conn_data on_conn_close copy_bytes copy_ended
  idle_step (opened a) c h n = absurd (cc n)
  idle_step (data_in bytes answer) c h n = ground (arith, h)
  idle_step (data_out bytes) c h n = ground (arith, h)
  idle_step stream_ended c h n = ground (arith, h)
  idle_step closed c h n = ground (arith, h)

  idle_run :
      (es : List Event) (c : Conn)
      → c.session ≢ stream_session
      → has_opened es ≡ false
      → (run json get_handshake es c).sent ≡ c.sent
  unfolding run
  idle_run [] c h n = refl
  idle_run (e ∷ es) c h n =
      let (d, s) = idle_step e c h (ground (arith, n)) in
      idle_run es (step json get_handshake e c) d (ground (arith, n)) ∙ s

  -- On a connection whose relay runs, and over events without another `onConnOpen`, the stream is
  -- given the bytes of the connection in their order, up to the first write that fails or to the
  -- end of the stream.
  pub run-delivered :
      (es : List Event) (c : Conn)
      → c.session ≡ stream_session
      → c.copying ≡ true
      → has_opened es ≡ false
      → (run json get_handshake es c).sent ≡ c.sent ++ delivered es
  unfolding run step on_conn_data on_conn_close copy_bytes copy_ended
  run-delivered [] c s k n = sym (append-nil c.sent)
  run-delivered (opened a ∷ es) c s k n = absurd (cc n)
  run-delivered (data_in bytes none ∷ es) c s k n =
      let later = run-delivered es (record c { sent = c.sent ++ bytes }) s k (ground (arith, n)) in
      ground (arith, s, later, append_assoc c.sent bytes (delivered es))
  run-delivered (data_in bytes (some e) ∷ es) c s k n =
      let ended = record c { session = no_session; is_open = false } in
      ground (arith, s, append-nil c.sent, idle_run es ended (λ x. cc x) (ground (arith, n)))
  run-delivered (data_out bytes ∷ es) c s k n =
      let later =
        run-delivered es (record c { received = c.received ++ bytes }) s k (ground (arith, n)) in
      ground (arith, k, later)
  run-delivered (stream_ended ∷ es) c s k n =
      let ended : Conn = record c {
        session = no_session;
        stream = close_stream c.stream;
        is_open = false;
        copying = false;
      } in
      ground (arith, k, append-nil c.sent, idle_run es ended (λ x. cc x) (ground (arith, n)))
  run-delivered (closed ∷ es) c s k n =
      let later =
        run-delivered es (record c { stream = close_stream c.stream }) s k (ground (arith, n)) in
      ground (arith, s, later)
