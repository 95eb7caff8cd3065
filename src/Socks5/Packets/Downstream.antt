-- ===== src/Socks5/Packets/Downstream.antt =====
-- From the server's socket to a client's packet connection: what the loop of Socks5/Packets writes,
-- `ReadFrom` of Socks5/PacketConn reads.
use uptp.Common.{
  ℕ, ◌≤◌, ◌≡◌, none, some, inl, inr, refl, arith, String, List, [], ◌∷◌, ◌++◌, append_assoc, subst,
  sym, gives, fails, Answer-cases, ok, err, panic, Result-cases, Option-cases, Bool-cases, length,
  length-append, length-drop, drop, if◌then◌else◌, map,
}
use uptp.Socks5.Datagram.{AddrCodec, IsExact, write_to}
use uptp.Socks5.Framed.{socks5_write_to, socks5_read_from, packet_length}
use uptp.Socks5.Framed.Laws.{read-write_fitting, read_keeps_buffer}
use uptp.Socks5.PacketConn.{Datagram, packet_conn_read_from, read_each}
use uptp.Socks5.Packets.{Round, forward_down}

module _ (codec : AddrCodec) where
  -- What the client can count on: the datagrams of the rounds before the first one that is stopped,
  -- that receives nothing or whose datagram is not written whole.
  abbrev pub accepted : List Round → List Datagram
  accepted [] = []
  accepted (r ∷ rounds) = if r.stopped then [] else elim r.received [
    | fails e ↦ []
    | gives d ↦ elim (socks5_write_to codec d.0 d.1) [
      | err e ↦ []
      | panic ↦ []
      | ok sent ↦ elim r.cut [ some n ↦ [] | none ↦ d ∷ accepted rounds ]
    ]
  ]

  -- Each address is one that the codec reads back, and each packet fits in a buffer of this size.
  abbrev pub AreReadable : ℕ → List Datagram → Type 0
  AreReadable size [] = Unit {0}
  AreReadable size (d ∷ ds) =
      IsExact codec d.1 × (packet_length codec d.0 d.1 ≤ size) × AreReadable size ds

  payload_fits :
      (p : List ℕ) (to : String) (sent : List ℕ) (size : ℕ)
      → socks5_write_to codec p to ≡ ok sent
      → packet_length codec p to ≤ size
      → length p ≤ size
  unfolding socks5_write_to write_to
  payload_fits p to sent size h fits = elim (Answer-cases (codec.parse_address to)) [
    | inr (e, q) ↦ absurd (ground (arith, q, h))
    | inl (a, q) ↦ ground (arith, q, fits)
  ]

  -- One datagram, read by the client
  read_one :
      (buf p : List ℕ) (from : String) (sent rest : List ℕ)
      → IsExact codec from
      → packet_length codec p from ≤ length buf
      → socks5_write_to codec p from ≡ ok sent
      → ((packet_conn_read_from codec buf (sent ++ rest)).0 ≡ ok (p, from))
        × ((packet_conn_read_from codec buf (sent ++ rest)).1 ≡ rest)
        × (length (packet_conn_read_from codec buf (sent ++ rest)).2 ≡ length buf)
  unfolding packet_conn_read_from
  read_one buf p from sent rest c fits h =
      let (got, left) = read-write_fitting codec buf p from sent rest c fits h in
      let after = (socks5_read_from codec buf (sent ++ rest)).2 in
      let kept : length after ≡ length buf = read_keeps_buffer codec buf (sent ++ rest) in
      let small = payload_fits p from sent (length buf) h fits in
      (
        got,
        left,
        rw got (
            omega (
              arith,
              kept,
              small,
              length-append p (drop (length p) after),
              length-drop (length p) after,
            )),
      )

  -- The datagrams that the loop of the server took from its socket and wrote whole are what as many
  -- reads of a client's packet connection return, in their order, each with its payload and the
  -- address that it came from, where the codec is exact at the address and each packet fits in the
  -- client's buffer; whatever comes on the stream after them.
  pub read_each-forward_down :
      (rounds : List Round) (buf tail : List ℕ)
      → AreReadable (length buf) (accepted rounds)
      → read_each codec (length (accepted rounds)) buf (forward_down codec rounds ++ tail)
        ≡ map ok (accepted rounds)
  unfolding forward_down read_each
  read_each-forward_down [] buf tail h = refl
  read_each-forward_down (r ∷ rounds) buf tail h = elim (Bool-cases r.stopped) [
    | inl b ↦ ground (arith, b)
    | inr b ↦ elim (Answer-cases r.received) [
      | inr (e, q) ↦ ground (arith, b, q)
      | inl (d, q) ↦ elim (Result-cases (socks5_write_to codec d.0 d.1)) [
        | inr (inl (e, w)) ↦ ground (arith, b, q, w)
        | inr (inr w) ↦ ground (arith, b, q, w)
        | inl (sent, w) ↦ elim (Option-cases r.cut) [
          | inr (n, c) ↦ ground (arith, b, q, w, c)
          | inl c ↦
              let all : accepted (r ∷ rounds) ≡ d ∷ accepted rounds = ground (arith, b, q, w, c) in
              let bytes : forward_down codec (r ∷ rounds) ≡ sent ++ forward_down codec rounds =
                ground (arith, b, q, w, c) in
              let fits = subst (AreReadable (length buf)) all h in
              let rest = forward_down codec rounds ++ tail in
              let (got, left, kept) = read_one buf d.0 d.1 sent rest fits.0 fits.1 w in
              let after = (packet_conn_read_from codec buf (sent ++ rest)).2 in
              let ih =
                read_each-forward_down rounds after tail
                  (subst (λ n. AreReadable n (accepted rounds)) (sym kept) fits.2) in
              rw (all, bytes, append_assoc sent (forward_down codec rounds) tail, left, got, ih)
        ]
      ]
    ]
  ]
