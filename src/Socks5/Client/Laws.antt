-- ===== src/Socks5/Client/Laws.antt =====
-- What a dial leaves behind, whether both ends frame alike, and which requests a server can read.
use uptp.Common.{
  ◌≡◌, ◌≢◌, ◌↔◌, inl, inr, arith, Bool, true, false, none, some, String, nat_eq, text_eq, ltb,
  Answer, gives, fails, Answer-cases, Option-cases, live,
}
use Prim.Native.String.{len}
use uptp.Socks5.Client.{
  Net, Command, Dialogue, StreamConn, Dialled, authenticate, negotiate, exchange, dial_context,
  dial_udp, gave_up, method_username_password,
}

-- A call failed and left its stream open.
abbrev pub leaks : Dialled → Bool
leaks d = elim d.stream [ live ↦ elim d.result [ gives c ↦ false | fails e ↦ true ] | _ ↦ false ]

module _ (net : Net) where
  -- The server asked for a user name and a password, and the authentication failed.
  abbrev pub IsRefused : Dialogue → Type 0
  IsRefused d =
      (d.new_stream ≡ none)
      × ((d.write_methods ≡ none)
          × ((d.method ≡ gives method_username_password) × ((authenticate net d).0 ≢ none)))

  authenticate_live : (d : Dialogue) → (authenticate net d).1 ≡ live
  unfolding authenticate
  authenticate_live d = ground arith

  negotiate_leaks :
      (allow_none : Bool) (d : Dialogue)
      → (negotiate net allow_none d).0 ≢ none
      → (negotiate net allow_none d).1 ≡ live
      → IsRefused d
  unfolding negotiate
  negotiate_leaks allow_none d n l = elim (Option-cases d.new_stream) [
    | inr (e, p) ↦ absurd (ground (arith, l, p))
    | inl p ↦ elim (Option-cases d.write_methods) [
      | inr (e, q) ↦ absurd (ground (arith, l, p, q))
      | inl q ↦ elim (Answer-cases d.method) [
        | inr (e, m) ↦ absurd (ground (arith, l, p, q, m))
        | inl (m, a) ↦ ground (arith, n, l, p, q, a)
      ]
    ]
  ]

  negotiate_refused :
      (allow_none : Bool) (d : Dialogue)
      → IsRefused d
      → ((negotiate net allow_none d).0 ≢ none) × ((negotiate net allow_none d).1 ≡ live)
  unfolding negotiate
  negotiate_refused allow_none d r = ground (arith, r, authenticate_live d)

  leaks-exchange :
      (conn : String → StreamConn) (c : Answer Command) (d : Dialogue)
      → leaks (exchange net conn c d) ≡ false
  unfolding exchange
  leaks-exchange conn c d = ground arith

  -- What both calls do after the test of the network's name.
  abbrev then_exchange : Bool → Dialled → Dialogue → Dialled
  then_exchange allow_none rest d =
      let (e, s) = negotiate net allow_none d in elim e [ some x ↦ gave_up x s | none ↦ rest ]

  leaks-then_exchange :
      (allow_none : Bool) (rest : Dialled) (d : Dialogue)
      → leaks rest ≡ false
      → (leaks (then_exchange allow_none rest d) ≡ true) ↔ IsRefused d
  leaks-then_exchange allow_none rest d r = elim (Option-cases (negotiate net allow_none d).0) [
    | inl p ↦ (
      λ l. absurd (ground (arith, l, p, r)),
      λ x. absurd ((negotiate_refused allow_none d x).0 p),
    )
    | inr (e, p) ↦ (
      λ l. negotiate_leaks allow_none d (λ z. cc (p, z)) (ground (arith, l, p)),
      λ x. ground (arith, p, (negotiate_refused allow_none d x).1),
    )
  ]

  -- A call of `dialContext`, and one of `DialUDP`, on a network name of at least three bytes fails and
  -- leaves its stream open exactly if the server asked for a user name and a password and the
  -- exchange of these failed.
  pub dial_leaks_iff :
      (network address : String) (d : Dialogue)
      → ltb (len network) 3 ≡ false
      → ((leaks (dial_context net network address d) ≡ true) ↔ IsRefused d)
        × ((leaks (dial_udp net network address d) ≡ true) ↔ IsRefused d)
  unfolding dial_context dial_udp
  dial_leaks_iff network address d h = rw h (
    leaks-then_exchange true _ d (leaks-exchange _ _ d),
    leaks-then_exchange false _ d (leaks-exchange _ _ d),
  )
