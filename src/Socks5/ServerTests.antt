-- ===== src/Socks5/ServerTests.antt =====
-- The server of package socks5, run: its datagrams, its negotiation and its requests.
use uptp.Common.{
  ℕ, ◌≡◌, ◌≢◌, ◌↔◌, ◌⊎◌, inl, inr, arith, refl, none, some, String, List, [], ◌∷◌, Bool, true,
  false, ◌==◌, nat_eq,
}
use uptp.Common.GoMap.{insert, lookup}
use uptp.Socks5.Datagram.{Addr}
use uptp.Socks5.Errors.{GoError, done, other}
use uptp.Socks5.Negotiate.{
  UserPass, Dialogue, passed, socks5_precheck, socks5_negotiate, socks5_auth,
}
use uptp.Socks5.Negotiate.Laws.{IsAuthenticated, IsDelivered, socks5_negotiate_iff}
use uptp.Socks5.Request.{Request, Dialer, Answers, socks5_request_connect}
use uptp.Socks5.Request.Laws.{IsAnswered, is_ordered, socks5_request_connect-IsAnswered}
use uptp.Socks5.Request.Served.{IsAdmitted, IsSwallowed, served, handler_serves_iff}

abbrev one_byte : List ℕ
one_byte = 1 ∷ []

abbrev zeros : List ℕ
zeros = 0 ∷ 0 ∷ 0 ∷ 0 ∷ 0 ∷ 0 ∷ []

abbrev zero_addr : Addr
zero_addr = record { atyp = 1; addr = 0 ∷ 0 ∷ 0 ∷ 0 ∷ []; port = 0 ∷ 0 ∷ [] }

abbrev peer : String
peer = "peer"

abbrev takes_42 : ℕ → Bool
takes_42 t = t == 42

abbrev password : UserPass
password = record { plen = 8; passwd = 42 ∷ 0 ∷ 0 ∷ 0 ∷ 0 ∷ 0 ∷ 0 ∷ 0 ∷ [] }

abbrev wrong : UserPass
wrong = record { plen = 8; passwd = 41 ∷ 0 ∷ 0 ∷ 0 ∷ 0 ∷ 0 ∷ 0 ∷ 0 ∷ [] }

abbrev polite : Dialogue
polite = record {
  request = none;
  write_method = none;
  user_pass = done password;
  write_status = none;
}

abbrev refusal : GoError
refusal = other "Invalid Username or Password for Auth"

socks5_negotiate_iff_example :
    ((socks5_negotiate takes_42 refusal true peer polite []).0 ≡ passed) ↔ (
      IsDelivered takes_42 refusal peer polite true
      × IsAuthenticated takes_42 refusal peer polite true)
socks5_negotiate_iff_example = socks5_negotiate_iff takes_42 refusal peer polite true []

peer_remembered :
    socks5_precheck peer (socks5_negotiate takes_42 refusal true peer polite []).1.1 ≡ false
unfolding socks5_precheck socks5_negotiate socks5_auth insert lookup
peer_remembered = refl

abbrev internet : Dialer
internet = record { dial = λ n a. done "10.0.0.2:5"; dial_udp = λ n a. done "10.0.0.2:6" }

abbrev unsupported : GoError
unsupported = other "Unsupport Command"

abbrev calm : Answers
calm = record {
  parse_address = none;
  write_reply = none;
  write_again = none;
  tunnel = none;
  resolve = none;
  listen = done "0.0.0.0:7";
}

abbrev connect : Request
connect = record { cmd = 1; atyp = 1; address = "1.1.1.1:80" }

socks5_request_connect-IsAnswered_example :
    IsAnswered internet unsupported calm 1
      (socks5_request_connect internet unsupported calm (done connect)).1
    × (is_ordered false false (socks5_request_connect internet unsupported calm (done connect)).1
        ≡ true)
socks5_request_connect-IsAnswered_example =
    socks5_request_connect-IsAnswered internet unsupported calm connect refl

-- A peer with a wrong password that has closed its end for reading.
abbrev deaf : Dialogue
deaf = record polite { user_pass = done wrong; write_status = some (other "stream reset") }

handler_serves_iff_example :
    (served takes_42 refusal peer deaf [] internet unsupported calm (done connect) ≢ none)
    ↔ (IsAdmitted takes_42 refusal peer deaf [] ⊎ IsSwallowed takes_42 refusal peer deaf [])
handler_serves_iff_example =
    handler_serves_iff takes_42 refusal peer deaf [] internet unsupported calm (done connect)

-- It is served nevertheless.
deaf_served : IsSwallowed takes_42 refusal peer deaf []
unfolding lookup
deaf_served = (
  other "stream reset",
  (
    inr (refl, inr (refl, ((λ k. cc k), inr (wrong, (refl, (inr (omega arith), inl refl)))))),
    inr (inl refl),
  ),
)
