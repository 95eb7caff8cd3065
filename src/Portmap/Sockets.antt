-- ===== src/Portmap/Sockets.antt =====
-- The sockets of portmap/portmap.go: `addTCPListener`, `addUDPListener` and `getPort`, which give the answer
-- that Portmap/Listeners takes for a new listener. An address is its text as a list of bytes.
use uptp.Common.{
  ℕ, text_eq, ◌<◌, ◌^◌, ◌≡◌, refl, arith, Bool, true, false, Option, none, some, String, List, [],
  ◌∷◌, ◌++◌, Answer, gives, fails, Bool-cases, Result, ok, err, inl, inr, if◌then◌else◌, ◌==◌,
  nat_eq,
}
use uptp.Common.Int.{ℤ, pos}
use uptp.Common.Decimal.{
  atoi, format_uint, atoi-format_uint, format_uint-AllDigits, AllDigits, nil, cons,
}
use uptp.Socks5.Errors.{contains}
use uptp.Common.GoMap.{lookup, insert}
use uptp.Portmap.Listeners.{Listeners, convert_index, add_listener}

-- A byte before the first part of a text
abbrev onto : ℕ → List (List ℕ) → List (List ℕ)
onto c [] = (c ∷ []) ∷ []
onto c (part ∷ parts) = (c ∷ part) ∷ parts

-- `strings.Split` at a colon
unfoldable pub split_colons : List ℕ → List (List ℕ)
split_colons [] = [] ∷ []
split_colons (c ∷ cs) = let rest = split_colons cs in if c == b':' then [] ∷ rest else onto c rest

-- `getPort` of both kinds of listeners, on the text of the local address
unfoldable pub get_port : List ℕ → ℤ
get_port addr = elim (split_colons addr) [
  | [] ↦ pos 0
  | host ∷ parts ↦ elim parts [
    | [] ↦ pos 0
    | port ∷ more ↦ elim more [ [] ↦ (atoi port).0 | x ∷ xs ↦ pos 0 ]
  ]
]

-- What the system answers: `net.Listen` or `net.ListenUDP` with the local address; for UDP before it
-- `net.ResolveUDPAddr`, and after it `AddConn`.
pub record SocketAnswers : Type 0 where
  pub listen : Answer (List ℕ)
  pub resolve : Option String
  pub add_conn : Option String

-- `addTCPListener`, then `addUDPListener`: the address of the listener, and whether a socket is left open.
unfoldable pub add_tcp_listener : SocketAnswers → Answer (List ℕ) × Bool
add_tcp_listener a = elim a.listen [ fails e ↦ (fails e, false) | gives addr ↦ (gives addr, true) ]

unfoldable pub add_udp_listener : SocketAnswers → Answer (List ℕ) × Bool
add_udp_listener a = elim a.resolve [
  | some e ↦ (fails e, false)
  | none ↦ elim a.listen [
    | fails e ↦ (fails e, false)
    | gives addr ↦ elim a.add_conn [ some e ↦ (fails e, false) | none ↦ (gives addr, true) ]
  ]
]

-- The part of `AddListener` that opens a listener: the port that it returns, and whether a socket is left
-- open.
unfoldable pub open_listener : String → SocketAnswers → Result ℤ × Bool
open_listener network a =
    let (r, left) = if contains network "tcp" then add_tcp_listener a else add_udp_listener a in
    (elim r [ fails e ↦ err e | gives addr ↦ ok (get_port addr) ], left)

-- Whether a text has no colon.
abbrev pub HasNoColon : List ℕ → Type 0
HasNoColon [] = Unit {0}
HasNoColon (c ∷ cs) = ((c == b':') ≡ false) × HasNoColon cs

digits-HasNoColon : (s : List ℕ) → AllDigits s → HasNoColon s
digits-HasNoColon s nil = tt
digits-HasNoColon s (cons d ds h hs) = (ground (arith, h), digits-HasNoColon ds hs)

split_one : (s : List ℕ) → HasNoColon s → split_colons s ≡ s ∷ []
unfolding split_colons
split_one [] h = refl
split_one (c ∷ cs) h = ground (arith, h.0, split_one cs h.1)

split_two :
    (s t : List ℕ) → HasNoColon s → HasNoColon t → split_colons (s ++ (b':' ∷ t)) ≡ s ∷ t ∷ []
unfolding split_colons
split_two [] t h k = ground (arith, split_one t k)
split_two (c ∷ cs) t h k = ground (arith, h.0, split_two cs t h.1 k)

-- A listener on an address whose host has no colon, as one of IPv4 has none, returns the port of its
-- socket.
pub get_port-format_uint :
    (host : List ℕ) (p : ℕ)
    → HasNoColon host
    → p < 2 ^ 63
    → get_port (host ++ (b':' ∷ format_uint p)) ≡ pos p
unfolding get_port
get_port-format_uint host p h small = ground (
  arith,
  split_two host (format_uint p) h (digits-HasNoColon (format_uint p) (format_uint-AllDigits p)),
  atoi-format_uint p small,
)

-- Where no listener is opened, no socket is left open.
pub open_listener_closed :
    (network : String) (a : SocketAnswers) (e : String)
    → (open_listener network a).0 ≡ err e
    → (open_listener network a).1 ≡ false
unfolding open_listener add_tcp_listener add_udp_listener
open_listener_closed network a e h = ground (arith, h)

-- `AddListener` on a key that is not in the table, where the socket opens on a host without a colon: it
-- returns the socket's port, and the listener stands under that port.
pub add_listener-open_listener :
    (network ip : String) (port : ℤ) (a : SocketAnswers) (host : List ℕ) (p : ℕ) (ls : Listeners)
    → lookup (convert_index network ip port) ls ≡ none
    → HasNoColon host
    → p < 2 ^ 63
    → a.listen ≡ gives (host ++ (b':' ∷ format_uint p))
    → a.resolve ≡ none
    → a.add_conn ≡ none
    → add_listener network ip port (open_listener network a).0 ls
      ≡ (ok (pos p), insert (convert_index network ip (pos p)) (pos p) ls)
unfolding add_listener open_listener add_tcp_listener add_udp_listener
add_listener-open_listener network ip port a host p ls new h small l r c =
    let read = get_port-format_uint host p h small in
    elim (Bool-cases (contains network "tcp")) [
      | inl b ↦ ground (arith, new, b, l, read)
      | inr b ↦ ground (arith, new, b, l, r, c, read)
    ]
