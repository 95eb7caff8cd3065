-- ===== src/Socks5/PacketsTests.antt =====
-- The datagrams of package socks5, run: the two loops of a packet connection and both ends of it.
use uptp.Common.{
  ℕ, ◌≡◌, ◌≢◌, ◌↔◌, refl, none, some, String, List, [], ◌∷◌, ◌++◌, true, false, Answer, gives,
  fails, ok, arith, map,
}
use uptp.Socks5.Datagram.{Addr, AddrCodec, IsExact, write_to}
use uptp.Socks5.Packet.{write}
use uptp.Socks5.Framed.{socks5_write_to}
use uptp.Socks5.PacketConn.{Datagram, packet_conn_write_to, write_each, read_each}
use uptp.Socks5.Packets.{
  Round, ended, crashed, starved, zeros, buffer_size, forward_up, relay_up, forward_down,
}
use uptp.Socks5.Packets.Laws.{forward_up_ends}
use uptp.Socks5.Packets.Upstream.{resolved, oversized, relay_up-write_each, relay_up_crashes_iff}
use uptp.Socks5.Packets.Downstream.{accepted, read_each-forward_down}

-- A codec that knows one IPv4 address.
abbrev home : Addr
home = record { atyp = 1; addr = 10 ∷ 0 ∷ 0 ∷ 1 ∷ []; port = 0 ∷ 80 ∷ [] }

abbrev parse_bytes : List ℕ → Answer Addr
parse_bytes (t ∷ a ∷ b ∷ c ∷ d ∷ p ∷ q ∷ rest) =
    gives (record { atyp = t; addr = a ∷ b ∷ c ∷ d ∷ []; port = p ∷ q ∷ [] })
parse_bytes _ = fails "invalid address"

abbrev one_address : AddrCodec
one_address = record {
  parse_bytes = parse_bytes;
  parse_address = λ to. gives home;
  to_address = λ a. "10.0.0.1:80";
}

home_is : (a : Addr) → gives home ≡ gives a → home ≡ a
home_is a e = cc e

home-IsExact : IsExact one_address "10.0.0.1:80"
home-IsExact = record {
  two_bytes = λ a e. rw (← home_is a e) refl;
  reads = λ a rest e. rw (← home_is a e) refl;
  prints = λ a e. refl;
}

-- Every name is resolved to one address.
abbrev resolve : String → Answer String
resolve to = gives "10.0.0.1:80"

abbrev two_datagrams : List Datagram
two_datagrams = (7 ∷ 8 ∷ [], "10.0.0.1:80") ∷ ([], "10.0.0.1:80") ∷ []

abbrev stream : List ℕ
stream = 0 ∷ 9 ∷ 1 ∷ 10 ∷ 0 ∷ 0 ∷ 1 ∷ 0 ∷ 80 ∷ 7 ∷ 8 ∷ 0 ∷ 7 ∷ 1 ∷ 10 ∷ 0 ∷ 0 ∷ 1 ∷ 0 ∷ 80 ∷ []

two_written : write_each one_address two_datagrams ≡ ok stream
unfolding write_each packet_conn_write_to socks5_write_to write_to write
two_written = refl

forward_up_ends_example :
    ((relay_up one_address resolve stream).1 ≢ starved)
    × (forward_up one_address resolve 100 (zeros buffer_size) stream
        ≡ relay_up one_address resolve stream)
forward_up_ends_example = forward_up_ends one_address resolve 100 stream (omega arith)

relay_up-write_each_example :
    relay_up one_address resolve stream ≡ (resolved one_address resolve two_datagrams, ended)
relay_up-write_each_example =
    relay_up-write_each one_address resolve two_datagrams stream (home-IsExact, (home-IsExact, tt))
      refl two_written

-- A datagram of 32762 bytes, whose packet is one byte larger than the buffer
abbrev large : List Datagram
large = (zeros 32762, "10.0.0.1:80") ∷ []

abbrev large_stream : List ℕ
large_stream = 128 ∷ 1 ∷ 1 ∷ 10 ∷ 0 ∷ 0 ∷ 1 ∷ 0 ∷ 80 ∷ zeros 32762

large_written : write_each one_address large ≡ ok large_stream
unfolding write_each packet_conn_write_to socks5_write_to write_to write zeros
large_written = refl

relay_up_crashes_iff_example :
    ((relay_up one_address resolve large_stream).1 ≡ crashed) ↔ (oversized one_address large ≡ true)
relay_up_crashes_iff_example =
    relay_up_crashes_iff one_address resolve large large_stream (home-IsExact, tt) large_written

abbrev rounds : List Round
rounds =
    record { stopped = false; received = gives (7 ∷ 8 ∷ [], "10.0.0.1:80"); cut = none }
    ∷ record { stopped = false; received = gives (9 ∷ [], "10.0.0.1:80"); cut = some 3 }
    ∷ []

abbrev buffer : List ℕ
buffer = 1 ∷ 2 ∷ 3 ∷ 4 ∷ 5 ∷ 6 ∷ 7 ∷ 8 ∷ 9 ∷ []

abbrev one_datagram : List Datagram
one_datagram = (7 ∷ 8 ∷ [], "10.0.0.1:80") ∷ []

one_accepted : accepted one_address rounds ≡ one_datagram
unfolding socks5_write_to write_to write
one_accepted = refl

read_each-forward_down_example :
    read_each one_address 1 buffer (forward_down one_address rounds ++ (5 ∷ []))
    ≡ map ok one_datagram
unfolding socks5_write_to write_to write
read_each-forward_down_example =
    read_each-forward_down one_address rounds buffer (5 ∷ []) (home-IsExact, omega arith, tt)
