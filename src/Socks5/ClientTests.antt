-- ===== src/Socks5/ClientTests.antt =====
-- The client of package socks5, run against answers of a server and against its own server.
use uptp.Common.{◌≡◌, ◌↔◌, ◌⊎◌, refl, none, some, String, [], ◌∷◌, true, false, gives}
use text.Mathlib.Text.{starts_with}
use uptp.Socks5.Errors.{GoError, done, other}
use uptp.Socks5.Request.{Request, Dialer, Answers, serve_request, connected}
use uptp.Socks5.Client.{
  v4, Net, Command, Dialogue, StreamConn, authenticate, negotiate, host_bytes, request, exchange,
  command_of, dial_context,
}
use uptp.Socks5.Client.Framing.{tunnel_of, framing_agrees_iff}

abbrev local_net : Net
local_net = record {
  split_host_port = λ a. gives ("10.0.0.1", "80");
  parse_ip = λ h. some (v4 (10 ∷ 0 ∷ 0 ∷ 1 ∷ []));
  lookup_port = λ n p. gives 80;
  bytes = λ h. [];
  auth_error = "Invalid Username or Password for Auth";
}

-- A server that grants everything, and one that refuses the password.
abbrev granting : Dialogue
granting = record {
  new_stream = none;
  write_methods = none;
  method = gives 2;
  write_user_pass = none;
  status = gives 0;
  write_request = none;
  reply = gives (record { rep = 0; bound = "10.0.0.2:5" });
}

abbrev udp4 : String
udp4 = "udp4"

abbrev target : String
target = "10.0.0.1:80"

abbrev udp_conn : StreamConn
udp_conn = record {
  network = "udp4";
  local_address = "10.0.0.2:5";
  remote_address = "10.0.0.1:80";
  framed = false;
}

abbrev udp_command : Command
udp_command = record { cmd = 4; atyp = 1; addr = 10 ∷ 0 ∷ 0 ∷ 1 ∷ []; port = 0 ∷ 80 ∷ [] }

udp_dialled : (dial_context local_net udp4 target granting).result ≡ gives udp_conn
unfolding dial_context negotiate authenticate exchange request host_bytes command_of
udp_dialled = refl

udp_sent : (dial_context local_net udp4 target granting).sent ≡ some udp_command
unfolding dial_context negotiate authenticate exchange request host_bytes command_of
udp_sent = refl

abbrev internet : Dialer
internet = record { dial = λ n a. done "10.0.0.2:5"; dial_udp = λ n a. done "10.0.0.2:6" }

abbrev unsupported : GoError
unsupported = other "Unsupport Command"

abbrev calm : Answers
calm = record {
  parse_address = none;
  write_reply = none;
  write_again = none;
  tunnel = none;
  resolve = none;
  listen = done "0.0.0.0:7";
}

abbrev read_request : Request
read_request = record { cmd = 4; atyp = 1; address = "10.0.0.1:80" }

udp_tunnelled : tunnel_of (serve_request internet unsupported calm read_request).1 ≡ some true
unfolding serve_request connected
udp_tunnelled = refl

framing_agrees_iff_example :
    (true ≡ udp_conn.framed) ↔ ((starts_with udp4 "udp" ≡ false) ⊎ (udp4 ≡ "udp"))
framing_agrees_iff_example =
    framing_agrees_iff local_net udp4 target granting internet unsupported calm read_request
      udp_conn udp_command true udp_dialled udp_sent refl udp_tunnelled
