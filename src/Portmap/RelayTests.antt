-- ===== src/Portmap/RelayTests.antt =====
-- Handshakes and relays, run: a codec of one byte, a gateway with one resource, and connections.
use uptp.Common.{
  live, unopened, ℕ, ◌≡◌, ◌≢◌, inr, refl, ap, sym, ◌∙◌, arith, none, some, Option, List, [], ◌∷◌,
  ◌++◌, true, false, Answer, gives, fails, Result, ok, err, panic,
}
use uptp.Common.Int.{pos, negsuc}
use uptp.Gateway.PortmapResource.{PortmapResource, PortmapResMgr, get_app_by_id}
use uptp.Gateway.ResourceApi.{Target, PortmapAppHandshake, handle_portmap_handshake}
use uptp.Gateway.ResourceApi.Laws.{IsKeyed}
use uptp.Gateway.Store.{lookup_in}
use uptp.Common.GoMap.{lookup}
use uptp.Portmap.Handshake.{
  HandshakeRsp, RspJson, Dialing, Serving, relay_handshake, handle_uptp_stream, relay, dial,
}
use uptp.Portmap.Served.{IsReleased, forwards, handle_uptp_stream-IsReleased}
use uptp.Portmap.Access.{resource_handshake, IsReached, forwards-IsReached, connection_log}
use uptp.Portmap.Relayed.{
  Conn, no_session, stream_session, GetHandshake, on_conn_open, Event, opened, data_in, data_out,
  run, step, on_conn_data, copy_bytes, open_relay,
}
use uptp.Portmap.Relayed.Laws.{IsIdle, HasAccepted, delivered, run_needs_handshake, run-delivered}

abbrev code_byte : HandshakeRsp → Option (List ℕ)
code_byte rsp = elim rsp.code [ pos n ↦ some (n ∷ []) | negsuc n ↦ none ]

abbrev read_code : List ℕ → Answer HandshakeRsp
read_code [] = fails "unexpected end of JSON input"
read_code (n ∷ rest) = gives (record { code = pos n; msg = "" })

abbrev codec : RspJson
codec = record { marshal = code_byte; unmarshal = read_code }

abbrev ssh : PortmapResource
ssh = record {
  id = 7;
  name = "ssh";
  type = pos 0;
  network = "tcp";
  target_addr = "10.0.0.1";
  target_port = pos 22;
  local_ip = "";
  local_port = pos 0;
}

abbrev one_resource : PortmapResMgr Unit
one_resource = record { db = tt; resources = some ((7, ssh) ∷ []) }

at_seven : (id : ℕ) (r : PortmapResource) → lookup_in id one_resource.resources ≡ some r → r.id ≡ id
unfolding lookup
at_seven id r h = ground arith

one_resource-IsKeyed : IsKeyed one_resource
one_resource-IsKeyed = record { at_key = at_seven }

abbrev read_id : List ℕ → Answer PortmapAppHandshake
read_id [] = fails "unexpected end of JSON input"
read_id (n ∷ rest) =
    gives (record { res_id = n; network = ""; target_addr = ""; target_port = pos 0 })

abbrev reached_ssh : Serving
reached_ssh = record {
  read = gives (7 ∷ []);
  dial_tcp = none;
  resolve = none;
  dial_udp = none;
  wrap = none;
  write = none;
  copied = 1 ∷ 2 ∷ [];
}

abbrev gateway : List ℕ → Result Target
gateway = resource_handshake false read_id one_resource

gives_eq : {a b : List ℕ} → gives a ≡ gives b → a ≡ b
gives_eq e = cc e

abbrev ssh_target : Target
ssh_target = record { network = "tcp"; addr = "10.0.0.1"; port = pos 22 }

ssh_named : gateway (7 ∷ []) ≡ ok ssh_target
unfolding handle_portmap_handshake get_app_by_id lookup
ssh_named = refl

never_silent :
    (hs : List ℕ) → reached_ssh.read ≡ gives hs → (gateway hs ≢ panic) × (gateway hs ≢ err "")
never_silent hs h =
    let e : gateway hs ≡ ok ssh_target = ap gateway (sym (gives_eq h)) ∙ ssh_named in
    (λ z. cc (e, z), λ z. cc (e, z))

handle_uptp_stream-IsReleased_example : IsReleased 0 (handle_uptp_stream codec gateway reached_ssh)
handle_uptp_stream-IsReleased_example =
    handle_uptp_stream-IsReleased codec gateway reached_ssh never_silent

ssh_forwarded : forwards (handle_uptp_stream codec gateway reached_ssh) ≡ true
unfolding handle_uptp_stream relay handle_portmap_handshake dial get_app_by_id lookup
ssh_forwarded = refl

forwards-IsReached_example :
    (t : Target) × ((rsp : List ℕ) × (IsReached one_resource false read_id reached_ssh t
        × ((codec.marshal (record { code = pos 0; msg = "ok" }) ≡ some rsp)
            × (handle_uptp_stream codec gateway reached_ssh
                ≡ connection_log t rsp reached_ssh.copied))))
forwards-IsReached_example =
    forwards-IsReached one_resource false one_resource-IsKeyed read_id codec reached_ssh
      ssh_forwarded

abbrev known_peer : GetHandshake
known_peer network ip port = ("12D3", some (7 ∷ []))

abbrev accepting : Dialing
accepting = record { decode_peer = none; new_stream = none; write = none; read = gives (0 ∷ []) }

abbrev fresh : Conn
fresh = record {
  network = "tcp";
  ip = "127.0.0.1";
  port = pos 4000;
  session = no_session;
  is_open = true;
  stream = unopened;
  sent = [];
  received = [];
  copying = false;
  crashed = false;
}

abbrev relaying : Conn
relaying = record fresh { session = stream_session; stream = live; copying = true }

fresh-IsIdle : IsIdle fresh
fresh-IsIdle = ground arith

abbrev talk : List Event
talk = data_in (1 ∷ 2 ∷ []) none ∷ data_out (9 ∷ []) ∷ data_in (3 ∷ []) none ∷ []

run-delivered_example : (run codec known_peer talk relaying).sent ≡ relaying.sent ++ delivered talk
run-delivered_example = run-delivered codec known_peer talk relaying refl refl refl

talked : (run codec known_peer (opened accepting ∷ talk) fresh).received ≢ fresh.received
unfolding run step on_conn_open open_relay relay_handshake on_conn_data copy_bytes
talked e = cc e

run_needs_handshake_example : HasAccepted codec (opened accepting ∷ talk)
run_needs_handshake_example =
    run_needs_handshake codec known_peer (opened accepting ∷ talk) fresh fresh-IsIdle (inr talked)
