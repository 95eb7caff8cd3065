-- ===== src/Gateway/ProxyTests.antt =====
-- The outbounds of package gateway, run on a database in memory and a plain search tree.
use uptp.Common.{◌-◌, ◌/◌, ◌^◌, ◌≢◌, ◌≡◌, refl, arith, none, some, List, [], ◌∷◌}
use uptp.Common.{◌↔◌, ◌⊎◌, true, false, ok, err, nat_eq}
use uptp.Apiutil.{parsed}
use uptp.Gateway.Cidr.{IpNet, get_cidr_int_range, to4, set_bytes, host_mask}
use uptp.Gateway.Cidr.Range.{ipv4_net}
use uptp.Gateway.Memory.{Db, memory, outbound_json, ascii_bytes}
use uptp.Gateway.Router.{leaf, AvlTree, add_route, add_range, add, find, clashes}
use uptp.Gateway.Router.Find.{IsValid}
use uptp.Gateway.Router.Runs.{leaf-IsValid}
use uptp.Gateway.Router.Plain.{plain_tree}
use uptp.Gateway.Outbounds.{
  SocksOutbound, Reader, PeerWithAuth, ProxyClient, TunAnswers, token_bytes, dial_context, v4,
  add_outbound_route, fill_running_info,
}
use uptp.Socks5.Negotiate.{socks5_auth}
use uptp.Socks5.Negotiate.Tokens.{sent, socks5_auth-fill_running_info}
use uptp.Gateway.Settings.{get_token, serve_auth}
use uptp.Gateway.Outbounds.Laws.{number, dial_context-prefix}
use uptp.Gateway.OutboundApi.Laws.{Request, adds, deletes, serve_all, serve_all-IsValid}

abbrev home_peer : PeerWithAuth
home_peer = record { id = "12D3"; user_name = token_bytes 42; password = token_bytes 42 }

abbrev ten_net : IpNet
ten_net = ipv4_net 10 0 0 0 8

abbrev home : SocksOutbound
home = record {
  id = 3;
  remark = "";
  is_open = true;
  peer = "12D3";
  peer_name = "home";
  token = 42;
  route = "10.0.0.0/8";
  route_net = some ten_net;
  socks5_peer = home_peer;
}

-- A reader that knows one network.
abbrev reader : Reader
reader = record { decode = λ s. ok s; parse_cidr = λ s. ok ten_net }

abbrev tree : AvlTree PeerWithAuth
tree = plain_tree

abbrev tun_up : TunAnswers
tun_up = record { start = none; addr = none }

abbrev client : ProxyClient Db
client = record {
  mgr = record { db = []; outbounds = some ((3, home) ∷ []) };
  tun_running = true;
  router = leaf;
  commands = [];
}

accepted : (add_route tree ten_net home_peer leaf).1 ≡ true
unfolding add_route add_range add get_cidr_int_range host_mask to4 set_bytes find clashes
accepted = refl

dial_context-prefix_example :
    (number 10 1 2 3 / 2 ^ (32 - 8) ≡ number 10 0 0 0 / 2 ^ (32 - 8)
      → dial_context (v4 10 1 2 3) (add_outbound_route tree home client).1 ≡ ok home_peer)
    × (number 10 1 2 3 / 2 ^ (32 - 8) ≢ number 10 0 0 0 / 2 ^ (32 - 8)
        → dial_context (v4 10 1 2 3) (add_outbound_route tree home client).1
          ≡ dial_context (v4 10 1 2 3) client)
dial_context-prefix_example =
    dial_context-prefix tree home client 10 0 0 0 8 10 1 2 3 leaf-IsValid (omega arith)
      (omega arith) (omega arith) (omega arith) (omega arith) refl refl accepted

abbrev requests : List Request
requests = adds (parsed home) 4 (err "offline") tun_up ∷ deletes (parsed 3) ∷ []

serve_all-IsValid_example :
    IsValid (serve_all memory outbound_json reader tree requests client).router
serve_all-IsValid_example =
    serve_all-IsValid memory outbound_json reader tree requests client leaf-IsValid

home_filled : fill_running_info reader home ≡ ok home
unfolding fill_running_info
home_filled = refl

socks5_auth-fill_running_info_example :
    ((socks5_auth
        (λ t. (serve_auth memory ascii_bytes false 42 t []).0)
        "12D3"
        (sent home_peer)
        []).0
      ≡ some true)
    ↔ ((false ≡ true) ⊎ ((get_token memory ascii_bytes 42 []).0 ≡ ok home.token))
socks5_auth-fill_running_info_example =
    socks5_auth-fill_running_info memory ascii_bytes 42 [] false reader home home home_filled
      (omega arith) "12D3" []
