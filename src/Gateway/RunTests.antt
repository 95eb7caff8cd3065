-- ===== src/Gateway/RunTests.antt =====
-- The start of the gateway, run twice on a database in memory.
use uptp.Common.{
  ℕ, ◌≡◌, refl, arith, none, some, List, [], ◌∷◌, true, false, gives, ok, eq_iff, ◌++◌,
}
use uptp.Common.Int.{pos}
use uptp.Gateway.Cidr.Range.{ipv4_net}
use uptp.Gateway.Memory.{
  Db, Doc, memory, resource_json, app_json, outbound_json, config_json, ascii_bytes, string_bytes,
}
use uptp.Gateway.Router.{leaf}
use uptp.Gateway.Router.Plain.{plain_tree}
use uptp.P2p.Engine.{Libp2p, Multiaddr}
use uptp.Gateway.Identity
use uptp.Gateway.Settings.{get_listen_port, set_listen_port}
use uptp.Gateway.Sessions.{init_password}
use uptp.Common.GoMap.{lookup, insert}
use uptp.P2p.Engine.{new_p2p_engine, new_host_and_dht, find_port}
use uptp.Gateway.PortmapResource.{new_portmap_res_mgr}
use uptp.Gateway.Store.{load_map}
use uptp.Common.Decimal.{atoi, format_int_bytes}
use uptp.Gateway.Outbounds.Life.{start}
use uptp.Gateway.Outbounds.{list_outbounds, load_outbounds}
use uptp.Gateway.PortmapApp.{get_portmap_apps, load_portmap_apps}
use uptp.Gateway.ProxyService.{load_config}
use uptp.Gateway.AppApi.{start_apps}
use uptp.Gateway.Run.{
  Disk, Answers, opened, Gateway, Outcome, goes_on, returned, crashed, Packages, run, open_database,
  start_engine, start_managers, clean_backup, new_proxy_client, start_all_apps, start_client,
  start_services,
}
use uptp.Gateway.Run.Laws.{run_keeps_key}
use uptp.Gateway.Run.Settings.{run_keeps_settings, run_keeps_port}

abbrev packages : Packages Db Doc
packages = record {
  ldb = memory;
  res_json = resource_json;
  app_json = app_json;
  outbound_json = outbound_json;
  config_json = config_json;
  text = ascii_bytes;
  bytes = string_bytes;
  reader = record { decode = λ s. ok s; parse_cidr = λ s. ok (ipv4_net 10 0 0 0 8) };
  avl = plain_tree;
}

-- A host that listens on port 4100.
abbrev port_text : List ℕ
port_text = b'4' ∷ b'1' ∷ b'0' ∷ b'0' ∷ []

abbrev host : Libp2p
host = record {
  open_datastore = none;
  new_key = λ seed. none;
  new_host = λ client p key.
      gives (
        record { is_ip6 = false; tcp = none }
        ∷ record { is_ip6 = true; tcp = some port_text }
        ∷ []);
  new_dht = none;
}

-- 32 bytes with a dash between
abbrev sixteen : ℕ → List ℕ
sixteen c = c ∷ c ∷ c ∷ c ∷ c ∷ c ∷ c ∷ c ∷ c ∷ c ∷ c ∷ c ∷ c ∷ c ∷ c ∷ c ∷ []

abbrev answers : ℕ → Answers Db
answers c = record {
  executable = gives "uptp";
  opening = opened;
  identity = record {
    read_fault = none;
    new_random = gives (sixteen c ++ (b'-' ∷ sixteen c));
    write_fault = none;
  };
  lib = host;
  tun = λ ob. record { start = none; addr = none };
  listen = λ app. ok (pos 8080);
  listen_api = none;
}

abbrev empty_disk : Disk Db
empty_disk = record { db = []; uuid = none; backup = true }

-- The gateway that a run starts; where it starts none, one that nobody asks for
abbrev gateway_of : Gateway Db → Outcome (Gateway Db) → Gateway Db
gateway_of g (goes_on h) = h
gateway_of g (returned e) = g
gateway_of g crashed = g

abbrev bare : Gateway Db
bare = record {
  pe = record { key = []; real_port = pos 0 };
  prm = record { db = []; resources = none };
  apps = record { pam = record { db = []; apps = [] }; listeners = [] };
  proxy_svc = record {
    db = [];
    config = record { route = ""; dns = ""; proxy_addr = ""; proxy_user = ""; proxy_pass = "" };
  };
  proxy_cli = record {
    mgr = record { db = []; outbounds = none };
    tun_running = false;
    router = leaf;
    commands = [];
  };
}

abbrev first_gateway : Gateway Db
first_gateway = gateway_of bare (run packages (answers b'a') empty_disk).0

started : (run packages (answers b'a') empty_disk).0 ≡ goes_on first_gateway
unfolding run open_database init_password lookup Identity.load_seed Identity.read_file
    Identity.without_dashes start_engine get_listen_port insert new_p2p_engine new_host_and_dht
    start_managers new_portmap_res_mgr load_map find_port atoi set_listen_port format_int_bytes
    Identity.make_seed start list_outbounds load_outbounds get_portmap_apps load_portmap_apps
    load_config clean_backup new_proxy_client start_all_apps start_client start_services start_apps
started = refl

-- The identity, the settings and the port of a second run, whose own draw would be another.
abbrev second_gateway : Gateway Db
second_gateway =
    gateway_of bare (run packages (answers b'b') (run packages (answers b'a') empty_disk).1).0

restarted :
    (run packages (answers b'b') (run packages (answers b'a') empty_disk).1).0
    ≡ goes_on second_gateway
unfolding run open_database init_password lookup Identity.load_seed Identity.read_file
    Identity.without_dashes start_engine get_listen_port insert new_p2p_engine new_host_and_dht
    start_managers new_portmap_res_mgr load_map find_port atoi set_listen_port format_int_bytes
    Identity.make_seed start list_outbounds load_outbounds get_portmap_apps load_portmap_apps
    load_config clean_backup new_proxy_client start_all_apps start_client start_services start_apps
restarted = refl

run_keeps_key_example : second_gateway.pe.key ≡ first_gateway.pe.key
run_keeps_key_example =
    run_keeps_key packages (answers b'a') (answers b'b') empty_disk first_gateway second_gateway
      started restarted refl

run_keeps_settings_example :
    memory.get "token" (run packages (answers b'a') empty_disk).1.db ≡ memory.get "token" []
run_keeps_settings_example =
    run_keeps_settings packages "token" (answers b'a') empty_disk refl
      (λ e. absurd (ground (arith, eq_iff "admin_password" "token", e)))
      (λ e. absurd (ground (arith, eq_iff "listen_port" "token", e)))
      (λ e. absurd (ground (arith, eq_iff "socks_outbound" "token", e)))
      (λ e. absurd (ground (arith, eq_iff "portmap_apps" "token", e)))

first_port : first_gateway.pe.real_port ≡ pos 4100
unfolding run open_database init_password lookup Identity.load_seed Identity.read_file
    Identity.without_dashes start_engine get_listen_port insert new_p2p_engine new_host_and_dht
    start_managers new_portmap_res_mgr load_map find_port atoi set_listen_port format_int_bytes
    Identity.make_seed start list_outbounds load_outbounds get_portmap_apps load_portmap_apps
    load_config clean_backup new_proxy_client start_all_apps start_client start_services start_apps
first_port = refl

run_keeps_port_example :
    (addrs : List Multiaddr) × ((answers b'b').lib.new_host false (pos 4100) second_gateway.pe.key
      ≡ gives addrs)
    × (second_gateway.pe.real_port ≡ find_port (pos 0) addrs)
run_keeps_port_example =
    run_keeps_port packages (answers b'a') (answers b'b') empty_disk first_gateway second_gateway
      4100 started restarted refl first_port (omega arith) (λ v d. refl)
