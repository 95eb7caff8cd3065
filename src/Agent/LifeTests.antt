-- ===== src/Agent/LifeTests.antt =====
-- The life of an agent, run: a start that succeeds, and one that fails for want of a DHT.
use uptp.Common.{
  ℕ, ◌≡◌, refl, inr, none, some, String, List, [], ◌∷◌, true, false, gives, ok, panic, Result,
  Option,
}
use uptp.Common.Int.{pos}
use uptp.Common.GoMap.{lookup}
use uptp.Gateway.Memory.{Db, Doc, memory, app_json}
use uptp.Gateway.Identity
use uptp.Gateway.PortmapApp.{zero_app, load_portmap_apps, get_portmap_apps}
use uptp.Gateway.Run.{opened, open_database}
use uptp.Gateway.Store.{load_map}
use uptp.P2p.Engine.{Libp2p, new_p2p_engine, new_host_and_dht, find_port}
use uptp.Agent.Proxies.{ProxyJson, load_proxys}
use uptp.Agent.Life.{
  Disk, Answers, locked, open_unlocked, Packages, start_apps, start_portmap, start_managers, start,
  del_app, close, fresh,
}
use uptp.Agent.Life.Laws.{start-close, start_failed}

abbrev no_documents : ProxyJson Doc
no_documents = record { marshal = λ l. inr (Doc.ascii []); unmarshal = λ v target. (none, target) }

abbrev packages : Packages Db Doc
packages = record {
  ldb = memory;
  app_json = app_json;
  proxy_json = no_documents;
  delete_key = λ key db. (none, db);
  reader = record { decode = λ s. ok s; parse_cidr = λ s. Result.err "no network" };
}

abbrev host : Option String → Libp2p
host dht = record {
  open_datastore = none;
  new_key = λ key. none;
  new_host = λ client port key. gives [];
  new_dht = dht;
}

abbrev eight : List ℕ → List ℕ
eight l = 1 ∷ 2 ∷ 3 ∷ 4 ∷ 5 ∷ 6 ∷ 7 ∷ 8 ∷ l

abbrev answers : Option String → Answers Db
answers dht = record {
  opening = opened;
  identity = record {
    read_fault = none;
    new_random = gives (eight (eight (eight (eight []))));
    write_fault = none;
  };
  lib = host dht;
  listen = λ app. ok (pos 8080);
}

abbrev empty_disk : Disk Db
empty_disk = record { db = []; uuid = none }

started : (start packages (answers none) true fresh empty_disk).1.running ≡ true
unfolding start open_unlocked open_database Identity.load_seed Identity.read_file Identity.make_seed
    Identity.without_dashes new_p2p_engine new_host_and_dht find_port start_managers start_portmap
    load_portmap_apps load_map get_portmap_apps start_apps load_proxys lookup
started = refl

start-close_example :
    let closed = close (start packages (answers none) true fresh empty_disk).1 in
    (start packages (answers none) false closed empty_disk ≡ (none, closed, empty_disk))
    × (closed.p2p ≡ none)
    × (closed.held ≡ false)
    × ((del_app packages zero_app closed).0 ≡ panic)
start-close_example =
    start-close packages (answers none) (answers none) true false fresh empty_disk empty_disk
      zero_app started

not_started : (start packages (answers (some "no dht")) true fresh empty_disk).1.running ≡ false
unfolding start open_unlocked open_database Identity.load_seed Identity.read_file Identity.make_seed
    Identity.without_dashes new_p2p_engine new_host_and_dht find_port start_managers start_portmap
    load_portmap_apps load_map get_portmap_apps start_apps load_proxys lookup
not_started = refl

no_database_fault : open_database opened empty_disk.db ≡ gives []
unfolding open_database
no_database_fault = refl

start_failed_example :
    start packages
      (answers none)
      true
      (start packages (answers (some "no dht")) true fresh empty_disk).1
      empty_disk
    ≡ (some locked, (start packages (answers (some "no dht")) true fresh empty_disk).1, empty_disk)
start_failed_example =
    start_failed packages (answers (some "no dht")) (answers none) true true fresh empty_disk
      empty_disk [] refl refl no_database_fault not_started
