-- ===== src/Gateway/Run.antt =====
-- gateway/gateway.go, `Run`: the start of the gateway, over what the operating system, libp2p and the
-- tunnel answer. What it keeps between runs is the database and two files. The gateway's managers all
-- point to one database.
pub mod Laws
pub mod Frame
pub mod Settings
use uptp.Common.{
  ℕ, Bool, true, false, Option, none, some, String, List, [], ◌∷◌, map, if◌then◌else◌, ◌==◌, Answer,
  gives, fails, Result, ok, err, panic,
}
use uptp.Common.Int.{ℤ, int_eq}
use uptp.P2p.Engine.{Libp2p, P2pEngine, new_p2p_engine}
use uptp.Portmap.Listeners.{Listeners}
use uptp.Gateway.Store.{Leveldb, MapJson, ValueJson, TextBytes}
use uptp.Gateway.Authorize.{StringBytes}
use uptp.Gateway.Identity
use uptp.Gateway.Identity.{Seeding, seeded, stopped, load_seed}
use uptp.Gateway.Settings.{get_listen_port, set_listen_port}
use uptp.Gateway.Sessions.{SessionState, init_password}
use uptp.Gateway.PortmapResource.{PortmapResource, PortmapResMgr, new_portmap_res_mgr}
use uptp.Gateway.PortmapApp.{PortmapApp, PortmapAppMgr, load_portmap_apps, get_portmap_apps}
use uptp.Gateway.AppApi.{AppState, start_apps}
use uptp.Gateway.Router.{leaf, AvlTree}
use uptp.Gateway.Outbounds.{
  SocksOutbound, Reader, PeerWithAuth, Manager, ProxyClient, TunAnswers, load_outbounds,
  list_outbounds,
}
use uptp.Gateway.Outbounds.Life.{start}
use uptp.Gateway.ProxyService.{ProxyServiceConfig, ProxyService, empty_config, load_config}

-- What stays between runs: the database, the file uuid, and whether the copy of the program is there
-- that an upgrade leaves.
pub record Disk (D : Type 0) : Type 0 where
  pub db : D
  pub uuid : Option (List ℕ)
  pub backup : Bool

-- How goleveldb answers `OpenFile`, and `RecoverFile` on a database that is corrupted.
pub data Opening (D : Type 0) : Type 0 where
  opened : Opening D
  corrupted : Answer D → Opening D
  unopened : String → Opening D

-- The answers to one run
pub record Answers (D : Type 0) : Type 0 where
  pub executable : Answer String
  pub opening : Opening D
  pub identity : Identity.Answers
  pub lib : Libp2p
  pub tun : SocksOutbound → TunAnswers
  pub listen : PortmapApp → Result ℤ
  pub listen_api : Option String

-- The fields of `Gateway` that `Run` sets
pub record Gateway (D : Type 0) : Type 0 where
  pub pe : P2pEngine
  pub prm : PortmapResMgr D
  pub apps : AppState D
  pub proxy_svc : ProxyService D
  pub proxy_cli : ProxyClient D

-- What `Run` comes to: it serves, or it returns with an error, which may be nil, or it panics.
pub data Outcome {ℓ} (A : Type ℓ) : Type ℓ where
  goes_on : A → Outcome A
  returned : Option String → Outcome A
  crashed : Outcome A

-- `os.Stat` on the copy, and `os.IsExist` of its error, which is false of nil and of a missing file: the
-- copy is removed only where it is true.
abbrev is_exist : Option Identity.FileError → Bool
is_exist none = false
is_exist (some e) = e.is_exist

abbrev stat : Bool → Option Identity.FileError
stat true = none
stat false = some (record { text = "file does not exist"; is_exist = false })

unfoldable pub clean_backup : Bool → Bool
clean_backup there = if is_exist (stat there) then false else there

unfoldable pub open_database : {D : Type 0} → Opening D → D → Answer D
open_database opened db = gives db
open_database (corrupted recovered) db = recovered
open_database (unopened e) db = fails e

-- The packages that `Run` stores and reads with
pub record Packages (D B : Type 0) : Type 1 where
  pub ldb : Leveldb D B
  pub res_json : MapJson B PortmapResource
  pub app_json : MapJson B PortmapApp
  pub outbound_json : MapJson B SocksOutbound
  pub config_json : ValueJson B ProxyServiceConfig
  pub text : TextBytes B
  pub bytes : StringBytes B
  pub reader : Reader
  pub avl : AvlTree PeerWithAuth

module _ {D B : Type 0} (pk : Packages D B) where
  -- The outbounds and the tunnel: `newProxyClient`, then its `Start`, on each outbound in the order of one
  -- iteration. `none` is a panic.
  unfoldable pub new_proxy_client : D → Result (ProxyClient D)
  new_proxy_client db =
      let (e, m) =
        load_outbounds pk.ldb pk.outbound_json pk.reader (record { db = db; outbounds = none }) in
      elim e [
        | some x ↦ err x
        | none ↦ ok (record { mgr = m; tun_running = false; router = leaf; commands = [] })
      ]

  unfoldable pub start_client : Answers D → ProxyClient D → Result (ProxyClient D)
  start_client a pc =
      let obs : List (SocksOutbound × TunAnswers) =
        map (λ ob. (ob, a.tun ob)) (list_outbounds pc.mgr) in
      let (r, pc') = start pk.ldb pk.outbound_json pk.reader pk.avl obs pc in
      elim r [ ok u ↦ ok pc' | err e ↦ ok pc' | panic ↦ panic ]

  -- The loop over the apps, on the database with what the outbounds have written
  unfoldable pub start_all_apps : Answers D → PortmapAppMgr D → D → AppState D
  start_all_apps a pam db =
      let apps : List (PortmapApp × Result ℤ) =
        map (λ app. (app, a.listen app)) (get_portmap_apps pam.apps) in
      start_apps pk.ldb pk.app_json apps (record { pam = record pam { db = db }; listeners = [] })

  -- The proxy service, the apps and the listener of the console, with the database after that
  unfoldable pub start_services :
      Answers D
      → P2pEngine
      → PortmapResMgr D
      → PortmapAppMgr D
      → ProxyClient D
      → Outcome (Gateway D) × D
  start_services a pe prm pam pc =
      let (e, svc) =
        load_config pk.ldb pk.config_json (record { db = pc.mgr.db; config = empty_config }) in
      let apps = start_all_apps a pam pc.mgr.db in
      let last = apps.pam.db in
      let g : Gateway D = record {
        pe = pe;
        prm = record prm { db = last };
        apps = apps;
        proxy_svc = record svc { db = last };
        proxy_cli = record pc { mgr = record pc.mgr { db = last } };
      } in
      elim e [
        | some x ↦ (returned (some x), pc.mgr.db)
        | none ↦ elim a.listen_api [ some x ↦ (returned (some x), last) | none ↦ (goes_on g, last) ]
      ]

  -- The managers on a database that was read, up to the listener of the console
  unfoldable pub start_managers : Answers D → P2pEngine → D → Outcome (Gateway D) × D
  start_managers a pe db = elim (new_portmap_res_mgr pk.ldb pk.res_json db) [
    | err e ↦ (returned (some e), db)
    | panic ↦ (crashed, db)
    | ok prm ↦
        let (e, pam) = load_portmap_apps pk.ldb pk.app_json (record { db = db; apps = [] }) in
        elim e [
          | some x ↦ (returned (some x), db)
          | none ↦ elim (new_proxy_client db) [
            | err x ↦ (returned (some x), db)
            | panic ↦ (crashed, db)
            | ok cli ↦ elim (start_client a cli) [
              | err x ↦ (crashed, db)
              | panic ↦ (crashed, db)
              | ok pc ↦ start_services a pe prm pam pc
            ]
          ]
        ]
  ]

  -- The engine on the port that the database names, where 0 stands for any; the port that it has got is
  -- written back, whether or not that succeeds.
  unfoldable pub start_engine : Answers D → List ℕ → D → Outcome (Gateway D) × D
  start_engine a seed db =
      let (port, e) = get_listen_port pk.ldb pk.text db in
      elim e [
        | some x ↦ (returned (some x), db)
        | none ↦ elim (new_p2p_engine a.lib port seed true false).0 [
          | fails x ↦ (returned (some x), db)
          | gives pe ↦
              let kept = (set_listen_port pk.ldb pk.text pe.real_port db).1 in
              start_managers a pe (if port == pe.real_port then db else kept)
        ]
      ]

  unfoldable pub run : Answers D → Disk D → Outcome (Gateway D) × Disk D
  run a disk = elim a.executable [
    | fails e ↦ (returned (some e), disk)
    | gives path ↦
        let cleaned = record disk { backup = clean_backup disk.backup } in
        elim (open_database a.opening disk.db) [
          | fails e ↦ (returned (some e), cleaned)
          | gives db ↦
              let (e, db') = init_password pk.ldb pk.bytes db in
              let (seeding, uuid) = load_seed a.identity disk.uuid in
              let left = record cleaned { db = db'; uuid = uuid } in
              elim e [
                | some x ↦ (returned (some x), record cleaned { db = db' })
                | none ↦ elim seeding [
                  | stopped x ↦ (returned x, left)
                  | seeded seed ↦
                      let (g, last) = start_engine a seed db' in (g, record left { db = last })
                ]
              ]
        ]
  ]
