-- ===== src/Agent/Life.antt =====
-- The life of an agent: `start`, `startPortmap` and `close` of agent/agent.go, and of the calls that
-- agent/export.go passes on the two that depend on it alone. The agent is one object for the whole program.
-- A database that is open cannot be opened again, as goleveldb documents of the lock of its files.
pub mod Laws
use uptp.Common.{
  ℕ, Bool, true, false, Option, none, some, String, List, [], ◌∷◌, map, if◌then◌else◌, Answer,
  gives, fails, Result, ok, err, panic,
}
use uptp.Common.Int.{ℤ, pos}
use uptp.P2p.Engine.{Libp2p, P2pEngine, new_p2p_engine}
use uptp.Portmap.Listeners.{Listeners}
use uptp.Gateway.Store.{Leveldb, MapJson}
use uptp.Gateway.Identity
use uptp.Gateway.Identity.{Seeding, seeded, stopped, load_seed}
use uptp.Gateway.Run.{Opening, open_database}
use uptp.Gateway.PortmapApp.{PortmapApp, PortmapAppMgr, load_portmap_apps, get_portmap_apps}
use uptp.Gateway.Outbounds.{Reader}
use uptp.Agent.Apps
use uptp.Agent.Apps.{AgentState, start_app}
use uptp.Agent.Proxies.{ProxyMgr, ProxyJson, load_proxys}

-- `agent`; a nil pointer is none. `held` says whether `db` points to an open database.
pub record Agent (D : Type 0) : Type 0 where
  pub p2p : Option P2pEngine
  pub pm : Option Listeners
  pub held : Bool
  pub am : Option (PortmapAppMgr D)
  pub proxys : Option (ProxyMgr D)
  pub running : Bool

-- What stays between starts: the database and the file uuid
pub record Disk (D : Type 0) : Type 0 where
  pub db : D
  pub uuid : Option (List ℕ)

-- The answers to one start
pub record Answers (D : Type 0) : Type 0 where
  pub opening : Opening D
  pub identity : Identity.Answers
  pub lib : Libp2p
  pub listen : PortmapApp → Result ℤ

abbrev pub locked : String
locked = "resource temporarily unavailable"

-- `leveldb.OpenFile`, and `RecoverFile`
unfoldable pub open_unlocked : {D : Type 0} → Bool → Opening D → D → Answer D
open_unlocked held opening db = if held then fails locked else open_database opening db

-- The packages that the agent stores and reads with
pub record Packages (D B : Type 0) : Type 1 where
  pub ldb : Leveldb D B
  pub app_json : MapJson B PortmapApp
  pub proxy_json : ProxyJson B
  pub delete_key : String → D → Option String × D
  pub reader : Reader

module _ {D B : Type 0} (pk : Packages D B) where
  -- The loop of `startPortmap`, on each app with the answer of the system
  unfoldable pub start_apps : List (PortmapApp × Result ℤ) → AgentState D → AgentState D
  start_apps [] s = s
  start_apps ((app, answer) ∷ apps) s = start_apps apps (start_app pk.ldb pk.app_json app answer s)

  -- `startPortmap` with `initAppMgr`, on an open database. Its error is not looked at; where the apps are
  -- not read, the agent has their manager and no port map.
  unfoldable pub start_portmap : Answers D → D → Agent D → Agent D × D
  start_portmap a db ag =
      let (e, am) = load_portmap_apps pk.ldb pk.app_json (record { db = db; apps = [] }) in
      let apps : List (PortmapApp × Result ℤ) =
        map (λ app. (app, a.listen app)) (get_portmap_apps am.apps) in
      let s = start_apps apps (record { am = am; listeners = []; running = ag.running }) in
      elim e [
        | some x ↦ (record ag { am = some am }, db)
        | none ↦ (record ag { am = some s.am; pm = some s.listeners }, s.am.db)
      ]

  -- The end of `start`, on an open database with an engine
  unfoldable pub start_managers :
      Answers D → Bool → Agent D → Disk D → Option String × Agent D × Disk D
  start_managers a with_portmap ag disk =
      let (ag', db) = if with_portmap then start_portmap a disk.db ag else (ag, disk.db) in
      let (e, proxys) =
        load_proxys pk.ldb pk.proxy_json pk.delete_key pk.reader
          (record { db = db; proxys = none }) in
      let left = record disk { db = db } in
      elim e [
        | some x ↦ (some x, record ag' { proxys = some proxys }, left)
        | none ↦ (none, record ag' { proxys = some proxys; running = true }, left)
      ]

  -- `start`: its error, the agent and what stays. An error leaves what was opened before it.
  unfoldable pub start : Answers D → Bool → Agent D → Disk D → Option String × Agent D × Disk D
  start a with_portmap ag disk =
      let opened = open_unlocked ag.held a.opening disk.db in
      let (seeding, uuid) = load_seed a.identity disk.uuid in
      if ag.running then (none, ag, disk) else elim opened [
        | fails e ↦ (some e, ag, disk)
        | gives db ↦
            let left : Disk D = record { db = db; uuid = uuid } in
            let holder = record ag { held = true } in
            elim seeding [
              | stopped e ↦ (e, holder, left)
              | seeded seed ↦ elim (new_p2p_engine a.lib (pos 0) seed true true).0 [
                | fails e ↦ (some e, record holder { p2p = none }, left)
                | gives pe ↦ start_managers a with_portmap (record holder { p2p = some pe }) left
              ]
            ]
      ]

  -- `delApp`: a port map or a manager that is nil is dereferenced.
  unfoldable pub del_app : PortmapApp → Agent D → Result (Option String) × Agent D
  del_app app ag =
      let deleted : Result (Option String) × Agent D = elim ag.pm [
        | none ↦ (panic, ag)
        | some ls ↦ elim ag.am [
          | none ↦ (panic, ag)
          | some am ↦
              let (e, s) =
                Apps.del_app pk.ldb pk.app_json app
                  (record { am = am; listeners = ls; running = true }) in
              (ok e, record ag { pm = some s.listeners; am = some s.am })
        ]
      ] in
      if ag.running then deleted else (ok (some "agent not running"), ag)

-- `close`, which leaves `running` as it is
unfoldable pub close : {D : Type 0} → Agent D → Agent D
close ag = record ag { pm = none; p2p = none; held = false }

-- The agent of a program that starts
abbrev pub fresh : {D : Type 0} → Agent D
fresh = record { p2p = none; pm = none; held = false; am = none; proxys = none; running = false }
