-- ===== src/Agent/Apps.antt =====
-- agent/agent.go: the port mappings of an agent, over the managers of package gateway and the
-- listeners of package portmap. The app that a call receives is a value; what the call writes into
-- it is seen by the caller only.
pub mod Laws
pub mod Reachable
use uptp.Common.{
  ℕ, ◌⊎◌, inl, inr, Option, none, some, String, List, Bool, true, false, Result, ok, err, panic,
}
use uptp.Common.{if◌then◌else◌, ◌==◌, ◌!=◌, ◌&&◌, ◌||◌, not, nat_eq, text_eq}
use uptp.Common.Int.{ℤ, pos, int_eq}
use uptp.Portmap.Listeners.{Listeners, add_listener, delete_listener}
use uptp.Gateway.Store.{Leveldb, MapJson}
use uptp.Gateway.PortmapApp.{
  PortmapApp, PortmapAppMgr, get_portmap_app, get_portmap_apps, update_portmap_app, del_portmap_app,
}
use uptp.Gateway.Authorize.{AuthorizeResp}
use uptp.Gateway.AppApi.{open_app}

-- The part of `agent` that the calls change, and whether it was started.
pub record AgentState (D : Type 0) : Type 0 where
  pub am : PortmapAppMgr D
  pub listeners : Listeners
  pub running : Bool

-- A nil error is none.
abbrev pub Error : Type 0
Error = Option String

-- What `addApp` makes of the answer to its request: the app with the peer's name, and with a target
-- of its own for a trial resource only.
unfoldable pub granted_app : PortmapApp → AuthorizeResp → String ⊎ PortmapApp
granted_app a rsp = if rsp.err_text != "" then inl rsp.err_text else elim rsp.portmap_is_trial [
  | none ↦ inl "portmap resource auth failed"
  | some true ↦ inr (record a { peer_name = rsp.node_name })
  | some false ↦ inr (record a { target_addr = ""; target_port = pos 0; peer_name = rsp.node_name })
]

-- The stored app with what `updateAPP` writes into it before it looks at the listeners.
unfoldable pub merged : PortmapApp → PortmapApp → PortmapApp
merged a exist =
    let same = record exist {
      running = a.running;
      name = a.name;
      network = a.network;
      local_ip = a.local_ip;
      local_port = a.local_port;
    } in
    if exist.target_addr != ""
    then record same { target_addr = a.target_addr; target_port = a.target_port }
    else same

-- The listeners of `updateAPP`, on the stored app after it was written into; `AddListener` does not
-- panic.
unfoldable pub update_listeners :
    PortmapApp → PortmapApp → Result ℤ → Listeners → PortmapApp × Listeners
update_listeners a exist answer ls =
    let moved =
      exist.running && exist.network != a.network
      || (exist.local_ip != a.local_ip || exist.local_port != a.local_port) in
    let closed =
      if moved then delete_listener exist.network exist.local_ip exist.local_port ls else ls in
    let (r, opened) = add_listener a.network a.local_ip a.local_port answer closed in
    if a.running
    then (
      elim r [
        | ok real ↦ exist
        | err e ↦ record exist { running = false; err_text = e }
        | panic ↦ exist
      ],
      opened,
    )
    else (exist, delete_listener a.network a.local_ip a.local_port ls)

module _ {D B : Type 0} (ldb : Leveldb D B) (json : MapJson B PortmapApp) where
  -- `addApp`: `random` is what `rand.Uint64` returns, `auth` what `ResourceAuthorize` returns.
  unfoldable pub add_app :
      PortmapApp → ℕ → Result AuthorizeResp → Result ℤ → AgentState D → Result Error × AgentState D
  unfolding granted_app
  add_app a random auth answer s = elim auth [
    | err e ↦ (ok (some e), s)
    | panic ↦ (panic, s)
    | ok rsp ↦ elim (granted_app (record a { id = random }) rsp) [
      | inl e ↦ (ok (some e), s)
      | inr app ↦
          let (app', ls) = open_app app answer s.listeners in
          let (e, am) = update_portmap_app ldb json app' s.am in
          (ok e, record s { am = am; listeners = ls })
    ]
  ]

  unfoldable pub update_app : PortmapApp → Result ℤ → AgentState D → Error × AgentState D
  unfolding merged update_listeners
  update_app a answer s =
      if a.id == 0 then (some "app id is empty", s) else elim (get_portmap_app a.id s.am.apps) [
        | none ↦ (some "app not exists", s)
        | some exist ↦
            let (exist', ls) = update_listeners a (merged a exist) answer s.listeners in
            let (e, am) = update_portmap_app ldb json exist' s.am in
            (e, record s { am = am; listeners = ls })
      ]

  unfoldable pub del_app : PortmapApp → AgentState D → Error × AgentState D
  del_app a s =
      let (e, am) = del_portmap_app ldb json a.id s.am in
      if s.running
      then (
        e,
        record s {
          am = am;
          listeners = delete_listener a.network a.local_ip a.local_port s.listeners;
        },
      )
      else (some "agent not running", s)

  -- One round of the loop of `startPortmap` over the apps of the database.
  unfoldable pub start_app : PortmapApp → Result ℤ → AgentState D → AgentState D
  start_app app answer s =
      let (r, ls) = add_listener app.network app.local_ip app.local_port answer s.listeners in
      let stopped = record app { err_text = ""; running = false } in
      if app.running
      then (elim r [
        | ok real ↦ record s { listeners = ls }
        | panic ↦ record s { listeners = ls }
        | err e ↦ record s { am = (update_portmap_app ldb json stopped s.am).1; listeners = ls }
      ])
      else s

-- `getApps`, in the order of one iteration; none is nil.
unfoldable pub get_apps : {D : Type 0} → AgentState D → Option (List PortmapApp)
get_apps s = if s.running then some (get_portmap_apps s.am.apps) else none
