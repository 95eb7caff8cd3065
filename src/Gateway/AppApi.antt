-- ===== src/Gateway/AppApi.antt =====
-- The handlers of gateway/gateway.go on the port mappings, with the listeners that they open and
-- close, the handshake that a connection on a listener sends, and the loop of `Run` that opens the
-- listeners of the apps that were running. What the other side answers to an authorization, and
-- what the system answers to a new socket, are arguments.
pub mod Laws
use uptp.Common.{
  ℕ, Option, none, some, String, List, [], ◌∷◌, Bool, true, false, Result, ok, err, panic,
}
use uptp.Common.{if◌then◌else◌, ◌==◌, ◌!=◌, ◌||◌, nat_eq, text_eq}
use uptp.Common.Int.{ℤ}
use uptp.Apiutil.{
  Reply, Body, http_error, dropped, unreadable, malformed, parsed, send_message, send_data,
}
use uptp.Portmap.Listeners.{Listeners, add_listener, delete_listener}
use uptp.Gateway.Store.{Leveldb, MapJson}
use uptp.Gateway.PortmapApp.{
  PortmapApp, PortmapAppMgr, get_portmap_app, get_portmap_apps, update_portmap_app, del_portmap_app,
  find_app_with_port,
}
use uptp.Gateway.ResourceApi.{PortmapAppHandshake, saved}
use uptp.Gateway.Authorize.{AuthorizeResp}

-- The part of `Gateway` that the handlers change.
pub record AppState (D : Type 0) : Type 0 where
  pub pam : PortmapAppMgr D
  pub listeners : Listeners

pub data AppData : Type 0 where
  one : PortmapApp → AppData
  many : List PortmapApp → AppData

-- The name of the peer that authorized, or why it did not.
abbrev pub authorized_name : Result AuthorizeResp → Result String
authorized_name (ok resp) = if resp.err_text != "" then err resp.err_text else ok resp.node_name
authorized_name (err e) = err e
authorized_name panic = panic

-- `if app.Running { … AddListener … }`, which does not panic: the app, not running where no
-- listener opened, and the listeners.
unfoldable pub open_app : PortmapApp → Result ℤ → Listeners → PortmapApp × Listeners
open_app app answer ls =
    let (r, ls') = add_listener app.network app.local_ip app.local_port answer ls in
    if app.running
    then (
      elim r [ ok real ↦ app | err e ↦ record app { running = false; err_text = e } | panic ↦ app ],
      ls',
    )
    else (app, ls)

-- `if oldApp.Running { … DeleteListener … }`
unfoldable pub close_app : PortmapApp → Listeners → Listeners
close_app app ls =
    if app.running then delete_listener app.network app.local_ip app.local_port ls else ls

module _ {D B : Type 0} (ldb : Leveldb D B) (json : MapJson B PortmapApp) where
  -- The last steps of `addApp` and `updateApp`: open the listener and store the app.
  unfoldable pub store_app : PortmapApp → Result ℤ → AppState D → Reply AppData × AppState D
  unfolding open_app
  store_app app answer s =
      let (app', ls) = open_app app answer s.listeners in
      let (e, pam) = update_portmap_app ldb json app' s.pam in
      (saved e (send_message 0 "ok"), record { pam = pam; listeners = ls })

  -- `addApp`: `auth` is what `ResourceAuthorize` returns, `random` what `rand.Uint64` returns.
  unfoldable pub add_app :
      Body PortmapApp
      → Result AuthorizeResp
      → ℕ
      → Result ℤ
      → AppState D
      → Reply AppData × AppState D
  add_app (unreadable e) auth random answer s = (send_message 500 e, s)
  add_app (malformed e) auth random answer s = (send_message 400 e, s)
  add_app (parsed app) auth random answer s = elim (authorized_name auth) [
    | err e ↦ (send_message 400 e, s)
    | panic ↦ (dropped, s)
    | ok name ↦ store_app (record app { peer_name = name; id = random }) answer s
  ]

  -- The name of the app's peer, asked for again where the peer or the resource is another one.
  abbrev pub peer_name_of : PortmapApp → PortmapApp → Result AuthorizeResp → Result String
  peer_name_of app old auth =
      if app.peer_id != old.peer_id || app.res_id != old.res_id
      then authorized_name auth
      else ok old.peer_name

  unfoldable pub update_app :
      Body PortmapApp → Result AuthorizeResp → Result ℤ → AppState D → Reply AppData × AppState D
  unfolding close_app
  update_app (unreadable e) auth answer s = (send_message 500 e, s)
  update_app (malformed e) auth answer s = (send_message 400 e, s)
  update_app (parsed app) auth answer s =
      if app.id == 0
      then (send_message 400 "app id is empty", s)
      else elim (get_portmap_app app.id s.pam.apps) [
        | none ↦ (send_message 404 "app not found", s)
        | some old ↦ elim (peer_name_of app old auth) [
          | err e ↦ (send_message 400 e, s)
          | panic ↦ (dropped, s)
          | ok name ↦
              store_app (record app { peer_name = name }) answer
                (record s { listeners = close_app old s.listeners })
        ]
      ]

  unfoldable pub delete_app : Body ℕ → AppState D → Reply AppData × AppState D
  unfolding close_app
  delete_app (unreadable e) s = (send_message 500 e, s)
  delete_app (malformed e) s = (send_message 400 e, s)
  delete_app (parsed id) s =
      let (e, pam) = del_portmap_app ldb json id s.pam in
      (
        saved e (send_message 0 "ok"),
        record {
          pam = pam;
          listeners = elim (get_portmap_app id s.pam.apps) [
            | none ↦ s.listeners
            | some app ↦ close_app app s.listeners
          ];
        },
      )

  -- One round of the loop of `Run` over the apps of the database.
  unfoldable pub start_app : PortmapApp → Result ℤ → AppState D → AppState D
  start_app app answer s =
      let (r, ls) = add_listener app.network app.local_ip app.local_port answer s.listeners in
      let stopped = record app { err_text = ""; running = false } in
      if app.running
      then (elim r [
        | ok real ↦ record s { listeners = ls }
        | panic ↦ record s { listeners = ls }
        | err e ↦ record { pam = (update_portmap_app ldb json stopped s.pam).1; listeners = ls }
      ])
      else s

  -- The loop, on each app with the system's answer
  unfoldable pub start_apps : List (PortmapApp × Result ℤ) → AppState D → AppState D
  unfolding start_app
  start_apps [] s = s
  start_apps ((app, answer) ∷ apps) s = start_apps apps (start_app app answer s)

module _ {D : Type 0} where
  unfoldable pub list_apps : AppState D → Reply AppData
  list_apps s = send_data (many (get_portmap_apps s.pam.apps)) ""

  -- The id in the path is what `strconv.ParseUint` made of it.
  unfoldable pub get_app : Result ℕ → AppState D → Reply AppData
  get_app (err e) s = http_error 400 "Invalid ID"
  get_app panic s = http_error 400 "Invalid ID"
  get_app (ok id) s = elim (get_portmap_app id s.pam.apps) [
    | none ↦ send_message 404 "app not found"
    | some app ↦ send_data (one app) ""
  ]

  -- The function that `Run` gives to `SetGetHandshakeFunc`: the peer and the handshake of a
  -- connection on a local port; none where no app has the port. The handshake always marshals.
  unfoldable pub get_handshake : String → ℤ → AppState D → Option (String × PortmapAppHandshake)
  get_handshake network port s =
      let app = find_app_with_port network port s.pam.apps in
      if app.res_id == 0
      then none
      else some (
        app.peer_id,
        record {
          res_id = app.res_id;
          network = app.network;
          target_addr = app.target_addr;
          target_port = app.target_port;
        },
      )
