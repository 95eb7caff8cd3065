-- ===== src/Gateway/AppApi/Laws.antt =====
-- Which requests change the port mappings and their listeners, and what a connection is sent with.
use uptp.Common.{ℕ, ◌≡◌, ◌≢◌, inl, inr, refl, ap, arith, none, some, String}
use uptp.Common.{true, Result-cases, Result, ok, err, panic, eq_iff}
use uptp.Common.{if◌then◌else◌, ◌==◌, nat_eq, text_eq}
use uptp.Common.Int.{ℤ}
use uptp.Common.GoMap.{lookup, lookup-insert, lookup-delete}
use uptp.Apiutil.{parsed, send_message, code_of}
use uptp.Portmap.Listeners.{
  Listeners, add_listener, convert_index, lookup-add_listener, lookup-delete_listener,
}
use uptp.Gateway.Store.{Leveldb, MapJson}
use uptp.Gateway.PortmapApp.{
  PortmapApp, PortmapAppMgr, get_portmap_app, update_portmap_app, del_portmap_app,
  find_app_with_port,
}
use uptp.Gateway.PortmapApp.Laws.{Entry, Listens, find_app_with_port_cases}
use uptp.Gateway.ResourceApi.{PortmapAppHandshake}
use uptp.Gateway.Authorize.{AuthorizeResp}
use uptp.Gateway.AppApi.{
  AppState, open_app, close_app, store_app, add_app, update_app, delete_app, get_handshake,
}

add_listener_panic :
    (network ip : String) (port : ℤ) (answer : Result ℤ) (ls : Listeners)
    → (add_listener network ip port answer ls).0 ≡ panic
    → answer ≡ panic
unfolding add_listener
add_listener_panic network ip port answer ls h = ground arith

-- An app whose listener was asked for and that is still running has a listener, under the port
-- that the system gave.
pub open_app_running :
    (app : PortmapApp) (answer : Result ℤ) (ls : Listeners) (e : answer ≢ panic)
    → (open_app app answer ls).0.running ≡ true
    → (real : ℤ) × (lookup (convert_index app.network app.local_ip real) (open_app app answer ls).1
        ≡ some real)
unfolding open_app
open_app_running app answer ls e h =
    let opened = add_listener app.network app.local_ip app.local_port answer ls in
    elim (Result-cases opened.0) [
      | inl (real, p) ↦ (
        real,
        ground (
          arith,
          lookup-add_listener app.network app.local_ip (convert_index app.network app.local_ip real)
              app.local_port real answer ls p,
          eq_iff (convert_index app.network app.local_ip real)
              (convert_index app.network app.local_ip real),
        ),
      )
      | inr (inl (x, p)) ↦ absurd (ground arith)
      | inr (inr p) ↦
          absurd (e (add_listener_panic app.network app.local_ip app.local_port answer ls p))
    ]

pub open_app-id :
    (app : PortmapApp) (answer : Result ℤ) (ls : Listeners) → (open_app app answer ls).0.id ≡ app.id
unfolding open_app
open_app-id app answer ls = ground arith

module _ {D B : Type 0} (ldb : Leveldb D B) (json : MapJson B PortmapApp) where
  pub lookup-update_portmap_app :
      (a : PortmapApp) (m : PortmapAppMgr D) (k : ℕ)
      → lookup k (update_portmap_app ldb json a m).1.apps
        ≡ (if a.id == k then some a else lookup k m.apps)
  unfolding update_portmap_app
  lookup-update_portmap_app a m k = lookup-insert a.id k a m.apps

  lookup-del_portmap_app :
      (id : ℕ) (m : PortmapAppMgr D) (k : ℕ)
      → lookup k (del_portmap_app ldb json id m).1.apps
        ≡ (if id == k then none else lookup k m.apps)
  unfolding del_portmap_app
  lookup-del_portmap_app id m k = lookup-delete id k m.apps

  -- An addition whose body parses and that is answered with code 0 was authorized by the peer, and
  -- stored the app under the new id, with the peer's name, as its listener left it; the other apps
  -- are as they were.
  pub add_app_accepted :
      (app : PortmapApp) (auth : Result AuthorizeResp) (random : ℕ) (answer : Result ℤ)
      (s : AppState D)
      → code_of (add_app ldb json (parsed app) auth random answer s).0 ≡ 0
      → (resp : AuthorizeResp) × (auth ≡ ok resp)
        × (resp.err_text ≡ "")
        × ((k : ℕ)
            → lookup k (add_app ldb json (parsed app) auth random answer s).1.pam.apps ≡ (
                if random == k
                then some
                    (open_app
                      (record app { peer_name = resp.node_name; id = random })
                      answer
                      s.listeners).0
                else lookup k s.pam.apps))
  unfolding add_app store_app send_message
  add_app_accepted app (ok resp) random answer s h = (
    resp,
    refl,
    ground (arith, eq_iff resp.err_text ""),
    λ k. ground (
      arith,
      lookup-update_portmap_app
          (open_app (record app { peer_name = resp.node_name; id = random }) answer s.listeners).0
          s.pam k,
      open_app-id (record app { peer_name = resp.node_name; id = random }) answer s.listeners,
    ),
  )
  add_app_accepted app (err e) random answer s h = absurd (ground arith)
  add_app_accepted app panic random answer s h = absurd (ground arith)

  -- An addition or an update whose body parses and that is answered with a code other than 0 and
  -- 500 changes nothing.
  pub app_refused :
      (app : PortmapApp) (auth : Result AuthorizeResp) (random : ℕ) (answer : Result ℤ)
      (s : AppState D)
      → ((code_of (add_app ldb json (parsed app) auth random answer s).0 ≢ 0)
          → (code_of (add_app ldb json (parsed app) auth random answer s).0 ≢ 500)
          → (add_app ldb json (parsed app) auth random answer s).1 ≡ s)
        × ((code_of (update_app ldb json (parsed app) auth answer s).0 ≢ 0)
            → (code_of (update_app ldb json (parsed app) auth answer s).0 ≢ 500)
            → (update_app ldb json (parsed app) auth answer s).1 ≡ s)
  unfolding add_app update_app store_app send_message
  app_refused app auth random answer s = (λ a b. ground arith, λ a b. ground arith)

  module _ (id : ℕ) (s : AppState D) where
    -- After a deletion of an app that is there, whether it was saved or not, the app is gone, no
    -- other app has changed, and if it was running there is no listener under its key.
    pub delete_app_gone :
        (app : PortmapApp)
        → lookup id s.pam.apps ≡ some app
        → ((k : ℕ)
            → lookup k (delete_app ldb json (parsed id) s).1.pam.apps
              ≡ (if id == k then none else lookup k s.pam.apps))
          × (app.running ≡ true
              → lookup
                  (convert_index app.network app.local_ip app.local_port)
                  (delete_app ldb json (parsed id) s).1.listeners
                ≡ none)
    unfolding delete_app close_app get_portmap_app
    delete_app_gone app l = (
      λ k. lookup-del_portmap_app id s.pam k,
      λ r. ground (
        arith,
        l,
        r,
        lookup-delete_listener app.network app.local_ip
            (convert_index app.network app.local_ip app.local_port) app.local_port s.listeners,
        eq_iff (convert_index app.network app.local_ip app.local_port)
            (convert_index app.network app.local_ip app.local_port),
      ),
    )

    -- Where a running app and another one have the same listener's key, deleting the first leaves
    -- the other in place as it is, with no listener under its key.
    pub delete_app_shared :
        (other : ℕ) (app twin : PortmapApp)
        → id ≢ other
        → lookup id s.pam.apps ≡ some app
        → lookup other s.pam.apps ≡ some twin
        → app.running ≡ true
        → convert_index twin.network twin.local_ip twin.local_port
          ≡ convert_index app.network app.local_ip app.local_port
        → (lookup other (delete_app ldb json (parsed id) s).1.pam.apps ≡ some twin)
          × (lookup
                (convert_index twin.network twin.local_ip twin.local_port)
                (delete_app ldb json (parsed id) s).1.listeners
              ≡ none)
    delete_app_shared other app twin ne l l' r e =
        let (apps, gone) = delete_app_gone app l in (ground (arith, apps other), rw e (gone r))

module _ {D : Type 0} where
  -- A connection on a local port is sent with the peer, the resource and the target of an app of
  -- this gateway that has the network and the port.
  pub get_handshake_found :
      (network : String) (port : ℤ) (s : AppState D) (peer : String) (hs : PortmapAppHandshake)
      → get_handshake network port s ≡ some (peer, hs)
      → (k : ℕ) × ((app : PortmapApp) × Entry k app s.pam.apps
          × Listens network port app
          × (app.peer_id ≡ peer)
          × (app.res_id ≡ hs.res_id)
          × (app.res_id ≢ 0)
          × (app.target_addr ≡ hs.target_addr)
          × (app.target_port ≡ hs.target_port))
  unfolding get_handshake
  get_handshake_found network port s peer hs h =
      elim (find_app_with_port_cases network port s.pam.apps) [
        | inl (e, out) ↦ absurd (ground (arith, ap (λ a. a.res_id) e))
        | inr (k, e, l) ↦ (
          k,
          (
            find_app_with_port network port s.pam.apps,
            e,
            l,
            ground arith,
            ground arith,
            ground arith,
            ground arith,
            ground arith,
          ),
        )
      ]
