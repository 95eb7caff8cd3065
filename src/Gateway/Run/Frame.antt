-- ===== src/Gateway/Run/Frame.antt =====
-- What the start of the gateway writes in its database: the outbounds and the apps, and no other key.
use uptp.Common.GoMap.{GoMap, insert}
use uptp.Common.{
  ℕ, nat_eq, ◌≡◌, ◌≢◌, ◌∙◌, refl, arith, String, List, [], ◌∷◌, false, inl, inr, Result,
  Result-cases, Option-cases, Bool-cases,
}
use uptp.Common.Int.{ℤ}
use uptp.Gateway.Store.{Leveldb, MapJson, save_map, Sum-cases}
use uptp.Gateway.PortmapApp.{PortmapApp, PortmapAppMgr, update_portmap_app, key_portmap_apps}
use uptp.Gateway.AppApi.{AppState, start_app, start_apps}
use uptp.Gateway.Router.{AvlTree}
use uptp.Gateway.Outbounds.{
  SocksOutbound, Reader, PeerWithAuth, Manager, ProxyClient, TunAnswers, store_outbound,
  load_outbounds, key_socks_outbound, add_outbound_route, start_tun_stack, fill_running_info,
  save_outbounds, made,
}
use uptp.Gateway.Outbounds.Life.{start_outbound, start}

module _ {D B : Type 0} (ldb : Leveldb D B) (key : String) where
  get-save_map :
      {V : Type 0} (json : MapJson B V) (own : String) (m : GoMap ℕ V) (db : D)
      → own ≢ key
      → ldb.get key (save_map ldb json own m db).1 ≡ ldb.get key db
  unfolding save_map
  get-save_map json own m db n = elim (Sum-cases (json.marshal m)) [
    | inl (e, q) ↦ ground (arith, q)
    | inr (v, q) ↦ ground (arith, q, ldb.get-put_ne own key v db n)
  ]

  module _ (json : MapJson B PortmapApp) where
    get-update_portmap_app :
        (app : PortmapApp) (m : PortmapAppMgr D)
        → key_portmap_apps ≢ key
        → ldb.get key (update_portmap_app ldb json app m).1.db ≡ ldb.get key m.db
    unfolding update_portmap_app
    get-update_portmap_app app m n =
        get-save_map json key_portmap_apps (insert app.id app m.apps) m.db n

    get-start_app :
        (app : PortmapApp) (answer : Result ℤ) (s : AppState D)
        → key_portmap_apps ≢ key
        → ldb.get key (start_app ldb json app answer s).pam.db ≡ ldb.get key s.pam.db
    unfolding start_app
    get-start_app app answer s n =
        let stopped = record app { err_text = ""; running = false } in
        elim (Bool-cases app.running) [
          | inr b ↦ ground (arith, b)
          | inl b ↦ ground (arith, b, get-update_portmap_app stopped s.pam n)
        ]

    pub get-start_apps :
        (apps : List (PortmapApp × Result ℤ)) (s : AppState D)
        → key_portmap_apps ≢ key
        → ldb.get key (start_apps ldb json apps s).pam.db ≡ ldb.get key s.pam.db
    unfolding start_apps
    get-start_apps [] s n = refl
    get-start_apps ((app, answer) ∷ apps) s n =
        get-start_apps apps (start_app ldb json app answer s) n ∙ get-start_app app answer s n

  module _ (json : MapJson B SocksOutbound) (reader : Reader) where
    get-store_outbound :
        (ob : SocksOutbound) (m : Manager D)
        → key_socks_outbound ≢ key
        → ldb.get key (store_outbound ldb json reader ob m).1.db ≡ ldb.get key m.db
    unfolding store_outbound save_outbounds
    get-store_outbound ob m n = elim (Result-cases (fill_running_info reader ob)) [
      | inl (ob', q) ↦ ground (
        arith,
        q,
        get-save_map json key_socks_outbound (insert ob'.id ob' (made m.outbounds)) m.db n,
      )
      | inr (inl (e, q)) ↦ ground (arith, q)
      | inr (inr q) ↦ ground (arith, q)
    ]

    module _ (avl : AvlTree PeerWithAuth) where
      tun_stack_keeps :
          (a : TunAnswers) (pc : ProxyClient D) → (start_tun_stack a pc).1.mgr ≡ pc.mgr
      unfolding start_tun_stack
      tun_stack_keeps a pc = ground arith

      route_keeps :
          (ob : SocksOutbound) (pc : ProxyClient D) → (add_outbound_route avl ob pc).1.mgr ≡ pc.mgr
      unfolding add_outbound_route
      route_keeps ob pc = ground arith

      get-start_outbound :
          (ob : SocksOutbound) (a : TunAnswers) (pc : ProxyClient D)
          → key_socks_outbound ≢ key
          → ldb.get key (start_outbound ldb json reader avl ob a pc).1.mgr.db
            ≡ ldb.get key pc.mgr.db
      unfolding start_outbound
      get-start_outbound ob a pc n =
          let pc' = (start_tun_stack a pc).1 in
          let kept = tun_stack_keeps a pc in
          let stored = get-store_outbound (record ob { is_open = false }) pc'.mgr n in
          elim (Bool-cases ob.is_open) [
            | inr b ↦ ground (arith, b)
            | inl b ↦ elim (Option-cases (start_tun_stack a pc).0) [
              | inl e ↦ ground (arith, b, e, kept, route_keeps ob pc')
              | inr (x, e) ↦ ground (arith, b, e, kept, stored)
            ]
          ]

      pub get-start :
          (obs : List (SocksOutbound × TunAnswers)) (pc : ProxyClient D)
          → key_socks_outbound ≢ key
          → ldb.get key (start ldb json reader avl obs pc).1.mgr.db ≡ ldb.get key pc.mgr.db
      unfolding start
      get-start [] pc n = refl
      get-start ((ob, a) ∷ obs) pc n =
          let first = start_outbound ldb json reader avl ob a pc in
          let now = get-start_outbound ob a pc n in
          let later = get-start obs first.1 n in
          elim (Result-cases first.0) [
            | inl (u, q) ↦ ground (arith, q, now, later)
            | inr (inl (e, q)) ↦ ground (arith, q, now, later)
            | inr (inr q) ↦ ground (arith, q, now, later)
          ]

    pub get-load_outbounds :
        (m : Manager D) → ldb.get key (load_outbounds ldb json reader m).1.db ≡ ldb.get key m.db
    unfolding load_outbounds
    get-load_outbounds m = ground arith
