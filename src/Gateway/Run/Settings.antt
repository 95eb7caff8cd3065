-- ===== src/Gateway/Run/Settings.antt =====
-- What a run of the gateway leaves in the database: the settings, the password and the port.
use uptp.Common.{
  ℕ, ◌≡◌, ◌≢◌, ◌∙◌, ◌<◌, ◌^◌, ap, sym, arith, none, String, List, [], map, true, false, inl, inr,
  Result, ok, Result-cases, Option-cases, Bool-cases, Answer-cases, if◌then◌else◌, ◌==◌, eq_iff,
  Bool, gives, take,
}
use uptp.Common.Int.{ℤ, pos, int_eq}
use uptp.Common.Decimal.{format_uint, format_int_bytes, atoi-format_uint}
use uptp.P2p.Engine.{
  Libp2p, Multiaddr, P2pEngine, find_port, new_p2p_engine, new_host_and_dht, seed_size,
}
use uptp.Gateway.Store.{Read-cases}
use uptp.Gateway.Identity.{Seeding-cases, load_seed}
use uptp.Gateway.Settings.{get_listen_port, set_listen_port, db_key_listen_port}
use uptp.Gateway.Sessions.{init_password, key_admin_password}
use uptp.Gateway.PortmapResource.{PortmapResMgr, new_portmap_res_mgr}
use uptp.Gateway.PortmapApp.{
  PortmapApp, PortmapAppMgr, load_portmap_apps, get_portmap_apps, key_portmap_apps,
}
use uptp.Gateway.Outbounds.{
  SocksOutbound, TunAnswers, ProxyClient, key_socks_outbound, load_outbounds, list_outbounds,
}
use uptp.Gateway.Run.{
  Disk, Answers, Gateway, goes_on, opened, Packages, run, start_engine, start_managers,
  new_proxy_client, start_client, start_services, start_all_apps, open_database,
}
use uptp.Gateway.Run.Frame.{get-start_apps, get-start}
use uptp.Gateway.Run.Laws.{start_engine_split, run_split, start_managers-pe}

module _ {D B : Type 0} (pk : Packages D B) where
  get-new_proxy_client :
      (key : String) (db : D) (pc : ProxyClient D)
      → new_proxy_client pk db ≡ ok pc
      → pk.ldb.get key pc.mgr.db ≡ pk.ldb.get key db
  unfolding new_proxy_client load_outbounds
  get-new_proxy_client key db pc h = ground (arith, h)

  get-start_client :
      (key : String) (a : Answers D) (pc pc' : ProxyClient D)
      → key_socks_outbound ≢ key
      → start_client pk a pc ≡ ok pc'
      → pk.ldb.get key pc'.mgr.db ≡ pk.ldb.get key pc.mgr.db
  unfolding start_client
  get-start_client key a pc pc' n h =
      let obs : List (SocksOutbound × TunAnswers) =
        map (λ ob. (ob, a.tun ob)) (list_outbounds pc.mgr) in
      ground (arith, h, get-start pk.ldb key pk.outbound_json pk.reader pk.avl obs pc n)

  get-start_services :
      (key : String) (a : Answers D) (pe : P2pEngine) (prm : PortmapResMgr D)
      (pam : PortmapAppMgr D) (pc : ProxyClient D)
      → key_portmap_apps ≢ key
      → pk.ldb.get key (start_services pk a pe prm pam pc).1 ≡ pk.ldb.get key pc.mgr.db
  unfolding start_services start_all_apps
  get-start_services key a pe prm pam pc n =
      let apps : List (PortmapApp × Result ℤ) =
        map (λ app. (app, a.listen app)) (get_portmap_apps pam.apps) in
      ground (
        arith,
        get-start_apps pk.ldb key pk.app_json apps
            (record { pam = record pam { db = pc.mgr.db }; listeners = [] }) n,
      )

  -- The managers write the outbounds and the apps only.
  get-start_managers :
      (key : String) (a : Answers D) (pe : P2pEngine) (db : D)
      → key_socks_outbound ≢ key
      → key_portmap_apps ≢ key
      → pk.ldb.get key (start_managers pk a pe db).1 ≡ pk.ldb.get key db
  unfolding start_managers
  get-start_managers key a pe db n m =
      elim (Result-cases (new_portmap_res_mgr pk.ldb pk.res_json db)) [
        | inr (inl (e, q)) ↦ ground (arith, q)
        | inr (inr q) ↦ ground (arith, q)
        | inl (prm, q) ↦
            let loaded = load_portmap_apps pk.ldb pk.app_json (record { db = db; apps = [] }) in
            elim (Option-cases loaded.0) [
              | inr (e, w) ↦ ground (arith, q, w)
              | inl w ↦ elim (Result-cases (new_proxy_client pk db)) [
                | inr (inl (e, c)) ↦ ground (arith, q, w, c)
                | inr (inr c) ↦ ground (arith, q, w, c)
                | inl (cli, c) ↦ elim (Result-cases (start_client pk a cli)) [
                  | inr (inl (e, s)) ↦ ground (arith, q, w, c, s)
                  | inr (inr s) ↦ ground (arith, q, w, c, s)
                  | inl (pc, s) ↦
                      let read = get-new_proxy_client key db cli c in
                      let started = get-start_client key a cli pc n s in
                      let served = get-start_services key a pe prm loaded.1 pc m in
                      ground (arith, q, w, c, s, read, started, served)
                ]
              ]
            ]
      ]

  get-init_password :
      (key : String) (db : D)
      → key_admin_password ≢ key
      → pk.ldb.get key (init_password pk.ldb pk.bytes db).1 ≡ pk.ldb.get key db
  unfolding init_password
  get-init_password key db n =
      let made = pk.ldb.get-put_ne key_admin_password key (pk.bytes.of_string "admin123") db n in
      elim (Read-cases (pk.ldb.get key_admin_password db)) [
        | inl (v, q) ↦ ground (arith, q)
        | inr (inl q) ↦ ground (arith, q, made)
        | inr (inr (e, q)) ↦ ground (arith, q, made)
      ]

  get-start_engine :
      (key : String) (a : Answers D) (seed : List ℕ) (db : D)
      → key_socks_outbound ≢ key
      → key_portmap_apps ≢ key
      → db_key_listen_port ≢ key
      → pk.ldb.get key (start_engine pk a seed db).1 ≡ pk.ldb.get key db
  unfolding start_engine set_listen_port
  get-start_engine key a seed db n m l =
      let port = (get_listen_port pk.ldb pk.text db).0 in
      elim (Option-cases (get_listen_port pk.ldb pk.text db).1) [
        | inr (e, q) ↦ ground (arith, q)
        | inl q ↦ elim (Answer-cases (new_p2p_engine a.lib port seed true false).0) [
          | inr (e, w) ↦ ground (arith, q, w)
          | inl (pe, w) ↦
              let bytes = pk.text.of_text (format_int_bytes pe.real_port) in
              let put = pk.ldb.put db_key_listen_port bytes db in
              ground (
                arith,
                q,
                w,
                get-start_managers key a pe db n m,
                get-start_managers key a pe put.1 n m,
                pk.ldb.get-put_ne db_key_listen_port key bytes db l,
              )
        ]
      ]

  -- A run changes nothing in the database but the first password, the listen port, the outbounds and
  -- the apps, however far it comes: every other key reads after it as on the database that was opened,
  -- the access token, the resources and the configuration of the proxy among them.
  pub run_keeps_settings :
      (key : String) (a : Answers D) (disk : Disk D)
      → a.opening ≡ opened
      → key_admin_password ≢ key
      → db_key_listen_port ≢ key
      → key_socks_outbound ≢ key
      → key_portmap_apps ≢ key
      → pk.ldb.get key (run pk a disk).1.db ≡ pk.ldb.get key disk.db
  unfolding run open_database
  run_keeps_settings key a disk o p l n m =
      let first = get-init_password key disk.db p in
      let db = (init_password pk.ldb pk.bytes disk.db).1 in
      elim (Answer-cases a.executable) [
        | inr (e, x) ↦ ground (arith, x)
        | inl (path, x) ↦ elim (Option-cases (init_password pk.ldb pk.bytes disk.db).0) [
          | inr (e, i) ↦ ground (arith, x, o, i, first)
          | inl i ↦ elim (Seeding-cases (load_seed a.identity disk.uuid).0) [
            | inr (e, s) ↦ ground (arith, x, o, i, s, first)
            | inl (seed, s) ↦
                ground (arith, x, o, i, s, first, get-start_engine key a seed db n m l)
          ]
        ]
      ]

  port_of_get :
      (d e : D)
      → pk.ldb.get db_key_listen_port d ≡ pk.ldb.get db_key_listen_port e
      → get_listen_port pk.ldb pk.text d ≡ get_listen_port pk.ldb pk.text e
  unfolding get_listen_port
  port_of_get d e h = rw (h, get_listen_port)

  port_written :
      (p : ℕ) (db : D)
      → p < 2 ^ 63
      → (set_listen_port pk.ldb pk.text (pos p) db).0 ≡ none
      → get_listen_port pk.ldb pk.text (set_listen_port pk.ldb pk.text (pos p) db).1 ≡ (pos p, none)
  unfolding set_listen_port get_listen_port format_int_bytes
  port_written p db h w =
      let bytes = pk.text.of_text (format_uint p) in
      ground (
        arith,
        pk.ldb.get-put_self db_key_listen_port bytes db w,
        pk.text.to_text-of_text (format_uint p),
        atoi-format_uint p h,
      )

  -- The port is in the database already, or is written to it.
  port_kept :
      (p : ℕ) (port real : ℤ) (db : D)
      → real ≡ pos p
      → p < 2 ^ 63
      → get_listen_port pk.ldb pk.text db ≡ (port, none)
      → ((v : B) (d : D) → (pk.ldb.put db_key_listen_port v d).0 ≡ none)
      → get_listen_port pk.ldb pk.text
          (if port == real then db else (set_listen_port pk.ldb pk.text real db).1)
        ≡ (pos p, none)
  port_kept p port real db e h q writes =
      let written = port_written p db h (unfold set_listen_port in writes _ db) in
      rw e (elim (Bool-cases (port == pos p)) [
        | inl b ↦ rw b (ground (arith, q, (int_eq.same_iff port (pos p)).0 b))
        | inr b ↦ rw b written
      ])

  port_left :
      (a : Answers D) (disk : Disk D) (g : Gateway D) (p : ℕ)
      → (run pk a disk).0 ≡ goes_on g
      → g.pe.real_port ≡ pos p
      → p < 2 ^ 63
      → ((v : B) (d : D) → (pk.ldb.put db_key_listen_port v d).0 ≡ none)
      → get_listen_port pk.ldb pk.text (run pk a disk).1.db ≡ (pos p, none)
  port_left a disk g p h r small writes =
      let (db, seed, o, i, s, e, u, d) = run_split pk a disk g h in
      let db' = (init_password pk.ldb pk.bytes db).1 in
      let (port, pe, q, w, m) = start_engine_split pk a seed db' g e in
      let same : g.pe ≡ pe = start_managers-pe pk a pe _ g (sym (ap (λ x. x.0) m) ∙ e) in
      let real : pe.real_port ≡ pos p = ap (λ x. x.real_port) (sym same) ∙ r in
      let last = (set_listen_port pk.ldb pk.text pe.real_port db').1 in
      let chosen = if port == pe.real_port then db' else last in
      let kept : pk.ldb.get db_key_listen_port (run pk a disk).1.db
          ≡ pk.ldb.get db_key_listen_port chosen =
        ap (pk.ldb.get db_key_listen_port) (d ∙ ap (λ x. x.1) m)
        ∙ get-start_managers db_key_listen_port a pe chosen
            (λ x. absurd (ground (arith, eq_iff key_socks_outbound db_key_listen_port, x)))
            (λ x. absurd (ground (arith, eq_iff key_portmap_apps db_key_listen_port, x))) in
      port_of_get (run pk a disk).1.db chosen kept
      ∙ port_kept p port pe.real_port db' real small q writes

  engine_host :
      (lib : Libp2p) (port : ℤ) (seed : List ℕ) (stored client : Bool) (pe : P2pEngine)
      → (new_p2p_engine lib port seed stored client).0 ≡ gives pe
      → (addrs : List Multiaddr) × (lib.new_host client port pe.key ≡ gives addrs)
        × (pe.real_port ≡ find_port (pos 0) addrs)
  unfolding new_p2p_engine new_host_and_dht
  engine_host lib port seed stored client pe h =
      elim (Answer-cases (lib.new_host client port (take seed_size seed))) [
        | inr (e, q) ↦ absurd (ground (arith, h, q))
        | inl (addrs, q) ↦ (addrs, ground (arith, h, q), ground (arith, h, q))
      ]

  -- A run that goes on has asked for a host on the port that stands in the database.
  host_asked :
      (a : Answers D) (disk : Disk D) (g : Gateway D) (port : ℤ)
      → (run pk a disk).0 ≡ goes_on g
      → a.opening ≡ opened
      → get_listen_port pk.ldb pk.text disk.db ≡ (port, none)
      → (addrs : List Multiaddr) × (a.lib.new_host false port g.pe.key ≡ gives addrs)
        × (g.pe.real_port ≡ find_port (pos 0) addrs)
  unfolding open_database
  host_asked a disk g port h o stands =
      let (db, seed, q, i, s, e, u, d) = run_split pk a disk g h in
      let db' = (init_password pk.ldb pk.bytes db).1 in
      let (port', pe, w, n, m) = start_engine_split pk a seed db' g e in
      let same : g.pe ≡ pe = start_managers-pe pk a pe _ g (sym (ap (λ x. x.0) m) ∙ e) in
      let read : db ≡ disk.db = ground (arith, q, o) in
      let first : get_listen_port pk.ldb pk.text db' ≡ get_listen_port pk.ldb pk.text db =
        port_of_get db' db (
          get-init_password db_key_listen_port db
            (λ x. absurd (ground (arith, eq_iff key_admin_password db_key_listen_port, x)))) in
      let kept : get_listen_port pk.ldb pk.text db' ≡ (port, none) =
        first ∙ ap (get_listen_port pk.ldb pk.text) read ∙ stands in
      let asked : port' ≡ port = ap (λ x. x.0) (sym w ∙ kept) in
      let (addrs, made, real) = engine_host a.lib port' seed true false pe n in
      (
        addrs,
        ap (λ q. a.lib.new_host false q g.pe.key) (sym asked)
            ∙ ap (λ q. a.lib.new_host false port' q.key) same
            ∙ made,
        ap (λ x. x.real_port) same ∙ real,
      )

  -- A gateway that was started once keeps its port: where a run goes on, on a database whose writes succeed,
  -- with the port p, and the next run opens what it has left and goes on too, then this next run has asked
  -- libp2p for a host on the port p, and its own port is the one of that host.
  pub run_keeps_port :
      (a b : Answers D) (disk : Disk D) (g h : Gateway D) (p : ℕ)
      → (run pk a disk).0 ≡ goes_on g
      → (run pk b (run pk a disk).1).0 ≡ goes_on h
      → b.opening ≡ opened
      → g.pe.real_port ≡ pos p
      → p < 2 ^ 63
      → ((v : B) (d : D) → (pk.ldb.put db_key_listen_port v d).0 ≡ none)
      → (addrs : List Multiaddr) × (b.lib.new_host false (pos p) h.pe.key ≡ gives addrs)
        × (h.pe.real_port ≡ find_port (pos 0) addrs)
  run_keeps_port a b disk g h p first second o r small writes =
      host_asked b (run pk a disk).1 h (pos p) second o (port_left a disk g p first r small writes)
