-- ===== src/Agent/Apps/Laws.antt =====
-- What an agent's calls do to its port mappings and their listeners.
use uptp.Common.{ℕ, ◌≡◌, ◌⊎◌, inl, inr, refl, ap, arith, none, some, String}
use uptp.Common.{
  true, false, Bool-cases, Option-cases, Result-cases, Result, ok, err, panic, eq_iff,
}
use uptp.Common.{◌==◌, nat_eq, text_eq}
use uptp.Common.Int.{ℤ, pos, int_eq, beq_ℤ_iff}
use uptp.Common.GoMap.{lookup}
use uptp.Portmap.Listeners.{
  Listeners, add_listener, convert_index, lookup-add_listener, add_listener_failed,
}
use uptp.Gateway.Store.{Leveldb, MapJson, Sum-cases}
use uptp.Gateway.AppApi.Laws.{open_app-id, lookup-update_portmap_app}
use uptp.Gateway.PortmapApp.{PortmapApp, get_portmap_app}
use uptp.Gateway.Authorize.{AuthorizeResp}
use uptp.Gateway.AppApi.{open_app}
use uptp.Agent.Apps.{AgentState, granted_app, add_app, update_app, merged, update_listeners}

add_listener_panicked :
    (network ip : String) (port : ℤ) (answer : Result ℤ) (ls : Listeners)
    → (add_listener network ip port answer ls).0 ≡ panic
    → (add_listener network ip port answer ls).1 ≡ ls
unfolding add_listener
add_listener_panicked network ip port answer ls p = ground arith

-- `AddListener` closes no listener.
add_listener_keeps :
    (network ip key : String) (port old : ℤ) (answer : Result ℤ) (ls : Listeners)
    → lookup key ls ≡ some old
    → (real : ℤ) × (lookup key (add_listener network ip port answer ls).1 ≡ some real)
add_listener_keeps network ip key port old answer ls h =
    elim (Result-cases (add_listener network ip port answer ls).0) [
      | inl (real, p) ↦ elim (Bool-cases (convert_index network ip real == key)) [
        | inl b ↦
            (real, ground (arith, b, lookup-add_listener network ip key port real answer ls p))
        | inr b ↦
            (old, ground (arith, b, h, lookup-add_listener network ip key port real answer ls p))
      ]
      | inr (inl (e, p)) ↦ (old, rw (add_listener_failed network ip port answer ls e p) h)
      | inr (inr p) ↦ (old, rw (add_listener_panicked network ip port answer ls p) h)
    ]

-- Once `updateAPP` has written the new address into the stored app, no move is seen.
no_move :
    (a exist : PortmapApp) (answer : Result ℤ) (ls : Listeners)
    → a.running ≡ true
    → (update_listeners a (merged a exist) answer ls).1
      ≡ (add_listener a.network a.local_ip a.local_port answer ls).1
unfolding update_listeners merged
no_move a exist answer ls r = ground (
  arith,
  eq_iff a.network a.network,
  eq_iff a.local_ip a.local_ip,
  beq_ℤ_iff a.local_port a.local_port,
)

-- What an app holds that was granted by a response: the name of the peer, and as its target the one that was
-- asked for, on a trial resource, or none.
abbrev pub IsTargeted : AuthorizeResp → PortmapApp → PortmapApp → Type 0
IsTargeted rsp a app =
    (app.peer_name ≡ rsp.node_name)
    × (((rsp.portmap_is_trial ≡ some true)
          × (app.target_addr ≡ a.target_addr)
          × (app.target_port ≡ a.target_port))
        ⊎ ((rsp.portmap_is_trial ≡ some false)
            × (app.target_addr ≡ "")
            × (app.target_port ≡ pos 0)))

granted :
    (a : PortmapApp) (random : ℕ) (rsp : AuthorizeResp) (app : PortmapApp)
    → granted_app (record a { id = random }) rsp ≡ inr app
    → (app.id ≡ random) × ((rsp.err_text ≡ "") × IsTargeted rsp a app)
unfolding granted_app
granted a random rsp app p = elim (Bool-cases (rsp.err_text == "")) [
  | inr b ↦ absurd (ground (arith, b, p))
  | inl b ↦ elim (Option-cases rsp.portmap_is_trial) [
    | inl t ↦ absurd (ground (arith, b, t, p))
    | inr (true, t) ↦ ground (arith, b, t, p, eq_iff rsp.err_text "")
    | inr (false, t) ↦ ground (arith, b, t, p, eq_iff rsp.err_text "")
  ]
]

opened_target :
    (app a : PortmapApp) (answer : Result ℤ) (ls : Listeners) (rsp : AuthorizeResp)
    → IsTargeted rsp a app
    → IsTargeted rsp a (open_app app answer ls).0
unfolding open_app
opened_target app a answer ls rsp h = ground (arith, h)

module _ {D B : Type 0} (ldb : Leveldb D B) (json : MapJson B PortmapApp) where
  -- An update of an app that is to run closes no listener: under every key that had one there is
  -- one.
  pub update_app_keeps :
      (a : PortmapApp) (answer : Result ℤ) (s : AgentState D) (key : String) (old : ℤ)
      → a.running ≡ true
      → lookup key s.listeners ≡ some old
      → (real : ℤ) × (lookup key (update_app ldb json a answer s).1.listeners ≡ some real)
  unfolding update_app
  update_app_keeps a answer s key old r h = elim (Bool-cases (a.id == 0)) [
    | inl z ↦ (old, ground (arith, z, h))
    | inr nz ↦ elim (Option-cases (get_portmap_app a.id s.am.apps)) [
      | inl e ↦ (old, ground (arith, nz, e, h))
      | inr (exist, e) ↦
          let (real, kept) =
            add_listener_keeps a.network a.local_ip key a.local_port old answer s.listeners h in
          (
            real,
            ground (arith, nz, e, kept, ap (lookup key) (no_move a exist answer s.listeners r)),
          )
    ]
  ]

  pub add_app_target :
      (a : PortmapApp) (random : ℕ) (auth : Result AuthorizeResp) (answer : Result ℤ)
      (s : AgentState D)
      → (add_app ldb json a random auth answer s).0 ≡ ok none
      → (rsp : AuthorizeResp) × (app : PortmapApp) × (auth ≡ ok rsp)
        × (rsp.err_text ≡ "")
        × (lookup random (add_app ldb json a random auth answer s).1.am.apps ≡ some app)
        × IsTargeted rsp a app
  unfolding add_app
  add_app_target a random (err e) answer s h = absurd (cc h)
  add_app_target a random panic answer s h = absurd (cc h)
  add_app_target a random (ok rsp) answer s h =
      elim (Sum-cases (granted_app (record a { id = random }) rsp)) [
        | inl (e, p) ↦ absurd (ground (arith, p, h))
        | inr (app, p) ↦
            let opened = open_app app answer s.listeners in
            let (same_id, (no_error, target)) = granted a random rsp app p in
            (
              rsp,
              opened.0,
              refl,
              no_error,
              ground (
                arith,
                p,
                same_id,
                open_app-id app answer s.listeners,
                lookup-update_portmap_app ldb json opened.0 s.am random,
              ),
              opened_target app a answer s.listeners rsp target,
            )
      ]
