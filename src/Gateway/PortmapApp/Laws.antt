-- ===== src/Gateway/PortmapApp/Laws.antt =====
-- What the app manager keeps, and what its lookup by port finds.
use uptp.Common.{ℕ, ◌≡◌, refl, ap, ◌∙◌, arith, Option, none, some, String, [], ◌∷◌}
use uptp.Common.{
  Bool-cases, ◌&&◌, Bool, true, false, nat_eq, text_eq, if◌then◌else◌, ◌==◌, eq_iff, ◌⊎◌, inl, inr,
}
use uptp.Common.Int.{ℤ, int_eq, beq_ℤ_iff}
use uptp.Common.GoMap.{GoMap, lookup, insert, delete, lookup-insert, lookup-delete}
use uptp.Gateway.Store.{Leveldb, MapJson, lookup_in, save_map, load_map-save_map}
use uptp.Gateway.PortmapApp.{
  PortmapApp, PortmapAppMgr, zero_app, key_portmap_apps, find_app_with_port, update_portmap_app,
  del_portmap_app, load_portmap_apps, new_portmap_app_mgr, or_empty,
}
use mathlib.Core.Option

-- The entry stands in the map.
pub data Entry {V : Type 0} (k : ℕ) (v : V) : GoMap ℕ V → Type 0 where
  here : {m : GoMap ℕ V} → Entry k v ((k, v) ∷ m)
  there : {e : ℕ × V} {m : GoMap ℕ V} → Entry k v m → Entry k v (e ∷ m)

abbrev pub Listens : String → ℤ → PortmapApp → Type 0
Listens network port a = (a.local_port ≡ port) × (a.network ≡ network)

not-Entry : {V : Type 0} (k : ℕ) (v : V) → Entry k v [] → ⊥
not-Entry k v e = elim e [ ]

abbrev listens : String → ℤ → PortmapApp → Bool
listens network port r = r.local_port == port && r.network == network

listens→ :
    (network : String) (port : ℤ) (r : PortmapApp)
    → listens network port r ≡ true
    → Listens network port r
listens→ network port r h =
    (ground (arith, beq_ℤ_iff r.local_port port), ground (arith, eq_iff r.network network))

→listens :
    (network : String) (port : ℤ) (r : PortmapApp)
    → Listens network port r
    → listens network port r ≡ true
→listens network port r h = ground (arith, beq_ℤ_iff r.local_port port, eq_iff r.network network)

module _ (network : String) (port : ℤ) where
  not_first :
      (j : ℕ) (r : PortmapApp) (apps : GoMap ℕ PortmapApp)
      → listens network port r ≡ false
      → ((k : ℕ) (a : PortmapApp) → Entry k a apps → Listens network port a → ⊥)
      → (k : ℕ) (a : PortmapApp) → Entry k a ((j, r) ∷ apps)
      → Listens network port a
      → ⊥
  not_first j r apps b out k a here l = cc (b, →listens network port r l)
  not_first j r apps b out k a (there e) l = out k a e l

  -- What `FindAppWithPort` returns is the zero app where no app has the network and port, and
  -- otherwise an app of the map that has them.
  pub find_app_with_port_cases :
      (apps : GoMap ℕ PortmapApp)
      → ((find_app_with_port network port apps ≡ zero_app)
          × ((k : ℕ) (a : PortmapApp) → Entry k a apps → Listens network port a → ⊥))
        ⊎ ((k : ℕ) × Entry k (find_app_with_port network port apps) apps
            × Listens network port (find_app_with_port network port apps))
  unfolding find_app_with_port
  find_app_with_port_cases [] = inl (refl, λ k a e l. not-Entry k a e)
  find_app_with_port_cases ((j, r) ∷ apps) = elim (Bool-cases (listens network port r)) [
    | inl b ↦ rw b (inr (j, here, listens→ network port r b))
    | inr b ↦ rw b (elim (find_app_with_port_cases apps) [
      | inl (e, out) ↦ inl (e, λ k a. not_first j r apps b out k a)
      | inr (k, e, l) ↦ inr (k, there e, l)
    ])
  ]

module _ {D B : Type 0} (ldb : Leveldb D B) (json : MapJson B PortmapApp) where
  -- The app manager that a start builds from the database: `NewPortmapAppMgr`, `LoadPortmapApps`.
  unfoldable pub started : D → Option String × PortmapAppMgr D
  started db = load_portmap_apps ldb json (new_portmap_app_mgr db)

  lookup-or_empty :
      (id : ℕ) (o : Option (GoMap ℕ PortmapApp)) → lookup id (or_empty o) ≡ lookup_in id o
  unfolding lookup
  lookup-or_empty id none = refl
  lookup-or_empty id (some m) = refl

  restarted :
      (db : D) (apps : GoMap ℕ PortmapApp)
      → (save_map ldb json key_portmap_apps apps db).0 ≡ none
      → ((started (save_map ldb json key_portmap_apps apps db).1).0 ≡ none)
        × ((id : ℕ)
            → lookup id (started (save_map ldb json key_portmap_apps apps db).1).1.apps
              ≡ Option.map json.kept (lookup id apps))
  unfolding started load_portmap_apps new_portmap_app_mgr
  restarted db apps saved =
      let (loads, same) = load_map-save_map ldb json key_portmap_apps apps db (some []) tt saved in
      (loads, λ id. lookup-or_empty id _ ∙ same id)

  -- After an update that returns nil, a restart finds the app under its id, without the text of
  -- its last error, and every other app as the memory has it.
  pub started-update_portmap_app :
      (a : PortmapApp) (m : PortmapAppMgr D) (id : ℕ)
      → (update_portmap_app ldb json a m).0 ≡ none
      → ((started (update_portmap_app ldb json a m).1.db).0 ≡ none)
        × (lookup id (started (update_portmap_app ldb json a m).1.db).1.apps
            ≡ Option.map json.kept (if a.id == id then some a else lookup id m.apps))
  unfolding started update_portmap_app
  started-update_portmap_app a m id saved =
      let (loads, same) = restarted m.db (insert a.id a m.apps) saved in
      (loads, same id ∙ ap (Option.map json.kept) (lookup-insert a.id id a m.apps))

  -- After a deletion that returns nil, a restart finds no app under the id, and every other app.
  pub started-del_portmap_app :
      (k : ℕ) (m : PortmapAppMgr D) (id : ℕ)
      → (del_portmap_app ldb json k m).0 ≡ none
      → ((started (del_portmap_app ldb json k m).1.db).0 ≡ none)
        × (lookup id (started (del_portmap_app ldb json k m).1.db).1.apps
            ≡ Option.map json.kept (if k == id then none else lookup id m.apps))
  unfolding started del_portmap_app
  started-del_portmap_app k m id saved =
      let (loads, same) = restarted m.db (delete k m.apps) saved in
      (loads, same id ∙ ap (Option.map json.kept) (lookup-delete k id m.apps))
