-- ===== src/Gateway/PortmapResource/Laws.antt =====
-- What the resource manager keeps, in memory and across a restart.
use uptp.Common.{ℕ, ◌≡◌, refl, ap, ◌∙◌, arith, Option, none, some, String}
use uptp.Common.{Option-cases, inl, inr, ok, nat_eq, if◌then◌else◌, ◌==◌}
use uptp.Common.GoMap.{GoMap, lookup, lookup-insert, lookup-delete}
use uptp.Gateway.Store.{
  Leveldb, MapJson, lookup_in, save_map, load_map, load_map-save_map, save_map_failed,
}
use uptp.Gateway.PortmapResource.{
  PortmapResource, PortmapResMgr, made, key_portmap_res, save_portmap, add_portmap_res,
  update_portmap_res, del_portmap_app, new_portmap_res_mgr,
}
use mathlib.Core.Option

-- The calls that change the resources.
pub data Change : Type 0 where
  adds updates : PortmapResource → Change
  deletes : ℕ → Change

pub lookup-made :
    (id : ℕ) (o : Option (GoMap ℕ PortmapResource)) → lookup id (made o) ≡ lookup_in id o
unfolding lookup
lookup-made id none = refl
lookup-made id (some m) = refl

module _ {D B : Type 0} (ldb : Leveldb D B) (json : MapJson B PortmapResource) where
  unfoldable pub apply : Change → PortmapResMgr D → Option String × PortmapResMgr D
  apply (adds r) = add_portmap_res ldb json r
  apply (updates r) = update_portmap_res ldb json r
  apply (deletes id) = del_portmap_app ldb json id

  -- What the change means for the resource under `id`.
  abbrev pub changed : Change → ℕ → Option PortmapResource → Option PortmapResource
  changed (adds r) id old = if r.id == id then some r else old
  changed (updates r) id old = if r.id == id then some r else old
  changed (deletes k) id old = if k == id then none else old

  -- After a change, whether it was saved or not, the resource under each id is the changed one.
  pub lookup-apply :
      (c : Change) (m : PortmapResMgr D) (id : ℕ)
      → lookup_in id (apply c m).1.resources ≡ changed c id (lookup_in id m.resources)
  unfolding apply add_portmap_res update_portmap_res del_portmap_app
  lookup-apply (adds r) m id = lookup-insert r.id id r (made m.resources) ∙ rw lookup-made
  lookup-apply (updates r) m id = lookup-insert r.id id r (made m.resources) ∙ rw lookup-made
  lookup-apply (deletes k) m id = elim (Option-cases m.resources) [
    | inl e ↦ rw (e, del_portmap_app) (ground (arith, ap (lookup_in id) e))
    | inr (res, e) ↦ rw (e, del_portmap_app) (lookup-delete k id res)
  ]

  -- A change that returns an error has changed the memory only: the database is as it was.
  pub apply_failed :
      (c : Change) (m : PortmapResMgr D) (e : String)
      → (apply c m).0 ≡ some e
      → (apply c m).1.db ≡ m.db
  unfolding apply add_portmap_res update_portmap_res del_portmap_app
  apply_failed (adds r) m e h = save_map_failed ldb json key_portmap_res _ m.db e h
  apply_failed (updates r) m e h = save_map_failed ldb json key_portmap_res _ m.db e h
  apply_failed (deletes k) m e h = elim (Option-cases m.resources) [
    | inl p ↦ rw (p, del_portmap_app)
    | inr (res, p) ↦
        rw (p, del_portmap_app)
          (save_map_failed ldb json key_portmap_res _ m.db e (rw (p, del_portmap_app) at h))
  ]

  -- A restart on the database finds the resources that are in memory.
  abbrev pub IsSynced : PortmapResMgr D → Type 0
  IsSynced m =
      (n : PortmapResMgr D) × (new_portmap_res_mgr ldb json m.db ≡ ok n)
      × ((id : ℕ) → lookup_in id n.resources ≡ lookup_in id m.resources)

  module _ (all_kept : (r : PortmapResource) → json.kept r ≡ r) where
    map-kept : (o : Option PortmapResource) → Option.map json.kept o ≡ o
    map-kept none = refl
    map-kept (some r) = ap some (all_kept r)

    reloaded :
        (db : D)
        → (load_map ldb json key_portmap_res none db).0 ≡ none
        → new_portmap_res_mgr ldb json db
          ≡ ok (record { db = db; resources = (load_map ldb json key_portmap_res none db).1 })
    unfolding new_portmap_res_mgr
    reloaded db e = rw (e, new_portmap_res_mgr)

    saved-IsSynced :
        (m : PortmapResMgr D) (res : GoMap ℕ PortmapResource)
        → (save_map ldb json key_portmap_res res m.db).0 ≡ none
        → IsSynced (save_portmap ldb json (record m { resources = some res })).1
    unfolding save_portmap
    saved-IsSynced m res saved =
        let (loads, same) = load_map-save_map ldb json key_portmap_res res m.db none tt saved in
        (_, reloaded _ loads, λ id. same id ∙ map-kept (lookup id res))

    -- Where JSON keeps a resource whole, a change that returns nil leaves memory and database in
    -- step, if it found them so.
    pub apply-IsSynced :
        (c : Change) (m : PortmapResMgr D)
        → IsSynced m
        → (apply c m).0 ≡ none
        → IsSynced (apply c m).1
    unfolding apply add_portmap_res update_portmap_res del_portmap_app
    apply-IsSynced (adds r) m h saved = saved-IsSynced m _ saved
    apply-IsSynced (updates r) m h saved = saved-IsSynced m _ saved
    apply-IsSynced (deletes k) m h saved = elim (Option-cases m.resources) [
      | inl p ↦ rw (p, del_portmap_app) h
      | inr (res, p) ↦
          rw (p, del_portmap_app) (saved-IsSynced m _ (rw (p, del_portmap_app) at saved))
    ]
