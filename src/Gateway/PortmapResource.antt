-- ===== src/Gateway/PortmapResource.antt =====
-- gateway/portmap_resource.go: the resources that this gateway offers, in memory and under one key
-- of the database. Each method is one step under `resMtx`.
pub mod Laws
use uptp.Common.{ℕ, ◌≡◌, Option, none, some, String, List, [], ◌∷◌, map, Result, ok, err, nat_eq}
use uptp.Common.Int.{ℤ, pos}
use uptp.Common.GoMap.{GoMap, lookup, insert, delete}
use uptp.Gateway.Store.{Leveldb, MapJson, lookup_in, save_map, load_map}

pub record PortmapResource : Type 0 where
  pub id : ℕ
  pub name : String
  pub type : ℤ
  pub network : String
  pub target_addr : String
  pub target_port : ℤ
  pub local_ip : String
  pub local_port : ℤ

-- What a read of a missing key returns.
abbrev pub zero_resource : PortmapResource
zero_resource = record {
  id = 0;
  name = "";
  type = pos 0;
  network = "";
  target_addr = "";
  target_port = pos 0;
  local_ip = "";
  local_port = pos 0;
}

abbrev pub key_portmap_res : String
key_portmap_res = "portmap_resources"

-- `PortmapResMgr` with the database that it points to; the map is nil until it is first used.
pub record PortmapResMgr (D : Type 0) : Type 0 where
  pub db : D
  pub resources : Option (GoMap ℕ PortmapResource)

-- `if pam.resources == nil { pam.resources = make(…) }`
abbrev pub made : Option (GoMap ℕ PortmapResource) → GoMap ℕ PortmapResource
made none = []
made (some m) = m

abbrev pub or_zero : Option PortmapResource → PortmapResource
or_zero none = zero_resource
or_zero (some r) = r

module _ {D : Type 0} where
  -- The manager afterwards, and `pam.resources[resID]`.
  unfoldable pub get_app_by_id : ℕ → PortmapResMgr D → PortmapResource × PortmapResMgr D
  get_app_by_id id m =
      (or_zero (lookup id (made m.resources)), record m { resources = some (made m.resources) })

  unfoldable pub get_resources : PortmapResMgr D → List PortmapResource
  get_resources m = map (λ entry. entry.1) (made m.resources)

module _ {D B : Type 0} (ldb : Leveldb D B) (json : MapJson B PortmapResource) where
  unfoldable pub save_portmap : PortmapResMgr D → Option String × PortmapResMgr D
  save_portmap m = elim m.resources [
    | none ↦ (none, m)
    | some res ↦
        let (e, db) = save_map ldb json key_portmap_res res m.db in (e, record m { db = db })
  ]

  -- `AddPortmapRes` and `UpdatePortmapRes`, which have the same body
  unfoldable pub add_portmap_res :
      PortmapResource → PortmapResMgr D → Option String × PortmapResMgr D
  unfolding save_portmap
  add_portmap_res res m =
      save_portmap (record m { resources = some (insert res.id res (made m.resources)) })

  unfoldable pub update_portmap_res :
      PortmapResource → PortmapResMgr D → Option String × PortmapResMgr D
  unfolding save_portmap
  update_portmap_res res m =
      save_portmap (record m { resources = some (insert res.id res (made m.resources)) })

  unfoldable pub del_portmap_app : ℕ → PortmapResMgr D → Option String × PortmapResMgr D
  unfolding save_portmap
  del_portmap_app id m = elim m.resources [
    | none ↦ (none, m)
    | some res ↦ save_portmap (record m { resources = some (delete id res) })
  ]

  unfoldable pub load_res : PortmapResMgr D → Option String × PortmapResMgr D
  load_res m =
      let (e, res) = load_map ldb json key_portmap_res m.resources m.db in
      (e, record m { resources = res })

  -- `NewPortmapResMgr`
  unfoldable pub new_portmap_res_mgr : D → Result (PortmapResMgr D)
  unfolding load_res
  new_portmap_res_mgr db =
      let (e, m) = load_res (record { db = db; resources = none }) in
      elim e [ none ↦ ok m | some x ↦ err x ]
