-- ===== src/Gateway/PortmapApp.antt =====
-- gateway/portmap_app.go: the port mappings that this node opens towards its peers. Each method is
-- one step under `mtx`. `NewPortmapAppMgr` makes the map and no method sets it to nil, so the nil
-- branch of `savePortmap` has no case here.
pub mod Laws
use uptp.Common.{
  ℕ, ◌≡◌, Bool, true, false, Option, none, some, String, List, [], ◌∷◌, map, Result, ok, err,
}
use uptp.Common.{nat_eq, text_eq, if◌then◌else◌, ◌==◌, ◌&&◌, leb}
use uptp.Common.Int.{ℤ, pos, int_eq}
use uptp.Common.GoMap.{GoMap, lookup, insert, delete}
use uptp.Gateway.Store.{Leveldb, MapJson, save_map, load_map}

pub record PortmapApp : Type 0 where
  pub id : ℕ
  pub name : String
  pub peer_id : String
  pub res_id : ℕ
  pub network : String
  pub local_ip : String
  pub local_port : ℤ
  pub target_addr : String
  pub target_port : ℤ
  pub running : Bool
  pub peer_name : String
  -- not written to JSON
  pub err_text : String

abbrev pub zero_app : PortmapApp
zero_app = record {
  id = 0;
  name = "";
  peer_id = "";
  res_id = 0;
  network = "";
  local_ip = "";
  local_port = pos 0;
  target_addr = "";
  target_port = pos 0;
  running = false;
  peer_name = "";
  err_text = "";
}

abbrev pub key_portmap_apps : String
key_portmap_apps = "portmap_apps"

-- `PortmapAppMgr` with the database that it points to
pub record PortmapAppMgr (D : Type 0) : Type 0 where
  pub db : D
  pub apps : GoMap ℕ PortmapApp

unfoldable pub new_portmap_app_mgr : {D : Type 0} → D → PortmapAppMgr D
new_portmap_app_mgr db = record { db = db; apps = [] }

-- `GetPortmapApps`, in the order of one iteration
unfoldable pub get_portmap_apps : GoMap ℕ PortmapApp → List PortmapApp
get_portmap_apps apps = map (λ entry. entry.1) apps

unfoldable pub get_portmap_app : ℕ → GoMap ℕ PortmapApp → Option PortmapApp
get_portmap_app id apps = lookup id apps

-- `FindAppWithPort`: the first app of the iteration on this network and port, or the zero app.
unfoldable pub find_app_with_port : String → ℤ → GoMap ℕ PortmapApp → PortmapApp
find_app_with_port network port [] = zero_app
find_app_with_port network port ((k, r) ∷ apps) =
    let rest = find_app_with_port network port apps in
    if r.local_port == port && r.network == network then r else rest

abbrev pub or_empty : Option (GoMap ℕ PortmapApp) → GoMap ℕ PortmapApp
or_empty none = []
or_empty (some apps) = apps

module _ {D B : Type 0} (ldb : Leveldb D B) (json : MapJson B PortmapApp) where
  unfoldable pub save_portmap : PortmapAppMgr D → Option String × PortmapAppMgr D
  save_portmap m =
      let (e, db) = save_map ldb json key_portmap_apps m.apps m.db in (e, record m { db = db })

  unfoldable pub update_portmap_app : PortmapApp → PortmapAppMgr D → Option String × PortmapAppMgr D
  unfolding save_portmap
  update_portmap_app a m = save_portmap (record m { apps = insert a.id a m.apps })

  unfoldable pub del_portmap_app : ℕ → PortmapAppMgr D → Option String × PortmapAppMgr D
  unfolding save_portmap
  del_portmap_app id m = save_portmap (record m { apps = delete id m.apps })

  -- `LoadPortmapApps` returns the apps where the key is there, and no apps where it is not.
  unfoldable pub load_portmap_apps : PortmapAppMgr D → Option String × PortmapAppMgr D
  load_portmap_apps m =
      let (e, apps) = load_map ldb json key_portmap_apps (some m.apps) m.db in
      (e, record m { apps = or_empty apps })
