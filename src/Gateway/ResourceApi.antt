-- ===== src/Gateway/ResourceApi.antt =====
-- The handlers of gateway/gateway.go on this gateway's resources, and `handlePortmapHandshake`,
-- by which a peer reaches one.
pub mod Laws
use uptp.Common.{
  ℕ, Option, none, some, String, List, Bool, true, false, Result, ok, err, panic, inl, inr,
}
use uptp.Common.{if◌then◌else◌, ◌==◌, ◌!=◌, ◌&&◌, ◌||◌, nat_eq, text_eq}
use uptp.Common.Int.{ℤ, pos, leb_ℤ, ltb_ℤ}
use uptp.Apiutil.{Reply, Body, http_error, unreadable, malformed, parsed, send_message, send_data}
use uptp.Gateway.Store.{Leveldb, MapJson}
use uptp.Gateway.PortmapResource.{
  PortmapResource, PortmapResMgr, get_app_by_id, get_resources, add_portmap_res, update_portmap_res,
  del_portmap_app,
}

pub data ResourceData : Type 0 where
  one : PortmapResource → ResourceData
  many : List PortmapResource → ResourceData
  new_id : ℕ → ResourceData

-- `validatePortmapResource`; `none` is a nil error.
unfoldable pub validate_portmap_resource : PortmapResource → Option String
validate_portmap_resource res =
    if res.name == ""
    then some "resource name is required"
    else if res.network != "tcp" && res.network != "udp"
    then some "invalid network type, must be tcp or udp"
    else if res.target_addr == ""
    then some "target address is required"
    else if leb_ℤ res.target_port (pos 0) || ltb_ℤ (pos 65535) res.target_port
    then some "invalid target port"
    else if ltb_ℤ (pos 0) res.local_port && ltb_ℤ (pos 65535) res.local_port
    then some "invalid local port"
    else none

-- The last step of a handler: 500 where the save failed.
abbrev pub saved : {P : Type 0} → Option String → Reply P → Reply P
saved none reply = reply
saved (some e) reply = send_message 500 e

module _ {D : Type 0} where
  unfoldable pub list_resources : PortmapResMgr D → Reply ResourceData
  list_resources m = send_data (many (get_resources m)) "ok"

  -- The id in the path is what `strconv.ParseUint` made of it.
  unfoldable pub get_resource : Result ℕ → PortmapResMgr D → Reply ResourceData × PortmapResMgr D
  get_resource (err e) m = (http_error 400 "Invalid ID", m)
  get_resource panic m = (http_error 400 "Invalid ID", m)
  get_resource (ok id) m =
      let (resource, m') = get_app_by_id id m in
      (
        if resource.id == 0
            then send_message 404 "resource not found"
            else send_data (one resource) "",
        m',
      )

module _ {D B : Type 0} (ldb : Leveldb D B) (json : MapJson B PortmapResource) where
  -- `random` is what `rand.Uint64` returns.
  unfoldable pub add_resource :
      Body PortmapResource → ℕ → PortmapResMgr D → Reply ResourceData × PortmapResMgr D
  add_resource (unreadable e) random m = (send_message 500 e, m)
  add_resource (malformed e) random m = (send_message 400 e, m)
  add_resource (parsed pa) random m =
      let (e, m') = add_portmap_res ldb json (record pa { id = random }) m in
      (saved e (send_data (new_id random) "ok"), m')

  unfoldable pub update_resource :
      Body PortmapResource → PortmapResMgr D → Reply ResourceData × PortmapResMgr D
  update_resource (unreadable e) m = (send_message 500 e, m)
  update_resource (malformed e) m = (send_message 400 e, m)
  update_resource (parsed pa) m =
      let (existing, m') = get_app_by_id pa.id m in
      let (e, m'') = update_portmap_res ldb json pa m' in
      if pa.id == 0
      then (send_message 400 "resource id is required", m)
      else if existing.id == 0
      then (send_message 404 "resource not found", m')
      else elim (validate_portmap_resource pa) [
        | some x ↦ (send_message 400 x, m')
        | none ↦ (saved e (send_message 0 "ok"), m'')
      ]

  unfoldable pub delete_resource : Body ℕ → PortmapResMgr D → Reply ResourceData × PortmapResMgr D
  delete_resource (unreadable e) m = (send_message 500 e, m)
  delete_resource (malformed e) m = (send_message 400 e, m)
  delete_resource (parsed id) m =
      let (existing, m') = get_app_by_id id m in
      let (e, m'') = del_portmap_app ldb json id m' in
      if id == 0
      then (send_message 400 "resource id is required", m)
      else if existing.id == 0
      then (send_message 404 "resource not found", m')
      else (saved e (send_message 0 "ok"), m'')

-- `PortmapAppHandshake`
pub record PortmapAppHandshake : Type 0 where
  pub res_id : ℕ
  pub network : String
  pub target_addr : String
  pub target_port : ℤ

-- What the handshake lets the peer connect to.
pub record Target : Type 0 where
  pub network : String
  pub addr : String
  pub port : ℤ

abbrev pub trial_id : ℕ
trial_id = 666666

module _ {D : Type 0} where
  -- `handlePortmapHandshake`, on what `json.Unmarshal` made of the bytes
  unfoldable pub handle_portmap_handshake :
      Bool → Result PortmapAppHandshake → PortmapResMgr D → Result Target × PortmapResMgr D
  handle_portmap_handshake trial (err e) m = (err e, m)
  handle_portmap_handshake trial panic m = (panic, m)
  handle_portmap_handshake trial (ok hs) m =
      let (pa, m') = get_app_by_id hs.res_id m in
      if trial && hs.res_id == trial_id
      then (ok (record { network = hs.network; addr = hs.target_addr; port = hs.target_port }), m)
      else if pa.id == 0
      then (err "portmap app not found", m')
      else (ok (record { network = pa.network; addr = pa.target_addr; port = pa.target_port }), m')
