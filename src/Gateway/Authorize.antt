-- ===== src/Gateway/Authorize.antt =====
-- gateway/authorize.go: how a peer is answered whether it may use a resource or the
-- proxy. With it the gateway's name from gateway/gateway.go. A
-- handler of a stream writes one document or closes the stream; a panic in it ends the process.
pub mod Laws
pub mod Asking
use uptp.Common.{
  ℕ, Bool, true, false, Option, none, some, String, Result, ok, err, panic, ◌⊎◌, inl, inr,
}
use uptp.Common.{if◌then◌else◌, ◌==◌, ◌&&◌, nat_eq, text_eq}
use uptp.Common.Int.{ℤ, pos, int_eq}
use uptp.Gateway.Store.{Leveldb, found, not_found, failed, TextBytes}
use uptp.Gateway.PortmapResource.{PortmapResMgr, get_app_by_id}
use uptp.Gateway.ResourceApi.{trial_id}
use uptp.Gateway.Settings.{get_token}
use uptp.Gateway.ProxyService.{ProxyServiceConfig}

abbrev pub authorize_type_portmap : ℤ
authorize_type_portmap = pos 1

abbrev pub authorize_type_proxy : ℤ
authorize_type_proxy = pos 2

-- `AuthorizePortmapInfo`
pub record AuthorizePortmapInfo : Type 0 where
  pub resource_id : ℕ

pub record AuthorizeProxyInfo : Type 0 where
  pub token : ℕ
  pub route : String
  pub dns : String

-- A pointer that may be nil is an option.
pub record AuthorizeReq : Type 0 where
  pub type : ℤ
  pub portmap : Option AuthorizePortmapInfo
  pub proxy : Option AuthorizeProxyInfo

pub record AuthorizeProxyResp : Type 0 where
  pub route : String
  pub dns : String

pub record AuthorizeResp : Type 0 where
  pub node_name : String
  pub err_text : String
  pub portmap_is_trial : Option Bool
  pub proxy : Option AuthorizeProxyResp

-- What the peer sees: nothing, a document, or the end of this process.
pub data Outcome : Type 0 where
  silent : Outcome
  wrote : AuthorizeResp → Outcome
  crashed : Outcome

abbrev pub db_key_gateway_name : String
db_key_gateway_name = "gateway_name"

-- `[]byte(s)` and `string(v)` at any text
pub record StringBytes (B : Type 0) : Type 0 where
  pub of_string : String → B
  pub to_string : B → String

module _ {D B : Type 0} (ldb : Leveldb D B) (bytes : StringBytes B) where
  -- `host` is the answer of `os.Hostname`.
  unfoldable pub get_gateway_name : Result String → D → Result String
  get_gateway_name host db = elim (ldb.get db_key_gateway_name db) [
    | failed e ↦ err e
    | not_found ↦ host
    | found v ↦ ok (bytes.to_string v)
  ]

  unfoldable pub set_gateway_name : String → D → Option String × D
  set_gateway_name name db = ldb.put db_key_gateway_name (bytes.of_string name) db

-- A response with the gateway's name, or with the error of reading it.
abbrev pub named : Result String → AuthorizeResp → AuthorizeResp
named (ok name) resp = record resp { node_name = name }
named (err e) resp = record resp { err_text = e }
named panic resp = resp

abbrev pub empty_portmap_resp : AuthorizeResp
empty_portmap_resp = record {
  node_name = "";
  err_text = "";
  portmap_is_trial = some false;
  proxy = none;
}

module _ {D : Type 0} where
  -- `authRes`, and the resources afterwards
  unfoldable pub portmap_auth_res : Bool → ℕ → PortmapResMgr D → Bool × PortmapResMgr D
  portmap_auth_res trial id m =
      let (res, m') = get_app_by_id id m in
      if id == trial_id && trial then (true, m) else (res.id == id, m')

  -- `name` is what `getGatewayName` returns. The document always marshals.
  unfoldable pub handle_portmap_auth :
      Bool
      → Result String
      → Option AuthorizePortmapInfo
      → PortmapResMgr D
      → Outcome × PortmapResMgr D
  unfolding portmap_auth_res
  handle_portmap_auth trial name none m = (crashed, m)
  handle_portmap_auth trial name (some info) m =
      let (auth_res, m') = portmap_auth_res trial info.resource_id m in
      let granted : AuthorizeResp =
        named name
          (record empty_portmap_resp { portmap_is_trial = some (info.resource_id == trial_id) }) in
      let refused : AuthorizeResp = record empty_portmap_resp { err_text = "authorize failed" } in
      (wrote (if auth_res then granted else refused), m')

-- A setting, or its default where it is empty
abbrev pub or_default : String → String → String
or_default s d = if s == "" then d else s

abbrev pub proxy_resp : Result String → ProxyServiceConfig → AuthorizeResp
proxy_resp name pc = named name (record {
  node_name = "";
  err_text = "";
  portmap_is_trial = none;
  proxy =
      some (record { route = or_default pc.route "0.0.0.0/0"; dns = or_default pc.dns "8.8.8.8" });
})

module _ {D B : Type 0} (ldb : Leveldb D B) (text : TextBytes B) where
  -- `random` is what `rand.Uint64` would return to `getToken`.
  unfoldable pub handle_proxy_auth :
      ℕ → Result String → ProxyServiceConfig → Option AuthorizeProxyInfo → D → Outcome × D
  handle_proxy_auth random name pc info db =
      let (r, db') = get_token ldb text random db in
      (
        elim r [
          | err e ↦ silent
          | panic ↦ crashed
          | ok token ↦ elim info [
            | none ↦ crashed
            | some asked ↦ if token == asked.token then wrote (proxy_resp name pc) else silent
          ]
        ],
        db',
      )

  -- `authorizeHandler`, on what it reads: none where the read or the decoding fails. `m` stands for
  -- the resources; its database is not the one the token is in, as far as this handler goes.
  unfoldable pub authorize_handler :
      Bool
      → ℕ
      → Result String
      → ProxyServiceConfig
      → Option AuthorizeReq
      → PortmapResMgr D
      → D
      → Outcome × PortmapResMgr D × D
  authorize_handler trial random name pc none m db = (silent, m, db)
  authorize_handler trial random name pc (some req) m db =
      let (o, m') = handle_portmap_auth trial name req.portmap m in
      let (o', db') = handle_proxy_auth random name pc req.proxy db in
      if req.type == authorize_type_portmap
      then (o, m', db)
      else if req.type == authorize_type_proxy
      then (o', m, db')
      else (silent, m, db)
