-- ===== src/Gateway/InfoApi.antt =====
-- The handlers of gateway/gateway.go on the gateway's name and information, and on the proxy
-- configuration. The process-wide dialer that `socks5.SetOutboundProxy` sets is part of the state.
pub mod Laws
use uptp.Common.{
  ℕ, Option, none, some, String, Result, ok, err, panic, if◌then◌else◌, ◌==◌, nat_eq, text_eq,
}
use uptp.Common.Int.{ℤ}
use uptp.Apiutil.{Reply, Body, dropped, unreadable, malformed, parsed, send_message, send_data}
use uptp.Gateway.Store.{Leveldb, ValueJson, TextBytes}
use uptp.Gateway.Settings.{get_token, set_token}
use uptp.Gateway.Authorize.{StringBytes, get_gateway_name, set_gateway_name}
use uptp.Gateway.ProxyService.{ProxyService, ProxyServiceConfig, set}

pub record GatewayInfo : Type 0 where
  pub p2p_id : String
  pub token : ℕ
  pub name : String
  pub port : ℤ
  pub version : String

abbrev pub gateway_version : String
gateway_version = "0.3.10"

module _ {D B : Type 0} (ldb : Leveldb D B) (text : TextBytes B) (bytes : StringBytes B) where
  -- The token of the reply: a token of 0 is replaced by the second random number.
  unfoldable pub info_token : ℕ → ℕ → D → Result ℕ × D
  info_token random random' db =
      let (r, db') = get_token ldb text random db in
      elim r [
        | err e ↦ (err e, db')
        | panic ↦ (panic, db')
        | ok token ↦
            let (e, db'') = set_token ldb text random' db' in
            if token == 0
            then (elim e [ none ↦ ok random' | some x ↦ err x ], db'')
            else (ok token, db')
      ]

  -- `getGatewayInfo`: `host` is the answer of `os.Hostname`, the node and its port those of libp2p.
  unfoldable pub get_gateway_info : Result String → String → ℤ → ℕ → ℕ → D → Reply GatewayInfo × D
  unfolding info_token
  get_gateway_info host node port random random' db = elim (get_gateway_name ldb bytes host db) [
    | err e ↦ (send_message 500 e, db)
    | panic ↦ (dropped, db)
    | ok name ↦
        let (r, db') = info_token random random' db in
        (
          elim r [
            | err e ↦ send_message 500 e
            | panic ↦ dropped
            | ok token ↦
                send_data
                  (record {
                    p2p_id = node;
                    token = token;
                    name = name;
                    port = port;
                    version = gateway_version;
                  })
                  ""
          ],
          db',
        )
  ]

  -- `updateGatewayName`
  unfoldable pub update_gateway_name : Body String → D → Reply GatewayInfo × D
  update_gateway_name (unreadable e) db = (send_message 500 e, db)
  update_gateway_name (malformed e) db = (send_message 400 e, db)
  update_gateway_name (parsed name) db =
      let (e, db') = set_gateway_name ldb bytes name db in
      if name == ""
      then (send_message 400 "name is required", db)
      else (elim e [ none ↦ send_message 0 "ok" | some x ↦ send_message 500 x ], db')

-- The address, the user and the password of the outer proxy; an empty address is none.
pub record OutboundProxy : Type 0 where
  pub addr : String
  pub user : String
  pub pass : String

-- The service, which may be nil, and the process-wide dialer
pub record ProxyState (D : Type 0) : Type 0 where
  pub service : Option (ProxyService D)
  pub dialer : OutboundProxy

unfoldable pub get_proxy_config : {D : Type 0} → ProxyState D → Reply ProxyServiceConfig
get_proxy_config s = elim s.service [
  | none ↦ send_message 500 "proxy service not initialized"
  | some ps ↦ send_data ps.config ""
]

module _ {D B : Type 0} (ldb : Leveldb D B) (json : ValueJson B ProxyServiceConfig) where
  -- `updateProxyConfig`
  unfoldable pub update_proxy_config :
      Body ProxyServiceConfig → ProxyState D → Reply ProxyServiceConfig × ProxyState D
  update_proxy_config body s = elim s.service [
    | none ↦ (send_message 500 "proxy service not initialized", s)
    | some ps ↦ elim body [
      | unreadable e ↦ (send_message 500 e, s)
      | malformed e ↦ (send_message 400 e, s)
      | parsed req ↦
          let (e, ps') = set ldb json req ps in
          elim e [
            | some x ↦ (send_message 500 x, record s { service = some ps' })
            | none ↦ (
              send_message 0 "ok",
              record {
                service = some ps';
                dialer = record {
                  addr = req.proxy_addr;
                  user = req.proxy_user;
                  pass = req.proxy_pass;
                };
              },
            )
          ]
    ]
  ]
