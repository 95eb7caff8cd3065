-- ===== src/Gateway/ProxyService.antt =====
-- gateway/proxy_service.go: the configuration of the proxy that this gateway offers. Each method
-- is one step under `mtx`.
pub mod Laws
use uptp.Common.{ℕ, ◌≡◌, Option, none, some, String, ◌⊎◌, inl, inr}
use uptp.Gateway.Store.{Leveldb, Read, found, not_found, failed, ValueJson}

pub record ProxyServiceConfig : Type 0 where
  pub route : String
  pub dns : String
  pub proxy_addr : String
  pub proxy_user : String
  pub proxy_pass : String

abbrev pub empty_config : ProxyServiceConfig
empty_config = record { route = ""; dns = ""; proxy_addr = ""; proxy_user = ""; proxy_pass = "" }

abbrev pub key_proxy_service_config : String
key_proxy_service_config = "proxy_service_config"

-- `proxyService` with the database that it points to
pub record ProxyService (D : Type 0) : Type 0 where
  pub db : D
  pub config : ProxyServiceConfig

module _ {D B : Type 0} (ldb : Leveldb D B) (json : ValueJson B ProxyServiceConfig) where
  unfoldable pub load_config : ProxyService D → Option String × ProxyService D
  load_config ps = elim (ldb.get key_proxy_service_config ps.db) [
    | failed e ↦ (some e, ps)
    | not_found ↦ (none, ps)
    | found v ↦ let (e, config) = json.unmarshal v ps.config in (e, record ps { config = config })
  ]

  unfoldable pub save_config : ProxyService D → Option String × ProxyService D
  save_config ps = elim (json.marshal ps.config) [
    | inl e ↦ (some e, ps)
    | inr v ↦ let (e, db) = ldb.put key_proxy_service_config v ps.db in (e, record ps { db = db })
  ]

  unfoldable pub set : ProxyServiceConfig → ProxyService D → Option String × ProxyService D
  unfolding save_config
  set config ps = save_config (record ps { config = config })

  unfoldable pub set_dns : String → ProxyService D → Option String × ProxyService D
  unfolding save_config
  set_dns dns ps = save_config (record ps { config = record ps.config { dns = dns } })

  unfoldable pub set_proxy :
      String → String → String → ProxyService D → Option String × ProxyService D
  unfolding save_config
  set_proxy addr user pass ps = save_config (record ps {
    config = record ps.config { proxy_addr = addr; proxy_user = user; proxy_pass = pass };
  })
