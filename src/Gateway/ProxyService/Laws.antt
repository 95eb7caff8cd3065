-- ===== src/Gateway/ProxyService/Laws.antt =====
-- The proxy configuration in memory and across a restart.
use uptp.Common.{◌≡◌, ap, ◌∙◌, Option, none, some, String, inl, inr}
use uptp.Gateway.Store.{Leveldb, found, ValueJson, Sum-cases}
use uptp.Gateway.ProxyService.{
  ProxyServiceConfig, ProxyService, empty_config, key_proxy_service_config, load_config,
  save_config, set, set_dns, set_proxy,
}

module _ {D B : Type 0} (ldb : Leveldb D B) (json : ValueJson B ProxyServiceConfig) where
  saved :
      (ps : ProxyService D) (v : B)
      → json.marshal ps.config ≡ inr v
      → save_config ldb json ps ≡ (
        (ldb.put key_proxy_service_config v ps.db).0,
        record ps { db = (ldb.put key_proxy_service_config v ps.db).1 },
      )
  unfolding save_config
  saved ps v e = rw (e, save_config)

  unsaved :
      (ps : ProxyService D) (x : String)
      → json.marshal ps.config ≡ inl x
      → save_config ldb json ps ≡ (some x, ps)
  unfolding save_config
  unsaved ps x e = rw (e, save_config)

  loaded :
      (ps : ProxyService D) (v : B)
      → ldb.get key_proxy_service_config ps.db ≡ found v
      → load_config ldb json ps
        ≡ ((json.unmarshal v ps.config).0, record ps { config = (json.unmarshal v ps.config).1 })
  unfolding load_config
  loaded ps v e = rw (e, load_config)

  -- What a start makes of the database.
  abbrev pub restarted : D → Option String × ProxyService D
  restarted db = load_config ldb json (record { db = db; config = empty_config })

  save_config_restart :
      (ps : ProxyService D)
      → (save_config ldb json ps).0 ≡ none
      → restarted (save_config ldb json ps).1.db
        ≡ (none, record { db = (save_config ldb json ps).1.db; config = ps.config })
  save_config_restart ps h = elim (Sum-cases (json.marshal ps.config)) [
    | inl (x, e) ↦ absurd (cc (h, ap (λ r. r.0) (unsaved ps x e)))
    | inr (v, e) ↦
        let wrote : (ldb.put key_proxy_service_config v ps.db).0 ≡ none = rw (saved ps v e) at h in
        rw (saved ps v e) (
          loaded _ v (ldb.get-put_self key_proxy_service_config v ps.db wrote)
          ∙ rw (json.unmarshal-marshal ps.config empty_config v e))
  ]

  -- After `set`, `setDNS` or `setProxy` returns nil, a restart has the configuration that was set,
  -- with the fields that the call does not name as they were.
  pub set_restart :
      (ps : ProxyService D) (c : ProxyServiceConfig) (dns addr user pass : String)
      → ((set ldb json c ps).0 ≡ none → (restarted (set ldb json c ps).1.db).1.config ≡ c)
        × ((set_dns ldb json dns ps).0 ≡ none
            → (restarted (set_dns ldb json dns ps).1.db).1.config ≡ record ps.config { dns = dns })
        × ((set_proxy ldb json addr user pass ps).0 ≡ none
            → (restarted (set_proxy ldb json addr user pass ps).1.db).1.config
              ≡ record ps.config { proxy_addr = addr; proxy_user = user; proxy_pass = pass })
  unfolding set set_dns set_proxy
  set_restart ps c dns addr user pass = (
    λ h. ap (λ r. r.1.config) (save_config_restart _ h),
    λ h. ap (λ r. r.1.config) (save_config_restart _ h),
    λ h. ap (λ r. r.1.config) (save_config_restart _ h),
  )
