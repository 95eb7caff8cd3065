-- ===== src/Gateway/InfoApi/Laws.antt =====
-- What the configuration handler leaves behind.
use uptp.Common.{◌≡◌, arith, ap, some}
use uptp.Common.{if◌then◌else◌, ◌==◌, nat_eq}
use uptp.Apiutil.{parsed, send_message, send_data, code_of}
use uptp.Gateway.Store.{Leveldb, ValueJson}
use uptp.Gateway.ProxyService.{ProxyService, ProxyServiceConfig, set}
use uptp.Gateway.InfoApi.{ProxyState, update_proxy_config, get_proxy_config}

module _ {D B : Type 0} (ldb : Leveldb D B) (json : ValueJson B ProxyServiceConfig) where
  set-config : (c : ProxyServiceConfig) (ps : ProxyService D) → (set ldb json c ps).1.config ≡ c
  unfolding set
  set-config c ps = ground arith

  -- Where the service is there, a new configuration that parses is the one that is then reported, also
  -- where the reply is an error because it was not saved; the dialer has its proxy exactly where the
  -- reply is code 0, and is as it was otherwise.
  pub update_proxy_config_lem :
      (req : ProxyServiceConfig) (ps : ProxyService D) (s : ProxyState D)
      → s.service ≡ some ps
      → (get_proxy_config (update_proxy_config ldb json (parsed req) s).1 ≡ send_data req "")
        × ((update_proxy_config ldb json (parsed req) s).1.dialer ≡ (
            if code_of (update_proxy_config ldb json (parsed req) s).0 == 0
            then record { addr = req.proxy_addr; user = req.proxy_user; pass = req.proxy_pass }
            else s.dialer))
  unfolding update_proxy_config get_proxy_config send_message
  update_proxy_config_lem req ps s h = (
    ground (
      arith,
      h,
      set-config req ps,
      ap (λ c. send_data {P = ProxyServiceConfig} c "") (set-config req ps),
    ),
    ground (arith, h),
  )
