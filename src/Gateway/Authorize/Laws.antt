-- ===== src/Gateway/Authorize/Laws.antt =====
-- Who is authorized, and which requests end the process.
use uptp.Common.{
  ℕ, ◌≡◌, ◌≢◌, ◌↔◌, ◌⊎◌, inl, inr, refl, sym, ap, ◌∙◌, arith, Option, none, some, String,
}
use uptp.Common.{Bool, true, Option-cases, Result, ok, nat_beq_self}
use uptp.Common.{nat_eq}
use native.Mathlib.Decide.{ℕ_discrete}
use uptp.Gateway.Store.{Leveldb, TextBytes, lookup_in}
use uptp.Gateway.PortmapResource.{PortmapResource, PortmapResMgr, get_app_by_id}
use uptp.Gateway.ResourceApi.{trial_id, handle_portmap_handshake, PortmapAppHandshake, Target}
use uptp.Gateway.ResourceApi.Laws.{
  IsKeyed, found_app, missing_app, request_cases, asked_target, target_of,
  handle_portmap_handshake_iff,
}
use uptp.Gateway.Settings.{get_token}
use uptp.Gateway.ProxyService.{ProxyServiceConfig}
use uptp.Gateway.Authorize.{
  portmap_auth_res, handle_portmap_auth, authorize_handler, handle_proxy_auth, proxy_resp,
  authorize_type_portmap, AuthorizeProxyInfo, wrote, crashed,
}

module _ {D : Type 0} (m : PortmapResMgr D) (keyed : IsKeyed m) where
  stands :
      (id : ℕ)
      → (get_app_by_id id m).0.id ≡ id
      → (id ≡ 0) ⊎ ((r : PortmapResource) × (lookup_in id m.resources ≡ some r))
  stands id e = elim (Option-cases (lookup_in id m.resources)) [
    | inl l ↦ inl (sym e ∙ ap (λ r. r.id) (missing_app id m l))
    | inr found ↦ inr found
  ]

  zero_stands : (get_app_by_id 0 m).0.id ≡ 0
  zero_stands = elim (Option-cases (lookup_in 0 m.resources)) [
    | inl l ↦ ap (λ r. r.id) (missing_app 0 m l)
    | inr (r, l) ↦ ap (λ r. r.id) (found_app 0 m r l) ∙ keyed.at_key 0 r l
  ]

  resource_stands :
      (id : ℕ) (r : PortmapResource)
      → lookup_in id m.resources ≡ some r
      → (get_app_by_id id m).0.id ≡ id
  resource_stands id r l = ap (λ r. r.id) (found_app id m r l) ∙ keyed.at_key id r l

  -- Where every resource stands under its own id, a port mapping is authorized exactly if this is
  -- a trial gateway and the trial id is asked for, or a resource stands under the id, or the id is
  -- 0, whether or not a resource stands there.
  pub portmap_auth_res_iff :
      (trial : Bool) (id : ℕ)
      → ((portmap_auth_res trial id m).0 ≡ true) ↔ (
          ((trial ≡ true) × (id ≡ trial_id))
          ⊎ ((id ≡ 0) ⊎ ((r : PortmapResource) × (lookup_in id m.resources ≡ some r))))
  unfolding portmap_auth_res
  portmap_auth_res_iff trial id = (
    λ h. elim (ℕ_discrete (get_app_by_id id m).0.id id) [
      | yes e ↦ inr (stands id e)
      | no n ↦ inl (ground arith)
    ],
    λ g. elim g [
      | inl (t, e) ↦ rw (t, e)
      | inr (inl z) ↦ ground (arith, zero_stands, ap (λ k. (get_app_by_id k m).0.id) z)
      | inr (inr (r, l)) ↦ ground (arith, resource_stands id r l)
    ],
  )

  -- Where every resource stands under its own id, a port mapping on an id other than 0 is
  -- authorized exactly if a handshake on that id is answered with a target.
  pub authorized_iff_reachable :
      (trial : Bool) (hs : PortmapAppHandshake)
      → hs.res_id ≢ 0
      → ((portmap_auth_res trial hs.res_id m).0 ≡ true)
        ↔ ((t : Target) × ((handle_portmap_handshake trial (ok hs) m).0 ≡ ok t))
  authorized_iff_reachable trial hs ne = (
    λ h. elim (request_cases trial hs) [
      | inl b ↦ (
        asked_target hs,
        (handle_portmap_handshake_iff trial hs m keyed (asked_target hs)).1 (inl (b, refl)),
      )
      | inr n ↦ elim ((portmap_auth_res_iff trial hs.res_id).0 h) [
        | inl b ↦ absurd (n b)
        | inr (inl z) ↦ absurd (ne z)
        | inr (inr (r, l)) ↦ (
          target_of r,
          (handle_portmap_handshake_iff trial hs m keyed (target_of r)).1
              (inr (n, ne, (r, l, refl))),
        )
      ]
    ],
    λ (t, e). elim ((handle_portmap_handshake_iff trial hs m keyed t).0 e) [
      | inl (b, _) ↦ (portmap_auth_res_iff trial hs.res_id).1 (inl b)
      | inr (n, _, (r, l, _)) ↦ (portmap_auth_res_iff trial hs.res_id).1 (inr (inr (r, l)))
    ],
  )

module _ {D B : Type 0} (ldb : Leveldb D B) (text : TextBytes B) where
  -- A document of a port mapping's request without a port mapping ends the process, whoever sends
  -- it and whatever the gateway holds.
  pub authorize_handler_nil :
      (trial : Bool) (random : ℕ) (name : Result String) (pc : ProxyServiceConfig)
      (proxy : Option AuthorizeProxyInfo) (m : PortmapResMgr D) (db : D)
      → (authorize_handler ldb text trial random name pc
          (some (record { type = authorize_type_portmap; portmap = none; proxy = proxy }))
          m
          db).0
        ≡ crashed
  unfolding authorize_handler handle_portmap_auth
  authorize_handler_nil trial random name pc proxy m db = refl

  -- A request with a proxy part is granted the proxy, with the gateway's settings, exactly if it
  -- shows the token that `getToken` returns.
  pub handle_proxy_auth_iff :
      (random : ℕ) (name : Result String) (pc : ProxyServiceConfig) (asked : AuthorizeProxyInfo)
      (db : D)
      → ((handle_proxy_auth ldb text random name pc (some asked) db).0 ≡ wrote (proxy_resp name pc))
        ↔ ((get_token ldb text random db).0 ≡ ok asked.token)
  unfolding handle_proxy_auth
  handle_proxy_auth_iff random name pc asked db =
      (λ h. ground (arith), λ e. ground (arith, e, nat_beq_self asked.token))
