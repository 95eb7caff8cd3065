-- ===== src/Agent/Apps/Reachable.antt =====
-- `addApp` of agent/agent.go against a gateway: the agent asks with `ResourceAuthorize`, the gateway answers with
-- `authorizeHandler`, and the connections of the app are served by `handlePortmapHandshake` (gateway/gateway.go).
use uptp.Common.{
  ℕ, ◌≤◌, ◌≡◌, ◌≢◌, ◌∙◌, inl, inr, sym, ap, refl, arith, Bool, true, none, some, String, List,
  length, Answer, gives, fails, Bool-cases, Result, ok, err, nat_eq, text_eq,
}
use uptp.Common.Int.{ℤ, int_eq}
use uptp.Gateway.Store.{Leveldb, MapJson, TextBytes}
use uptp.Gateway.PortmapApp.{PortmapApp}
use uptp.Gateway.PortmapResource.{PortmapResMgr}
use uptp.Gateway.ProxyService.{ProxyServiceConfig}
use uptp.Gateway.ResourceApi.{PortmapAppHandshake, Target, handle_portmap_handshake}
use uptp.Gateway.ResourceApi.Laws.{IsKeyed}
use uptp.Gateway.Authorize.{
  AuthorizeReq, AuthorizeResp, Outcome, silent, wrote, crashed, authorize_type_portmap,
  portmap_auth_res, handle_portmap_auth, authorize_handler,
}
use uptp.Gateway.Authorize.Laws.{authorized_iff_reachable}
use uptp.Gateway.Authorize.Asking.{
  WireJson, buffer_size, written, heard, resource_authorize, handling, resource_authorize-handler,
}
use uptp.Agent.Apps.{AgentState, add_app}
use uptp.Agent.Apps.Laws.{add_app_target}

-- The request that `addApp` makes for an app
unfoldable pub asked_for : PortmapApp → AuthorizeReq
asked_for a = record {
  type = authorize_type_portmap;
  portmap = some (record { resource_id = a.res_id });
  proxy = none;
}

-- What `ResourceAuthorize` returns, as the caller sees it
abbrev pub returned {ℓ} : {A : Type ℓ} → Answer A → Result A
returned (gives a) = ok a
returned (fails e) = err e

returned_gives :
    (x : Answer AuthorizeResp) (rsp : AuthorizeResp) → returned x ≡ ok rsp → x ≡ gives rsp
returned_gives x rsp h = ground (arith, h)

module _ {D : Type 0} where
  -- A document without an error text is one that authorizes.
  authorized_by :
      (trial : Bool) (name : Result String) (id : ℕ) (m : PortmapResMgr D) (rsp : AuthorizeResp)
      → (handle_portmap_auth trial name (some (record { resource_id = id })) m).0 ≡ wrote rsp
      → rsp.err_text ≡ ""
      → (portmap_auth_res trial id m).0 ≡ true
  unfolding handle_portmap_auth
  authorized_by trial name id m rsp h e = elim (Bool-cases (portmap_auth_res trial id m).0) [
    | inl b ↦ b
    | inr b ↦
        let refused : rsp.err_text ≡ "authorize failed" = ground (arith, h, b) in
        absurd (cc (refused, e))
  ]

module _ {D B : Type 0} (ldb : Leveldb D B) (text : TextBytes B) (trial : Bool) (random : ℕ)
    (name : Result String) (pc : ProxyServiceConfig) (m : PortmapResMgr D) (db : D) where
  -- What the gateway makes of the request for an app
  abbrev pub outcome : PortmapApp → Outcome
  outcome a = (authorize_handler ldb text trial random name pc (some (asked_for a)) m db).0

  outcome-asked_for :
      (a : PortmapApp)
      → outcome a ≡ (handle_portmap_auth trial name (some (record { resource_id = a.res_id })) m).0
  unfolding asked_for authorize_handler
  outcome-asked_for a = refl

module _ (req_json : WireJson AuthorizeReq) (resp_json : WireJson AuthorizeResp) where
  -- Only what was written is heard as a response.
  heard_wrote :
      (o : Outcome) (rsp : AuthorizeResp) → heard req_json resp_json o ≡ gives rsp → o ≡ wrote rsp
  unfolding heard
  heard_wrote silent rsp h = absurd (cc h)
  heard_wrote crashed rsp h = absurd (cc h)
  heard_wrote (wrote resp) rsp h = ground (arith, h)

  module _ {D B : Type 0} (ldb : Leveldb D B) (text : TextBytes B) (trial : Bool) (random : ℕ)
      (name : Result String) (pc : ProxyServiceConfig) (m : PortmapResMgr D) (db : D) where
    -- The answer that the agent gets to the request for an app from this gateway, of which, and of the request,
    -- so many bytes have arrived when they are read
    abbrev pub answer_of : PortmapApp → String → ℕ → ℕ → Result AuthorizeResp
    answer_of a pid there back = returned (
        resource_authorize req_json resp_json (asked_for a) (ok pid) none
          (handling req_json resp_json ldb text trial random name pc m db there) back)

    module _ {E F : Type 0} (agent_ldb : Leveldb E F) (app_json : MapJson F PortmapApp) where
      -- Where every resource of a gateway stands under its own id, and an agent's addition of an app on a resource
      -- other than 0 returns nil on what this gateway answers to its request, every handshake on that resource
      -- is answered by this gateway with a target. The request and its answer have at most 1024 bytes and have
      -- arrived whole when they are read.
      pub add_app_reachable :
          (a : PortmapApp) (id : ℕ) (pid : String) (doc : List ℕ) (there back : ℕ)
          (listen : Result ℤ) (s : AgentState E) (hs : PortmapAppHandshake)
          → IsKeyed m
          → req_json.marshal (asked_for a) ≡ gives doc
          → length doc ≤ there
          → length doc ≤ buffer_size
          → length (written req_json resp_json (outcome ldb text trial random name pc m db a))
            ≤ back
          → length (written req_json resp_json (outcome ldb text trial random name pc m db a))
            ≤ buffer_size
          → (add_app agent_ldb app_json a id (answer_of a pid there back) listen s).0 ≡ ok none
          → hs.res_id ≡ a.res_id
          → hs.res_id ≢ 0
          → (t : Target) × ((handle_portmap_handshake trial (ok hs) m).0 ≡ ok t)
      add_app_reachable a id pid doc there back listen s hs keyed d t1 t2 b1 b2 h same ne =
          let (rsp, app, answered, clean, stored, target) =
            add_app_target agent_ldb app_json a id (answer_of a pid there back) listen s h in
          let asked =
            resource_authorize-handler req_json resp_json ldb text trial random name pc m db
              (asked_for a) pid doc there back d t1 t2 b1 b2 in
          let told : returned
                (heard req_json resp_json (outcome ldb text trial random name pc m db a))
              ≡ ok rsp =
            ap returned (sym asked) ∙ answered in
          let wrote_it : outcome ldb text trial random name pc m db a ≡ wrote rsp =
            heard_wrote (outcome ldb text trial random name pc m db a) rsp
              (returned_gives _ rsp told) in
          let auth : (portmap_auth_res trial a.res_id m).0 ≡ true =
            authorized_by trial name a.res_id m rsp
              (sym (outcome-asked_for ldb text trial random name pc m db a) ∙ wrote_it) clean in
          (authorized_iff_reachable m keyed trial hs ne).0 (rw same auth)
