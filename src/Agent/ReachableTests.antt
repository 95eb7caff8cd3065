-- ===== src/Agent/ReachableTests.antt =====
-- An agent that asks a gateway for an app, run.
use uptp.Common.{
  ℕ, length, ◌≡◌, refl, arith, none, some, List, [], ◌∷◌, true, false, Answer, gives, fails, ok, ap,
  ◌==◌, ◌&&◌, if◌then◌else◌, nat_eq, text_eq, eq_iff,
}
use uptp.Common.Int.{pos, int_eq, beq_ℤ_iff}
use uptp.Common.GoMap.{lookup}
use uptp.Portmap.Listeners.{add_listener}
use uptp.Gateway.Memory.{Db, memory, app_json, ascii_bytes}
use uptp.Gateway.Store.{save_map, lookup_in}
use uptp.Gateway.PortmapApp.{PortmapApp, zero_app, update_portmap_app, save_portmap}
use uptp.Gateway.PortmapResource.{PortmapResource, PortmapResMgr, get_app_by_id}
use uptp.Gateway.ProxyService.{empty_config}
use uptp.Gateway.ResourceApi.{PortmapAppHandshake, Target, handle_portmap_handshake}
use uptp.Gateway.Authorize.{
  AuthorizeReq, AuthorizeResp, wrote, authorize_handler, handle_portmap_auth, portmap_auth_res,
}
use uptp.Gateway.Authorize.Asking.{
  WireJson, written, read_once, read_request, read_response, resource_authorize, handling,
}
use uptp.Gateway.AppApi.{open_app}
use uptp.Agent.Apps.{AgentState, add_app, granted_app}
use uptp.Agent.Apps.Reachable.{asked_for, outcome, answer_of, add_app_reachable}

-- Documents for the requests on a port mapping, and for one response; nothing else is marshalled.
abbrev request_doc : AuthorizeReq → Answer (List ℕ)
request_doc r = elim r.portmap [
  | none ↦ fails "portmap"
  | some info ↦ elim r.proxy [
    | some p ↦ fails "proxy"
    | none ↦ if r.type == pos 1 then gives (1 ∷ info.resource_id ∷ []) else fails "type"
  ]
]

abbrev request_of : List ℕ → Answer AuthorizeReq
request_of (t ∷ id ∷ []) =
    gives (record { type = pos 1; portmap = some (record { resource_id = id }); proxy = none })
request_of _ = fails "syntax"

request_read :
    (r : AuthorizeReq) (doc : List ℕ) → request_doc r ≡ gives doc → request_of doc ≡ gives r
request_read r doc h = ground (arith, h, beq_ℤ_iff r.type (pos 1))

request_ne : (r : AuthorizeReq) → request_doc r ≡ gives [] → ⊥
request_ne r h = ground (arith, h)

abbrev requests : WireJson AuthorizeReq
requests = record {
  marshal = request_doc;
  unmarshal = request_of;
  unmarshal-marshal = request_read;
  marshal-ne = request_ne;
}

abbrev granted : AuthorizeResp
granted = record { node_name = "gw"; err_text = ""; portmap_is_trial = some false; proxy = none }

abbrev response_doc : AuthorizeResp → Answer (List ℕ)
response_doc r = elim r.portmap_is_trial [
  | none ↦ fails "portmap"
  | some true ↦ fails "trial"
  | some false ↦ elim r.proxy [
    | some p ↦ fails "proxy"
    | none ↦ if r.node_name == "gw" && r.err_text == "" then gives (2 ∷ []) else fails "text"
  ]
]

abbrev response_of : List ℕ → Answer AuthorizeResp
response_of (b ∷ []) = gives granted
response_of _ = fails "syntax"

response_read :
    (r : AuthorizeResp) (doc : List ℕ) → response_doc r ≡ gives doc → response_of doc ≡ gives r
response_read r doc h = ground (arith, h, eq_iff r.node_name "gw", eq_iff r.err_text "")

response_ne : (r : AuthorizeResp) → response_doc r ≡ gives [] → ⊥
response_ne r h = ground (arith, h)

abbrev responses : WireJson AuthorizeResp
responses = record {
  marshal = response_doc;
  unmarshal = response_of;
  unmarshal-marshal = response_read;
  marshal-ne = response_ne;
}

abbrev ssh : PortmapResource
ssh = record {
  id = 7;
  name = "ssh";
  type = pos 0;
  network = "tcp";
  target_addr = "10.0.0.1";
  target_port = pos 22;
  local_ip = "";
  local_port = pos 0;
}

abbrev home : PortmapResMgr Db
home = record { db = []; resources = some ((7, ssh) ∷ []) }

at_seven : (id : ℕ) (r : PortmapResource) → lookup_in id home.resources ≡ some r → r.id ≡ id
unfolding lookup
at_seven id r h = ground (arith, h)

abbrev app : PortmapApp
app = record zero_app { res_id = 7; network = "tcp"; local_port = pos 8080; running = true }

abbrev agent : AgentState Db
agent = record { am = record { db = []; apps = [] }; listeners = []; running = true }

abbrev to_ssh : PortmapAppHandshake
to_ssh = record { res_id = 7; network = ""; target_addr = ""; target_port = pos 0 }

answered :
    (add_app memory app_json app 9
      (answer_of requests responses memory ascii_bytes false 42
        (ok "gw")
        empty_config
        home
        []
        app
        "12D3"
        2
        1)
      (ok (pos 8080))
      agent).0
    ≡ ok none
unfolding add_app granted_app open_app update_portmap_app save_portmap save_map add_listener lookup
    asked_for resource_authorize handling authorize_handler handle_portmap_auth portmap_auth_res
    get_app_by_id read_once read_request read_response written
answered = refl

granted_by : outcome memory ascii_bytes false 42 (ok "gw") empty_config home [] app ≡ wrote granted
unfolding asked_for authorize_handler handle_portmap_auth portmap_auth_res get_app_by_id lookup
granted_by = refl

one_byte :
    written requests responses
      (outcome memory ascii_bytes false 42 (ok "gw") empty_config home [] app)
    ≡ 2 ∷ []
unfolding written
one_byte = ap (written requests responses) granted_by

add_app_reachable_example :
    (t : Target) × ((handle_portmap_handshake false (ok to_ssh) home).0 ≡ ok t)
unfolding asked_for
add_app_reachable_example =
    add_app_reachable requests responses memory ascii_bytes false 42 (ok "gw") empty_config home []
      memory app_json app 9 "12D3" (1 ∷ 7 ∷ []) 2 1 (ok (pos 8080)) agent to_ssh
      (record { at_key = at_seven }) refl (omega arith) (omega arith)
      (omega (arith, ap length one_byte)) (omega (arith, ap length one_byte)) answered refl
      (λ e. omega (arith, e))
