-- ===== src/Agent/Tests.antt =====
-- The calls of an agent, run on a database in memory.
use uptp.Common.{◌≡◌, inr, refl, none, some, String, [], ◌∷◌}
use uptp.Common.{true, false, ok, nat_eq, text_eq}
use uptp.Common.Int.{ℤ, pos}
use uptp.Common.GoMap.{lookup}
use uptp.Gateway.Memory.{Doc, Db, memory, app_json}
use uptp.Gateway.PortmapApp.{PortmapApp, zero_app}
use uptp.Gateway.Authorize.{AuthorizeResp}
use uptp.Agent.Apps.{AgentState, update_app}
use uptp.Agent.Apps.Laws.{update_app_keeps}
use uptp.Agent.Proxies.{
  ProxyGateway, ProxyMgr, ProxyJson, Error, del_proxy_by_index, get_proxy_by_index,
}

abbrev web : PortmapApp
web = record zero_app {
  id = 5;
  network = "tcp";
  local_ip = "";
  local_port = pos 8080;
  running = true;
}

abbrev agent : AgentState Db
agent = record {
  am = record { db = []; apps = (5, web) ∷ [] };
  listeners = ("tcp://:8080", pos 8080) ∷ [];
  running = true;
}

abbrev granted : AuthorizeResp
granted = record { node_name = "home"; err_text = ""; portmap_is_trial = some false; proxy = none }

-- Documents that hold no proxy: the list in memory is what the calls are about.
abbrev no_documents : ProxyJson Doc
no_documents = record {
  marshal = λ l. inr (Doc.string "proxys");
  unmarshal = λ v target. (some "unmarshal", target);
}

abbrev delete_nothing : String → Db → Error × Db
delete_nothing key db = (none, db)

abbrev proxy : String → ProxyGateway
proxy name = record {
  peer = record { id = name; user_name = []; password = [] };
  name = name;
  peer_id = name;
  token = 1;
  route = "";
  dns = "";
}

abbrev three : ProxyMgr Db
three = record { db = []; proxys = some (proxy "a" ∷ proxy "b" ∷ proxy "c" ∷ []) }

third :
    get_proxy_by_index
      (pos 1)
      (del_proxy_by_index memory no_documents delete_nothing (pos 1) three).1
    ≡ ok (some (proxy "c"))
unfolding get_proxy_by_index del_proxy_by_index
third = refl

abbrev moved : PortmapApp
moved = record web { local_port = pos 9090 }

listening : lookup "tcp://:8080" agent.listeners ≡ some (pos 8080)
unfolding lookup
listening = refl

update_app_keeps_example :
    (real : ℤ) × (lookup "tcp://:8080"
        (update_app memory app_json moved (ok (pos 9090)) agent).1.listeners
      ≡ some real)
update_app_keeps_example =
    update_app_keeps memory app_json moved (ok (pos 9090)) agent "tcp://:8080" (pos 8080) refl
      listening
