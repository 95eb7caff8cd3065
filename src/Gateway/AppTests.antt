-- ===== src/Gateway/AppTests.antt =====
-- The port mappings and the sessions of package gateway, run on a database in memory.
use uptp.Common.{ℕ, ◌≡◌, ◌≢◌, ◌↔◌, refl, none, some, [], ◌∷◌}
use uptp.Common.{true, false, ok, err, if◌then◌else◌, ◌==◌, nat_eq, text_eq}
use uptp.Common.Int.{pos}
use uptp.Common.GoMap.{lookup}
use uptp.Apiutil.{parsed, send_message, code_of}
use uptp.Portmap.Listeners.{add_listener, convert_index}
use uptp.Gateway.Memory.{Doc, Db, memory, app_json, string_bytes}
use uptp.Gateway.Store.{save_map}
use uptp.Gateway.PortmapApp.{
  PortmapApp, zero_app, find_app_with_port, update_portmap_app, save_portmap,
}
use uptp.Gateway.PortmapApp.Laws.{Entry, Listens}
use uptp.Gateway.ResourceApi.{PortmapAppHandshake}
use uptp.Gateway.Authorize.{AuthorizeResp}
use uptp.Gateway.AppApi.{AppState, open_app, add_app, store_app, get_handshake}
use uptp.Gateway.AppApi.Laws.{add_app_accepted, get_handshake_found}
use uptp.Gateway.Sessions.{
  SessionState, PasswordChange, Login, Request, served, success, logged_in, key_admin_password,
  auth_middleware, is_exempt, request_token, handle_logout, handle_login, handle_change_password,
}
use uptp.Gateway.Sessions.Laws.{login-change}

abbrev web : PortmapApp
web = record zero_app {
  id = 5;
  peer_id = "12D3";
  res_id = 7;
  network = "tcp";
  local_ip = "0.0.0.0";
  local_port = pos 8080;
  running = true;
}

abbrev web_twin : PortmapApp
web_twin = record web { id = 6; res_id = 8 }

-- Two running apps on one port.
abbrev twins : AppState Db
twins = record {
  pam = record { db = []; apps = (5, web) ∷ (6, web_twin) ∷ [] };
  listeners = ("tcp://0.0.0.0:8080", pos 8080) ∷ [];
}

abbrev granted : AuthorizeResp
granted = record { node_name = "home"; err_text = ""; portmap_is_trial = some false; proxy = none }

answered : code_of (add_app memory app_json (parsed web) (ok granted) 9 (err "in use") twins).0 ≡ 0
unfolding add_app store_app open_app add_listener update_portmap_app save_portmap save_map
    send_message lookup convert_index
answered = refl

add_app_accepted_example :
    (resp : AuthorizeResp) × (ok granted ≡ ok resp)
    × (resp.err_text ≡ "")
    × ((k : ℕ)
        → lookup k
            (add_app memory app_json (parsed web) (ok granted) 9 (err "in use") twins).1.pam.apps
          ≡ (if 9 == k
              then some
                  (open_app
                    (record web { peer_name = resp.node_name; id = 9 })
                    (err "in use")
                    twins.listeners).0
              else lookup k twins.pam.apps))
add_app_accepted_example =
    add_app_accepted memory app_json web (ok granted) 9 (err "in use") twins answered

abbrev to_seven : PortmapAppHandshake
to_seven = record { res_id = 7; network = "tcp"; target_addr = ""; target_port = pos 0 }

sent : get_handshake "tcp" (pos 8080) twins ≡ some ("12D3", to_seven)
unfolding get_handshake find_app_with_port
sent = refl

get_handshake_found_example :
    (k : ℕ) × ((app : PortmapApp) × Entry k app twins.pam.apps
      × Listens "tcp" (pos 8080) app
      × (app.peer_id ≡ "12D3")
      × (app.res_id ≡ to_seven.res_id)
      × (app.res_id ≢ 0)
      × (app.target_addr ≡ "")
      × (app.target_port ≡ pos 0))
get_handshake_found_example = get_handshake_found "tcp" (pos 8080) twins "12D3" to_seven sent

-- The console with its first password and one session.
abbrev console : SessionState Db
console = record {
  db = (key_admin_password, Doc.string "admin123") ∷ [];
  sessions = some (("t1", true) ∷ []);
}

abbrev by_cookie : Request
by_cookie = record {
  path = "/apps.html";
  authorization = "";
  cookie = some "t1";
  accept = "text/html";
}

still_served : auth_middleware by_cookie (handle_logout "" console).1 ≡ served
unfolding auth_middleware handle_logout request_token is_exempt lookup
still_served = refl

abbrev login : Login
login = record { username = "admin"; password = "admin123" }

abbrev change : PasswordChange
change = record { current_password = "admin123"; new_password = "s3cret" }

changed_ok : (handle_change_password memory string_bytes (some change) console).0 ≡ success
unfolding handle_change_password lookup
changed_ok = refl

login-change_example :
    ((handle_login memory string_bytes
        (some login)
        "t2"
        (handle_change_password memory string_bytes (some change) console).1).0
      ≡ logged_in "t2")
    ↔ ((login.username ≡ "admin") × (login.password ≡ change.new_password))
login-change_example =
    login-change memory string_bytes (λ t. refl) change login "t2" console changed_ok
