-- ===== src/Gateway/Routes.antt =====
-- The routes of gateway/gateway.go, `router`, with the middleware before them, and `AddRoute` of
-- apiutil.go/api.go, which mounts a group of routes under a prefix. How github.com/go-chi/chi finds
-- the route of a request is an argument.
pub mod Laws
use uptp.Common.{
  Bool, true, false, Option, none, some, String, List, [], ◌∷◌, ◌++◌, ◌≡◌, ◌==◌, text_eq, map, ◌⊎◌,
}
use text.Mathlib.Text.{starts_with}
use uptp.Gateway.Sessions.{SessionState, Request, Passage, auth_middleware}

-- The methods of the gateway that serve requests; `restart` and `serve_file` are the two functions
-- that stand in `router`.
pub data Handler : Type 0 where
  handle_login handle_change_password handle_logout : Handler
  list_resources get_resource add_resource update_resource delete_resource : Handler
  get_gateway_info update_gateway_name restart : Handler
  get_proxy_config update_proxy_config : Handler
  list_outbounds get_outbound add_outbound update_outbound delete_outbound : Handler
  upgrade_myself download_apk : Handler
  add_app update_app delete_app list_apps get_app : Handler
  serve_file : Handler

pub data Method : Type 0 where
  get post : Method

pub record Route : Type 0 where
  pub prefix : String
  pub method : Method
  pub pattern : String
  pub handler : Handler

-- A group of routes: what is done to the group's router by `r.Get` and `r.Post`
abbrev pub Group : Type 0
Group = List (Method × String × Handler)

-- `AddRoute`
unfoldable pub add_route : String → Group → List Route → List Route
add_route prefix group routes =
    routes
    ++ map
        (λ (g : Method × String × Handler). record {
          prefix = prefix;
          method = g.0;
          pattern = g.1;
          handler = g.2;
        })
        group

abbrev login_routes : Group
login_routes =
    (post, "/", handle_login)
    ∷ (post, "/change_password", handle_change_password)
    ∷ (post, "/logout", handle_logout)
    ∷ []

abbrev resource_routes : Group
resource_routes =
    (get, "/list", list_resources)
    ∷ (get, "/get/{id}", get_resource)
    ∷ (post, "/add", add_resource)
    ∷ (post, "/update", update_resource)
    ∷ (post, "/delete", delete_resource)
    ∷ []

abbrev gateway_routes : Group
gateway_routes =
    (get, "/info", get_gateway_info)
    ∷ (post, "/name", update_gateway_name)
    ∷ (get, "/restart", restart)
    ∷ []

abbrev proxy_service_routes : Group
proxy_service_routes =
    (get, "/config", get_proxy_config) ∷ (post, "/config", update_proxy_config) ∷ []

abbrev proxy_client_routes : Group
proxy_client_routes =
    (get, "/list", list_outbounds)
    ∷ (get, "/get/{id}", get_outbound)
    ∷ (post, "/add", add_outbound)
    ∷ (post, "/update", update_outbound)
    ∷ (post, "/delete", delete_outbound)
    ∷ []

abbrev upgrade_routes : Group
upgrade_routes = (get, "/myself", upgrade_myself) ∷ (get, "/agent/android", download_apk) ∷ []

abbrev app_routes : Group
app_routes =
    (post, "/add", add_app)
    ∷ (post, "/update", update_app)
    ∷ (post, "/delete", delete_app)
    ∷ (get, "/list", list_apps)
    ∷ (get, "/get/{id}", get_app)
    ∷ []

abbrev file_routes : Group
file_routes = (get, "/*", serve_file) ∷ []

-- `router`: the routes of the server, in the order in which they are added
unfoldable pub router : List Route
unfolding add_route
router =
    let a = add_route "/login" login_routes [] in
    let b = add_route "/resource" resource_routes a in
    let c = add_route "/gateway" gateway_routes b in
    let d = add_route "/proxy_service" proxy_service_routes c in
    let e = add_route "/proxy_client" proxy_client_routes d in
    let f = add_route "/upgrade" upgrade_routes e in
    let g = add_route "/app" app_routes f in add_route "/" file_routes g

-- Whether a route stands in a list.
abbrev pub IsListed : Route → List Route → Type 0
IsListed r [] = ⊥
IsListed r (x ∷ xs) = (r ≡ x) ⊎ IsListed r xs

-- `chi.Mux`: the route that it finds for a method and a path is one that was added, for that method,
-- and the path begins with the prefix under which it was added.
pub record Mux : Type 0 where
  pub find : List Route → Method → String → Option Route
  pub find-IsListed :
      (routes : List Route) (m : Method) (path : String) (r : Route)
      → find routes m path ≡ some r
      → IsListed r routes × (r.method ≡ m) × (starts_with path r.prefix ≡ true)

-- What a request comes to.
pub data Response : Type 0 where
  handled : Handler → Response
  not_found redirected unauthorized : Response

-- A request to the server: first the middleware, then the route.
unfoldable pub serve : {D : Type 0} → Mux → Method → Request → SessionState D → Response
serve mux method r s = elim (auth_middleware r s) [
  | Passage.redirected ↦ redirected
  | Passage.unauthorized ↦ unauthorized
  | Passage.served ↦ elim (mux.find router method r.path) [
    | none ↦ not_found
    | some route ↦ handled route.handler
  ]
]
