-- ===== src/Gateway/RouteTests.antt =====
-- The routes of the gateway, run.
use uptp.Common.{
  ◌≡◌, ◌≢◌, ◌↔◌, refl, inl, inr, arith, Bool, true, false, ◌&&◌, Option, none, some, String, List,
  [], ◌∷◌, ◌==◌, text_eq, Bool-cases, if◌then◌else◌,
}
use Prim.Native.String.{◌++◌}
use text.Mathlib.Text.{starts_with}
use uptp.Gateway.Memory.{Db}
use uptp.Gateway.Sessions.{
  SessionState, Request, session, request_token, is_exempt, auth_middleware,
}
use uptp.Common.GoMap.{lookup}
use uptp.Gateway.Routes.{
  Route, Method, get, post, Mux, IsListed, handled, router, serve, list_resources,
}
use uptp.Gateway.Routes.Laws.{serve_guarded_iff}

abbrev same_method : Method → Method → Bool
same_method get get = true
same_method post post = true
same_method _ _ = false

pub same_method_eq : (m n : Method) → same_method m n ≡ true → m ≡ n
same_method_eq get get h = refl
same_method_eq get post h = cc
same_method_eq post get h = cc
same_method_eq post post h = refl

-- A mux of routes without parameters, the first of which serves
abbrev matches : Route → Method → String → Bool
matches r m path =
    same_method r.method m && (starts_with path r.prefix && path == r.prefix ++ r.pattern)

abbrev first_route : List Route → Method → String → Option Route
first_route [] m path = none
first_route (r ∷ rs) m path = if matches r m path then some r else first_route rs m path

first_route_lem :
    (rs : List Route) (m : Method) (path : String) (r : Route)
    → first_route rs m path ≡ some r
    → IsListed r rs × (r.method ≡ m) × (starts_with path r.prefix ≡ true)
first_route_lem [] m path r h = cc
first_route_lem (x ∷ xs) m path r h = elim (Bool-cases (matches x m path)) [
  | inl b ↦
      let same : x ≡ r = ground (arith, b, h) in
      rw (← same) (inl refl, same_method_eq x.method m (ground (arith, b)), ground (arith, b))
  | inr b ↦ let (l, e, u) = first_route_lem xs m path r (ground (arith, b, h)) in (inr l, e, u)
]

abbrev first_mux : Mux
first_mux = record { find = first_route; find-IsListed = first_route_lem }

abbrev asked : Request
asked = record { path = "/resource/list"; authorization = "t"; cookie = none; accept = "" }

abbrev held : SessionState Db
held = record { db = []; sessions = some (("t", true) ∷ []) }

resources_listed : serve first_mux get asked held ≡ handled list_resources
unfolding serve router auth_middleware is_exempt request_token lookup
resources_listed = refl

serve_guarded_iff_example : (serve first_mux get asked held ≡ handled list_resources) ↔ (
    ((route : Route) × (first_route router get "/resource/list" ≡ some route)
      × (route.handler ≡ list_resources))
    × (request_token asked ≢ "")
    × (session (request_token asked) held.sessions ≡ true))
serve_guarded_iff_example = serve_guarded_iff first_mux get asked held list_resources refl
