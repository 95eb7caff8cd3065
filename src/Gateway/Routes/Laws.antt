-- ===== src/Gateway/Routes/Laws.antt =====
-- Proofs for Gateway/Routes: no page but the open ones is served without a session.
use uptp.Common.{
  ◌≡◌, ◌≢◌, ◌↔◌, inl, inr, refl, arith, ap, ◌∙◌, Bool, true, false, ◌&&◌, ◌||◌, not, some,
  Option-cases, List, [], ◌∷◌, String, text_eq,
}
use uptp.Common.Prefixes.{agree, starts_with_other, starts_with_ne}
use text.Mathlib.Text.{starts_with}
use uptp.Gateway.Sessions.{
  SessionState, Request, Passage, is_exempt, auth_middleware, request_token, session,
}
use uptp.Gateway.Sessions.Laws.{auth_middleware_iff}
use uptp.Gateway.Routes.{
  Handler, Route, Method, Mux, IsListed, handled, router, serve, handle_login,
  handle_change_password, handle_logout, serve_file,
}

-- The pages that may be seen without a session: the login page's own and the files of the console.
abbrev pub is_open : Handler → Bool
is_open handle_login = true
is_open handle_change_password = true
is_open handle_logout = true
is_open serve_file = true
is_open _ = false

-- Whether a prefix differs from every path that the middleware lets pass.
abbrev is_guarded : String → Bool
is_guarded p =
    not (agree p "/js/login.js")
    && (not (agree p "/css/login.css")
        && (not (agree p "/css/style.css")
            && (not (agree p "/favicon.ico")
                && (not (agree p "/login")
                    && (not (agree p "/static/") && not (agree p "/api/"))))))

not_exempt :
    (path p : String) → is_guarded p ≡ true → starts_with path p ≡ true → is_exempt path ≡ false
unfolding is_exempt
not_exempt path p g h = ground (
  arith,
  g,
  starts_with_ne path p "/js/login.js" (ground (arith, g)) h,
  starts_with_ne path p "/css/login.css" (ground (arith, g)) h,
  starts_with_ne path p "/css/style.css" (ground (arith, g)) h,
  starts_with_ne path p "/favicon.ico" (ground (arith, g)) h,
  starts_with_other path p "/login" (ground (arith, g)) h,
  starts_with_other path p "/static/" (ground (arith, g)) h,
  starts_with_other path p "/api/" (ground (arith, g)) h,
)

-- Whether each route is for an open page, or its prefix is a guarded one.
abbrev are_guarded : List Route → Bool
are_guarded [] = true
are_guarded (r ∷ rs) = (is_open r.handler || is_guarded r.prefix) && are_guarded rs

router_are_guarded : are_guarded router ≡ true
unfolding router
router_are_guarded = refl

guarded_of_listed :
    (r : Route) (rs : List Route)
    → IsListed r rs
    → are_guarded rs ≡ true
    → (is_open r.handler || is_guarded r.prefix) ≡ true
guarded_of_listed r [] l a = absurd l
guarded_of_listed r (x ∷ xs) (inl e) a = rw e (ground (arith, a))
guarded_of_listed r (x ∷ xs) (inr l) a = guarded_of_listed r xs l (ground (arith, a))

-- The path of a request that finds a guarded route is not exempt.
found_not_exempt :
    (mux : Mux) (method : Method) (path : String) (route : Route)
    → mux.find router method path ≡ some route
    → is_open route.handler ≡ false
    → is_exempt path ≡ false
found_not_exempt mux method path route f o =
    let (listed, same, under) = mux.find-IsListed router method path route f in
    let guarded = guarded_of_listed route router listed router_are_guarded in
    not_exempt path route.prefix (ground (arith, guarded, o)) under

-- A handler other than those of the login page and of the files serves a request exactly if the route
-- that is found for the request is its own and the request carries the token of a session: no other
-- page is served without a session, whatever the path.
pub serve_guarded_iff :
    {D : Type 0} (mux : Mux) (method : Method) (r : Request) (s : SessionState D) (h : Handler)
    → is_open h ≡ false
    → (serve mux method r s ≡ handled h) ↔ (
        ((route : Route) × (mux.find router method r.path ≡ some route) × (route.handler ≡ h))
        × (request_token r ≢ "")
        × (session (request_token r) s.sessions ≡ true))
unfolding serve
serve_guarded_iff mux method r s h o = (
  λ e. elim (Option-cases (mux.find router method r.path)) [
    | inl n ↦ absurd (ground (arith, n, e))
    | inr (route, f) ↦
        let same : route.handler ≡ h = ground (arith, f, e) in
        let passed : auth_middleware r s ≡ Passage.served = ground (arith, f, e) in
        let closed = found_not_exempt mux method r.path route f (ap is_open same ∙ o) in
        elim ((auth_middleware_iff r s).0 passed) [
          | inl x ↦ absurd (ground (arith, x, closed))
          | inr held ↦ ((route, f, same), held.0, held.1)
        ]
  ],
  λ g.
      let passed = (auth_middleware_iff r s).1 (inr (g.1, g.2)) in
      ground (arith, passed, g.0.1, g.0.2),
)
