-- ===== src/Gateway/Sessions.antt =====
-- The sessions of the web console in gateway/gateway.go: the password in the database, the session
-- tokens in memory, and the middleware that every page passes. Each handler is one step: it holds
-- `sessionMux` while it reads or writes the sessions. A token that `uuid.New` makes is an
-- argument. Cookies that a handler sets are not part of its answer; its timer is a step of its own.
pub mod Laws
use uptp.Common.{ℕ, Bool, true, false, Option, none, some, String, List, [], ◌∷◌, ◌⊎◌, inl, inr}
use uptp.Common.{if◌then◌else◌, ◌==◌, ◌!=◌, ◌&&◌, ◌||◌, text_eq}
use uptp.Common.GoMap.{GoMap, lookup, insert, delete}
use uptp.Gateway.Store.{Leveldb, Read, found, not_found, failed}
use uptp.Gateway.Authorize.{StringBytes}
use text.Mathlib.Text.{starts_with}
use text.Mathlib.Text.{find?}

-- `db` and `sessions`; the map may be nil.
pub record SessionState (D : Type 0) : Type 0 where
  pub db : D
  pub sessions : Option (GoMap String Bool)

-- A handler's answer: success, with the token of a login, or a status with a text.
pub data Answer : Type 0 where
  success : Answer
  logged_in : String → Answer
  refused : ℕ → String → Answer

abbrev pub key_admin_password : String
key_admin_password = "admin_password"

pub record PasswordChange : Type 0 where
  pub current_password : String
  pub new_password : String

pub record Login : Type 0 where
  pub username : String
  pub password : String

-- `g.sessions[token]`, on a map that may be nil
abbrev pub session : String → Option (GoMap String Bool) → Bool
session token none = false
session token (some m) = elim (lookup token m) [ none ↦ false | some b ↦ b ]

-- `delete(g.sessions, token)`, which does nothing on a nil map; it is also what the timer does.
unfoldable pub end_session : {D : Type 0} → String → SessionState D → SessionState D
end_session token s = elim s.sessions [
  | none ↦ s
  | some m ↦ record s { sessions = some (delete token m) }
]

-- `g.sessions[token] = true`, after `make` on a nil map
unfoldable pub begin_session : {D : Type 0} → String → SessionState D → SessionState D
begin_session token s = elim s.sessions [
  | none ↦ record s { sessions = some (insert token true []) }
  | some m ↦ record s { sessions = some (insert token true m) }
]

-- `handleLogout`, with the header `Authorization`
unfoldable pub handle_logout : {D : Type 0} → String → SessionState D → Answer × SessionState D
unfolding end_session
handle_logout token s = (success, if token != "" then end_session token s else s)

module _ {D B : Type 0} (ldb : Leveldb D B) (bytes : StringBytes B) where
  -- The step of `Run` that writes the first password: at any error of the read.
  unfoldable pub init_password : D → Option String × D
  init_password db = elim (ldb.get key_admin_password db) [
    | found v ↦ (none, db)
    | not_found ↦ ldb.put key_admin_password (bytes.of_string "admin123") db
    | failed e ↦ ldb.put key_admin_password (bytes.of_string "admin123") db
  ]

  -- none where the body does not decode
  unfoldable pub handle_change_password :
      Option PasswordChange → SessionState D → Answer × SessionState D
  handle_change_password none s = (refused 400 "Invalid request", s)
  handle_change_password (some req) s = elim (ldb.get key_admin_password s.db) [
    | not_found ↦ (refused 401 "Invalid current password", s)
    | failed e ↦ (refused 401 "Invalid current password", s)
    | found stored ↦
        let (e, db) = ldb.put key_admin_password (bytes.of_string req.new_password) s.db in
        if req.current_password != bytes.to_string stored
        then (refused 401 "Invalid current password", s)
        else (
          elim e [ none ↦ success | some x ↦ refused 500 "Failed to update password" ],
          record s { db = db },
        )
  ]

  -- `token` is what `uuid.New` makes.
  unfoldable pub handle_login : Option Login → String → SessionState D → Answer × SessionState D
  unfolding begin_session
  handle_login none token s = (refused 400 "Invalid request", s)
  handle_login (some req) token s = elim (ldb.get key_admin_password s.db) [
    | not_found ↦ (refused 500 "Internal server error", s)
    | failed e ↦ (refused 500 "Internal server error", s)
    | found stored ↦
        if req.username != "admin" || req.password != bytes.to_string stored
        then (refused 401 "Invalid credentials", s)
        else (logged_in token, begin_session token s)
  ]

-- The part of a request that the middleware reads.
pub record Request : Type 0 where
  pub path : String
  pub authorization : String
  pub cookie : Option String
  pub accept : String

pub data Passage : Type 0 where
  served redirected unauthorized : Passage

unfoldable pub is_exempt : String → Bool
is_exempt path =
    path == "/js/login.js"
    || (path == "/css/login.css"
        || (path == "/css/style.css"
            || (path == "/favicon.ico"
                || (starts_with path "/login"
                    || (starts_with path "/static/" || starts_with path "/api/")))))

-- The header's token, or the cookie's where the header is empty
unfoldable pub request_token : Request → String
request_token r =
    if r.authorization == "" then elim r.cookie [ none ↦ "" | some v ↦ v ] else r.authorization

unfoldable pub contains : String → String → Bool
contains s t = elim (find? s t) [ none ↦ false | some i ↦ true ]

-- `authMiddleware`: whether the next handler serves the request
unfoldable pub auth_middleware : {D : Type 0} → Request → SessionState D → Passage
auth_middleware r s =
    if is_exempt r.path
    then served
    else if request_token r != "" && session (request_token r) s.sessions
    then served
    else if contains r.accept "text/html"
    then redirected
    else unauthorized
