-- ===== src/Gateway/Sessions/Laws.antt =====
-- Who gets a session, what a session opens, and what ends it.
use uptp.Common.{◌≡◌, ◌≢◌, ◌↔◌, ◌⊎◌, inl, inr, sym, ◌∙◌, arith, Option, none, some, String}
use uptp.Common.{true, false, Option-cases, eq_iff}
use uptp.Common.{if◌then◌else◌, ◌==◌, ◌!=◌, ◌&&◌, text_eq}
use uptp.Common.GoMap.{lookup, insert, lookup-insert, lookup-delete}
use uptp.Gateway.Store.{Leveldb, Read-cases, found}
use uptp.Gateway.Authorize.{StringBytes}
use uptp.Gateway.Sessions.{
  SessionState, success, logged_in, key_admin_password, PasswordChange, Login, session, end_session,
  begin_session, handle_logout, handle_change_password, handle_login, Request, served, is_exempt,
  request_token, auth_middleware,
}

-- A page is served exactly if it is one of the open ones, or the request's token is a session's.
pub auth_middleware_iff :
    {D : Type 0} (r : Request) (s : SessionState D)
    → (auth_middleware r s ≡ served) ↔ (
        (is_exempt r.path ≡ true)
        ⊎ ((request_token r ≢ "") × (session (request_token r) s.sessions ≡ true)))
unfolding auth_middleware
auth_middleware_iff r s = (
  λ h. ground (arith, eq_iff (request_token r) ""),
  λ g. ground (arith, g, eq_iff (request_token r) ""),
)

module _ {D : Type 0} where
  session-begin :
      (token t : String) (s : SessionState D)
      → session t (begin_session token s).sessions
        ≡ (if token == t then true else session t s.sessions)
  unfolding begin_session lookup insert
  session-begin token t s = elim (Option-cases s.sessions) [
    | inl n ↦ ground (arith, n)
    | inr (m, e) ↦ ground (arith, e, lookup-insert token t true m)
  ]

  session-end :
      (token t : String) (s : SessionState D)
      → session t (end_session token s).sessions
        ≡ (if token == t then false else session t s.sessions)
  unfolding end_session
  session-end token t s = elim (Option-cases s.sessions) [
    | inl n ↦ ground (arith, n)
    | inr (m, e) ↦ ground (arith, e, lookup-delete token t m)
  ]

  -- A logout ends the session of the token in the header, where there is one, and no other
  -- session.
  pub session-handle_logout :
      (token t : String) (s : SessionState D)
      → session t (handle_logout token s).1.sessions
        ≡ (if token != "" && token == t then false else session t s.sessions)
  unfolding handle_logout
  session-handle_logout token t s = ground (arith, session-end token t s)

module _ {D B : Type 0} (ldb : Leveldb D B) (bytes : StringBytes B) where
  -- A login that decodes is answered with a session exactly if the name is admin, a password is
  -- stored, and the password is the stored one.
  pub handle_login_iff :
      (req : Login) (token : String) (s : SessionState D)
      → ((handle_login ldb bytes (some req) token s).0 ≡ logged_in token) ↔ (
          (req.username ≡ "admin")
          × ((stored : B) × (ldb.get key_admin_password s.db ≡ found stored)
              × (req.password ≡ bytes.to_string stored)))
  unfolding handle_login
  handle_login_iff req token s = (
    λ h. elim (Read-cases (ldb.get key_admin_password s.db)) [
      | inl (v, p) ↦ (
        ground (arith, eq_iff req.username "admin"),
        (v, p, ground (arith, eq_iff req.password (bytes.to_string v))),
      )
      | inr (inl p) ↦ absurd (ground arith)
      | inr (inr (e, p)) ↦ absurd (ground arith)
    ],
    λ (u, (v, p, w)).
        ground (arith, eq_iff req.username "admin", eq_iff req.password (bytes.to_string v)),
  )

  -- After a login, whatever it is answered, a token is a session's if it was before, or if it is the
  -- new one and the login was granted.
  pub session-handle_login :
      (req : Option Login) (token t : String) (s : SessionState D)
      → session t (handle_login ldb bytes req token s).1.sessions ≡ true
      → (session t s.sessions ≡ true)
        ⊎ ((token ≡ t) × ((handle_login ldb bytes req token s).0 ≡ logged_in token))
  unfolding handle_login
  session-handle_login none token t s h = inl h
  session-handle_login (some req) token t s h =
      ground (arith, session-begin token t s, eq_iff token t)

  changed :
      (change : PasswordChange) (s : SessionState D)
      → (handle_change_password ldb bytes (some change) s).0 ≡ success
      → ldb.get key_admin_password (handle_change_password ldb bytes (some change) s).1.db
        ≡ found (bytes.of_string change.new_password)
  unfolding handle_change_password
  changed change s h =
      ground (arith, ldb.get-put_self key_admin_password (bytes.of_string change.new_password) s.db)

  -- Where text survives the database's bytes, after a change of the password that succeeds a login
  -- is granted exactly to admin with the new password.
  pub login-change :
      (texts : (t : String) → bytes.to_string (bytes.of_string t) ≡ t) (change : PasswordChange)
      (req : Login) (token : String) (s : SessionState D)
      → (handle_change_password ldb bytes (some change) s).0 ≡ success
      → ((handle_login ldb bytes
            (some req)
            token
            (handle_change_password ldb bytes (some change) s).1).0
          ≡ logged_in token)
        ↔ ((req.username ≡ "admin") × (req.password ≡ change.new_password))
  login-change texts change req token s h = (
    λ g.
        let (u, (v, p, w)) =
          (handle_login_iff req token (handle_change_password ldb bytes (some change) s).1).0 g in
        (u, cc (w, p, changed change s h, texts change.new_password)),
    λ (u, w).
        (handle_login_iff req token (handle_change_password ldb bytes (some change) s).1).1
          (u, (_, changed change s h, w ∙ sym (texts change.new_password))),
  )
