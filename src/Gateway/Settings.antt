-- ===== src/Gateway/Settings.antt =====
-- The settings that gateway/gateway.go keeps in the database: the access token, the listen port
-- and the bootstrap addresses. Random numbers are arguments.
pub mod Token
use uptp.Common.{
  Bool, true, false, if◌then◌else◌, ◌==◌, nat_eq, ◌⊎◌, ℕ, ◌≡◌, Option, none, some, String, List, [],
  ◌∷◌, Result, ok, err, panic,
}
use uptp.Common.Int.{ℤ, pos}
use uptp.Common.Decimal.{format_uint, parse_uint, atoi, format_int_bytes}
use uptp.Gateway.Store.{Leveldb, Read, found, not_found, failed, TextBytes}

abbrev pub db_key_token : String
db_key_token = "token"

abbrev pub db_key_listen_port : String
db_key_listen_port = "listen_port"

abbrev pub default_bootstrap : String
default_bootstrap =
    "/dns6/bootstrap.isletnet.cn/tcp/2025/p2p/12D3KooWPqvupWVWbcjwKkvfBwPi19KerGwEfmWxdyrqRd7AtCaa"

abbrev pub db_key_bootstraps : String
db_key_bootstraps = "bootstraps"

module _ {D B : Type 0} (ldb : Leveldb D B) (text : TextBytes B) where
  unfoldable pub set_token : ℕ → D → Option String × D
  set_token t db = ldb.put db_key_token (text.of_text (format_uint t)) db

  -- `getToken`, with the number that `rand.Uint64` would return
  unfoldable pub get_token : ℕ → D → Result ℕ × D
  unfolding set_token
  get_token random db = elim (ldb.get db_key_token db) [
    | failed e ↦ (err e, db)
    | not_found ↦
        let (e, db') = set_token random db in (elim e [ none ↦ ok random | some x ↦ err x ], db')
    | found v ↦ (parse_uint (text.to_text v), db)
  ]

  -- `proxyAuth`
  unfoldable pub proxy_auth : ℕ → ℕ → D → Bool × D
  proxy_auth random auth_token db =
      let (r, db') = get_token random db in
      (elim r [ ok token ↦ token == auth_token | err e ↦ false | panic ↦ false ], db')

  -- The `AuthFunc` that `Run` gives to `socks5.StartServe`: a trial gateway takes every number.
  unfoldable pub serve_auth : Bool → ℕ → ℕ → D → Bool × D
  unfolding proxy_auth
  serve_auth trial random auth_token db =
      if trial then (true, db) else proxy_auth random auth_token db

  unfoldable pub set_listen_port : ℤ → D → Option String × D
  set_listen_port port db = ldb.put db_key_listen_port (text.of_text (format_int_bytes port)) db

  -- (port, error)
  unfoldable pub get_listen_port : D → ℤ × Option String
  get_listen_port db = elim (ldb.get db_key_listen_port db) [
    | failed e ↦ (pos 0, some e)
    | not_found ↦ (pos 0, none)
    | found v ↦ atoi (text.to_text v)
  ]

module _ {D B : Type 0} (ldb : Leveldb D B)
    (unmarshal : B → Option String × Option (List String)) where
  -- `loadBootstraps`, with `json.Unmarshal` into a nil slice; `none` is nil.
  unfoldable pub load_bootstraps : D → Option (List String)
  load_bootstraps db = elim (ldb.get db_key_bootstraps db) [
    | failed e ↦ none
    | not_found ↦ none
    | found v ↦ elim (unmarshal v).0 [ none ↦ (unmarshal v).1 | some e ↦ none ]
  ]

  unfoldable pub get_bootstraps : D → List String
  unfolding load_bootstraps
  get_bootstraps db = elim (load_bootstraps db) [ none ↦ default_bootstrap ∷ [] | some bts ↦ bts ]
