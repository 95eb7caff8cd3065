-- ===== src/Socks5/Negotiate.antt =====
-- socks5/server.go: the peer's authentication, `socks5Precheck`, `socks5Auth` and
-- `socks5Negotiate`. The messages are read and written by github.com/txthinking/socks5, whose
-- answers are arguments.
pub mod Laws
pub mod Tokens
use uptp.Common.{
  ℕ, ◌≡◌, Bool, true, false, Option, none, some, String, List, [], ◌∷◌, ◌++◌, length, take,
  from_bytes, if◌then◌else◌, ltb, text_eq,
}
use uptp.Common.GoMap.{GoMap, lookup, insert}
use uptp.Socks5.Errors.{GoError, Try, done, failed, other}

-- What the peer store holds for a peer under `socks5ConnectSessionKey`.
pub data PeerValue : Type 0 where
  session_info other_value : PeerValue

abbrev pub Peerstore : Type 0
Peerstore = GoMap String PeerValue

-- `UserPassNegotiationRequest`, as far as it is read
pub record UserPass : Type 0 where
  pub plen : ℕ
  pub passwd : List ℕ

-- `socks5Precheck`: whether the peer must authenticate.
unfoldable pub socks5_precheck : String → Peerstore → Bool
socks5_precheck pid peers = elim (lookup pid peers) [
  | none ↦ true
  | some session_info ↦ false
  | some other_value ↦ true
]

-- `socks5Auth`, where `auth_func` is `AuthFunc`; `none` is the panic of the slice `urq.Passwd[:8]`
-- where fewer bytes are there.
unfoldable pub socks5_auth : (ℕ → Bool) → String → UserPass → Peerstore → Option Bool × Peerstore
socks5_auth auth_func pid urq peers =
    if ltb urq.plen 8
    then (some false, peers)
    else if ltb (length urq.passwd) 8
    then (none, peers)
    else if auth_func (from_bytes (take 8 urq.passwd))
    then (some true, insert pid session_info peers)
    else (some false, peers)

-- What the server writes while it negotiates.
pub data Message : Type 0 where
  method_user_pass method_none status_success status_failure : Message

-- What `socks5Negotiate` is answered by the reads and the writes, in their order; `none` is no error.
pub record Dialogue : Type 0 where
  pub request : Option GoError
  pub write_method : Option GoError
  pub user_pass : Try UserPass
  pub write_status : Option GoError

-- How a negotiation ends: with a nil error, with an error, or in a panic.
pub data Ending : Type 0 where
  passed : Ending
  ended : GoError → Ending
  crashed : Ending

abbrev pub ending : Option GoError → Ending
ending none = passed
ending (some e) = ended e

module _ (auth_func : ℕ → Bool) (auth_error : GoError) where
  -- `socks5Negotiate` with its writes, where `auth_error` is `socks5.ErrUserPassAuth`.
  unfoldable pub socks5_negotiate :
      Bool → String → Dialogue → Peerstore → Ending × (List Message × Peerstore)
  unfolding socks5_auth
  socks5_negotiate need_auth pid d peers = elim d.request [
    | some e ↦ (ended e, ([], peers))
    | none ↦
        if need_auth
        then elim d.write_method [
          | some e ↦ (ended e, (method_user_pass ∷ [], peers))
          | none ↦ elim d.user_pass [
            | failed e ↦ (ended e, (method_user_pass ∷ [], peers))
            | done urq ↦
                let (r, peers') = socks5_auth auth_func pid urq peers in
                elim r [
                  | none ↦ (crashed, (method_user_pass ∷ [], peers'))
                  | some true ↦
                      (ending d.write_status, (method_user_pass ∷ status_success ∷ [], peers'))
                  | some false ↦ elim d.write_status [
                    | some e ↦ (ended e, (method_user_pass ∷ status_failure ∷ [], peers'))
                    | none ↦ (ended auth_error, (method_user_pass ∷ status_failure ∷ [], peers'))
                  ]
                ]
          ]
        ]
        else (ending d.write_method, (method_none ∷ [], peers))
  ]
