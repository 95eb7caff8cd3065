-- ===== src/Agent/Proxies.antt =====
-- agent/proxy.go: the proxies of peers that an agent knows, kept as a list in memory and under one
-- key of the database, and named by their index. Each method is one step under `mtx`. An index is an
-- int that comes from the user interface.
pub mod Laws
use uptp.Common.{
  ℕ, Option, none, some, String, List, [], ◌∷◌, ◌++◌, map, Result, ok, err, panic, ◌⊎◌, inl, inr,
}
use uptp.Common.{length, get_elem?, take, drop, suc, leb, if◌then◌else◌, ◌!=◌, text_eq}
use uptp.Common.Int.{ℤ, pos, negsuc}
use uptp.Gateway.Store.{Leveldb, Read, found, not_found, failed}
use uptp.Gateway.Authorize.{AuthorizeResp}
use uptp.Gateway.Outbounds.{PeerWithAuth, Reader, token_bytes}

-- `proxyGateway`
pub record ProxyGateway : Type 0 where
  -- not written to JSON
  pub peer : PeerWithAuth
  pub name : String
  pub peer_id : String
  pub token : ℕ
  pub route : String
  pub dns : String

-- `proxyMgr` with the database that it points to; none is a nil slice.
pub record ProxyMgr (D : Type 0) : Type 0 where
  pub db : D
  pub proxys : Option (List ProxyGateway)

abbrev pub key_proxys : String
key_proxys = "proxys"

abbrev pub items : Option (List ProxyGateway) → List ProxyGateway
items none = []
items (some l) = l

-- `json.Marshal` and `json.Unmarshal` at this slice. Unmarshal returns its error and what it leaves in
-- the target.
pub record ProxyJson (B : Type 0) : Type 0 where
  pub marshal : List ProxyGateway → String ⊎ B
  pub unmarshal : B → Option (List ProxyGateway) → Option String × Option (List ProxyGateway)

abbrev pub Error : Type 0
Error = Option String

module _ {D B : Type 0} (ldb : Leveldb D B) (json : ProxyJson B)
    (delete_key : String → D → Error × D) where
  -- `delete_key` is the database's `Delete`.
  unfoldable pub save_proxys : ProxyMgr D → Error × ProxyMgr D
  save_proxys m = elim m.proxys [
    | none ↦ let (e, db) = delete_key key_proxys m.db in (e, record m { db = db })
    | some l ↦ elim (json.marshal l) [
      | inl e ↦ (some e, m)
      | inr v ↦ let (e, db) = ldb.put key_proxys v m.db in (e, record m { db = db })
    ]
  ]

  unfoldable pub add_proxy : ProxyGateway → ProxyMgr D → Error × ProxyMgr D
  unfolding save_proxys
  add_proxy p m = save_proxys (record m { proxys = some (items m.proxys ++ (p ∷ [])) })

  -- `delProxyByIndex`: a negative index panics; on a nil slice every other index is past the end.
  unfoldable pub del_proxy_by_index : ℤ → ProxyMgr D → Result Error × ProxyMgr D
  unfolding save_proxys
  del_proxy_by_index (negsuc n) m = (panic, m)
  del_proxy_by_index (pos i) m =
      let l = items m.proxys in
      let (e, m') = save_proxys (record m { proxys = some (take i l ++ drop (suc i) l) }) in
      if leb (length l) i then (ok none, m) else (ok e, m')

  -- What `loadProxys` fills in where the peer's name decodes.
  abbrev pub filled : Reader → ProxyGateway → ProxyGateway
  filled reader p = elim (reader.decode p.peer_id) [
    | ok pid ↦ record p {
      peer = record { id = pid; user_name = token_bytes p.token; password = token_bytes p.token };
    }
    | err e ↦ p
    | panic ↦ p
  ]

  unfoldable pub load_proxys : Reader → ProxyMgr D → Error × ProxyMgr D
  load_proxys reader m = elim (ldb.get key_proxys m.db) [
    | failed e ↦ (some e, m)
    | not_found ↦ (none, m)
    | found v ↦
        let (e, l) = json.unmarshal v m.proxys in
        elim e [
          | some x ↦ (some x, record m { proxys = l })
          | none ↦ (
            none,
            record m { proxys = elim l [ none ↦ none | some ps ↦ some (map (filled reader) ps) ] },
          )
        ]
  ]

  -- `addProxyGateway`: `token` is what `strconv.ParseUint` makes of the text, `auth` what
  -- `ResourceAuthorize` returns.
  unfoldable pub add_proxy_gateway :
      Reader → String → Result ℕ → Result AuthorizeResp → ProxyMgr D → Result Error × ProxyMgr D
  unfolding add_proxy
  add_proxy_gateway reader peer_id token auth m = elim (reader.decode peer_id) [
    | err e ↦ (ok (some e), m)
    | panic ↦ (panic, m)
    | ok pid ↦ elim token [
      | err e ↦ (ok (some e), m)
      | panic ↦ (panic, m)
      | ok t ↦ elim auth [
        | err e ↦ (ok (some e), m)
        | panic ↦ (panic, m)
        | ok rsp ↦ elim rsp.proxy [
          | none ↦ (ok (some (if rsp.err_text != "" then rsp.err_text else "proxy auth failed")), m)
          | some offered ↦
              let (e, m') =
                add_proxy
                  (record {
                    peer = record { id = pid; user_name = token_bytes t; password = token_bytes t };
                    name = rsp.node_name;
                    peer_id = peer_id;
                    token = t;
                    route = offered.route;
                    dns = offered.dns;
                  })
                  m in
              if rsp.err_text != "" then (ok (some rsp.err_text), m) else (ok e, m')
        ]
      ]
    ]
  ]

-- `getProxyByIndex`: nil past the end, a panic below 0
unfoldable pub get_proxy_by_index : {D : Type 0} → ℤ → ProxyMgr D → Result (Option ProxyGateway)
get_proxy_by_index (negsuc n) m = panic
get_proxy_by_index (pos i) m = ok (get_elem? (items m.proxys) i)

unfoldable pub get_proxys : {D : Type 0} → ProxyMgr D → List ProxyGateway
get_proxys m = items m.proxys
