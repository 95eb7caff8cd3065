-- ===== src/Gateway/OutboundApi.antt =====
-- The handlers of gateway/gateway.go on the outbounds. A handler that panics drops its connection;
-- the server goes on.
pub mod Laws
use uptp.Common.{ℕ, Option, none, some, String, List, Bool, true, false, Result, ok, err, panic}
use uptp.Common.{if◌then◌else◌, ◌==◌, nat_eq}
use uptp.Apiutil.{
  Reply, Body, http_error, dropped, unreadable, malformed, parsed, send_message, send_data,
}
use uptp.Gateway.Store.{Leveldb, MapJson}
use uptp.Gateway.Router.{AvlTree}
use uptp.Gateway.Authorize.{AuthorizeResp}
use uptp.Gateway.Outbounds.{
  SocksOutbound, Reader, Done, PeerWithAuth, ProxyClient, TunAnswers, get_outbound, list_outbounds,
  add_outbound, update_outbound, delete_outbound, delete_outbound_route,
}

pub data OutboundData : Type 0 where
  one : SocksOutbound → OutboundData
  many : List SocksOutbound → OutboundData
  new_id : ℕ → OutboundData

-- The reply to a call of the client: 500 on an error.
abbrev pub replied : Result Done → Reply OutboundData → Reply OutboundData
replied (ok u) reply = reply
replied (err e) reply = send_message 500 e
replied panic reply = dropped

module _ {D : Type 0} where
  -- `has_service` is `g.proxySvc != nil`.
  unfoldable pub handle_list_outbounds : Bool → ProxyClient D → Reply OutboundData
  handle_list_outbounds has_service pc =
      if has_service
      then send_data (many (list_outbounds pc.mgr)) "ok"
      else send_message 500 "proxy service not initialized"

  -- The id in the path is what `strconv.ParseUint` made of it.
  unfoldable pub handle_get_outbound :
      Bool → Result ℕ → ProxyClient D → Reply OutboundData × ProxyClient D
  handle_get_outbound has_service (err e) pc = (http_error 400 "Invalid ID", pc)
  handle_get_outbound has_service panic pc = (http_error 400 "Invalid ID", pc)
  handle_get_outbound has_service (ok id) pc =
      let (found, m) = get_outbound id pc.mgr in
      if has_service
      then (
        elim found [
          | none ↦ dropped
          | some ob ↦
              if ob.id == 0 then send_message 404 "outbound not found" else send_data (one ob) ""
        ],
        record pc { mgr = m },
      )
      else (send_message 500 "proxy service not initialized", pc)

module _ {D B : Type 0} (ldb : Leveldb D B) (json : MapJson B SocksOutbound) (reader : Reader) where
  module _ (avl : AvlTree PeerWithAuth) where
    -- `random` is what `rand.Uint64` returns.
    unfoldable pub handle_add_outbound :
        Body SocksOutbound
        → ℕ
        → Result AuthorizeResp
        → TunAnswers
        → ProxyClient D
        → Reply OutboundData × ProxyClient D
    handle_add_outbound (unreadable e) random auth a pc = (send_message 500 e, pc)
    handle_add_outbound (malformed e) random auth a pc = (send_message 400 e, pc)
    handle_add_outbound (parsed ob) random auth a pc =
        let (r, pc') = add_outbound ldb json reader avl (record ob { id = random }) auth a pc in
        (replied r (send_data (new_id random) "ok"), pc')

    -- `if existing.Open { … DeleteOutboundRoute(existing) }`
    unfoldable pub close_route : SocksOutbound → ProxyClient D → Result Done × ProxyClient D
    close_route existing pc =
        let closed = delete_outbound_route avl existing pc in
        if existing.is_open then closed else (ok tt, pc)

    unfoldable pub handle_update_outbound :
        Body SocksOutbound
        → Result AuthorizeResp
        → TunAnswers
        → ProxyClient D
        → Reply OutboundData × ProxyClient D
    handle_update_outbound (unreadable e) auth a pc = (send_message 500 e, pc)
    handle_update_outbound (malformed e) auth a pc = (send_message 400 e, pc)
    handle_update_outbound (parsed ob) auth a pc =
        let (found, m) = get_outbound ob.id pc.mgr in
        if ob.id == 0 then (send_message 400 "outbound id is required", pc) else elim found [
          | none ↦ (dropped, record pc { mgr = m })
          | some existing ↦
              let (closed, pc') = close_route existing (record pc { mgr = m }) in
              let (r, pc'') = update_outbound ldb json reader avl ob auth a pc' in
              if existing.id == 0
              then (send_message 404 "outbound not found", record pc { mgr = m })
              else elim closed [
                | ok u ↦ (replied r (send_message 0 "ok"), pc'')
                | err e ↦ (dropped, pc')
                | panic ↦ (dropped, pc')
              ]
        ]

    unfoldable pub handle_delete_outbound :
        Body ℕ → ProxyClient D → Reply OutboundData × ProxyClient D
    handle_delete_outbound (unreadable e) pc = (send_message 500 e, pc)
    handle_delete_outbound (malformed e) pc = (send_message 400 e, pc)
    handle_delete_outbound (parsed id) pc =
        let (found, m) = get_outbound id pc.mgr in
        let (r, pc') = delete_outbound ldb json reader avl id (record pc { mgr = m }) in
        if id == 0 then (send_message 400 "outbound id is required", pc) else elim found [
          | none ↦ (dropped, record pc { mgr = m })
          | some existing ↦
              if existing.id == 0
              then (send_message 404 "outbound not found", record pc { mgr = m })
              else (replied r (send_message 0 "ok"), pc')
        ]
