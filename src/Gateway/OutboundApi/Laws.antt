-- ===== src/Gateway/OutboundApi/Laws.antt =====
-- What sequences of requests keep, and the requests that end badly.
use uptp.Common.{ℕ, ◌≡◌, ◌≢◌, inl, inr, arith, none, some, String, List, [], ◌∷◌}
use uptp.Common.{Bool, true, Option-cases, Result, ok, err, panic, nat_eq}
use uptp.Common.GoMap.{lookup}
use uptp.Apiutil.{Body, unreadable, malformed, parsed, dropped, send_message, code_of}
use uptp.Gateway.Cidr.{IpNet}
use uptp.Gateway.Router.{AvlTree, del_route}
use uptp.Gateway.Router.Find.{IsValid}
use uptp.Gateway.Store.{Leveldb, MapJson}
use uptp.Gateway.Authorize.{AuthorizeResp}
use uptp.Gateway.AppApi.{authorized_name}
use uptp.Gateway.Outbounds.{
  SocksOutbound, Reader, PeerWithAuth, ProxyClient, TunAnswers, made, get_outbound,
  delete_outbound_route, update_outbound,
}
use uptp.Gateway.Outbounds.Laws.{
  add_outbound-IsValid, update_outbound-IsValid, delete_outbound-IsValid,
  delete_outbound_route-IsValid,
}
use uptp.Gateway.OutboundApi.{
  handle_get_outbound, handle_add_outbound, handle_update_outbound, handle_delete_outbound,
  close_route,
}

-- A request on the outbounds, with what the world answers to it.
pub data Request : Type 0 where
  adds : Body SocksOutbound → ℕ → Result AuthorizeResp → TunAnswers → Request
  updates : Body SocksOutbound → Result AuthorizeResp → TunAnswers → Request
  deletes : Body ℕ → Request
  gets : Bool → Result ℕ → Request

module _ {D B : Type 0} (ldb : Leveldb D B) (json : MapJson B SocksOutbound) (reader : Reader) where
  module _ (avl : AvlTree PeerWithAuth) where
    unfoldable pub serve : Request → ProxyClient D → ProxyClient D
    serve (adds body random auth a) pc =
        (handle_add_outbound ldb json reader avl body random auth a pc).1
    serve (updates body auth a) pc = (handle_update_outbound ldb json reader avl body auth a pc).1
    serve (deletes body) pc = (handle_delete_outbound ldb json reader avl body pc).1
    serve (gets has_service id) pc = (handle_get_outbound has_service id pc).1

    unfoldable pub serve_all : List Request → ProxyClient D → ProxyClient D
    unfolding serve
    serve_all [] pc = pc
    serve_all (r ∷ rs) pc = serve_all rs (serve r pc)

    close_route-IsValid :
        (existing : SocksOutbound) (pc : ProxyClient D)
        → IsValid pc.router
        → IsValid (close_route ldb json reader avl existing pc).1.router
    unfolding close_route
    close_route-IsValid existing pc h =
        ground (arith, h, delete_outbound_route-IsValid avl existing pc h)

    update-IsValid :
        (ob : SocksOutbound) (auth : Result AuthorizeResp) (a : TunAnswers) (pc : ProxyClient D)
        → IsValid pc.router
        → IsValid (handle_update_outbound ldb json reader avl (parsed ob) auth a pc).1.router
    unfolding handle_update_outbound
    update-IsValid ob auth a pc h =
        let seen : ProxyClient D = record pc { mgr = (get_outbound ob.id pc.mgr).1 } in
        elim (Option-cases (get_outbound ob.id pc.mgr).0) [
          | inl l ↦ ground (arith, h, l)
          | inr (existing, l) ↦
              let closed = close_route ldb json reader avl existing seen in
              let valid : IsValid closed.1.router = close_route-IsValid existing seen h in
              ground (
                arith,
                h,
                l,
                valid,
                update_outbound-IsValid ldb json reader avl a ob auth closed.1 valid,
              )
        ]

    delete-IsValid :
        (id : ℕ) (pc : ProxyClient D)
        → IsValid pc.router
        → IsValid (handle_delete_outbound ldb json reader avl (parsed id) pc).1.router
    unfolding handle_delete_outbound
    delete-IsValid id pc h = ground (
      arith,
      h,
      delete_outbound-IsValid ldb json reader avl id
          (record pc { mgr = (get_outbound id pc.mgr).1 }) h,
    )

    get-IsValid :
        (has_service : Bool) (id : Result ℕ) (pc : ProxyClient D)
        → IsValid pc.router
        → IsValid (handle_get_outbound has_service id pc).1.router
    unfolding handle_get_outbound
    get-IsValid has_service (ok id) pc h = ground (arith, h)
    get-IsValid has_service (err e) pc h = h
    get-IsValid has_service panic pc h = h

    serve-IsValid :
        (r : Request) (pc : ProxyClient D) → IsValid pc.router → IsValid (serve r pc).router
    unfolding serve handle_add_outbound handle_update_outbound handle_delete_outbound
    serve-IsValid (adds (unreadable e) random auth a) pc h = h
    serve-IsValid (adds (malformed e) random auth a) pc h = h
    serve-IsValid (adds (parsed ob) random auth a) pc h =
        add_outbound-IsValid ldb json reader avl a (record ob { id = random }) auth pc h
    serve-IsValid (updates (unreadable e) auth a) pc h = h
    serve-IsValid (updates (malformed e) auth a) pc h = h
    serve-IsValid (updates (parsed ob) auth a) pc h = update-IsValid ob auth a pc h
    serve-IsValid (deletes (unreadable e)) pc h = h
    serve-IsValid (deletes (malformed e)) pc h = h
    serve-IsValid (deletes (parsed id)) pc h = delete-IsValid id pc h
    serve-IsValid (gets has_service id) pc h = get-IsValid has_service id pc h

    -- Whatever requests come, and whatever the peers, the database and the tunnel answer, a route
    -- table of the client that is valid before them is valid after them.
    pub serve_all-IsValid :
        (rs : List Request) (pc : ProxyClient D)
        → IsValid pc.router
        → IsValid (serve_all rs pc).router
    unfolding serve_all
    serve_all-IsValid [] pc h = h
    serve_all-IsValid (r ∷ rs) pc h = serve_all-IsValid rs (serve r pc) (serve-IsValid r pc h)

    -- Where no outbound stands under an id other than 0, a request to get it, on a gateway with
    -- its proxy service, to update it or to delete it drops the connection.
    pub missing_dropped :
        (ob : SocksOutbound) (auth : Result AuthorizeResp) (a : TunAnswers) (pc : ProxyClient D)
        → ob.id ≢ 0
        → lookup ob.id (made pc.mgr.outbounds) ≡ none
        → ((handle_get_outbound true (ok ob.id) pc).0 ≡ dropped)
          × ((handle_update_outbound ldb json reader avl (parsed ob) auth a pc).0 ≡ dropped)
          × ((handle_delete_outbound ldb json reader avl (parsed ob.id) pc).0 ≡ dropped)
    unfolding handle_get_outbound handle_update_outbound handle_delete_outbound get_outbound
    missing_dropped ob auth a pc ne l =
        (ground (arith, l), ground (arith, l, ne), ground (arith, l, ne))

    -- An update of an open outbound that stands under its own id other than 0, with its network
    -- known, and that its peer does not authorize is answered with 500: the outbound is still open
    -- in memory, and its route was deleted from the table.
    pub update_unauthorized :
        (ob existing : SocksOutbound) (auth : Result AuthorizeResp) (e : String) (n : IpNet)
        (a : TunAnswers) (pc : ProxyClient D)
        → lookup ob.id (made pc.mgr.outbounds) ≡ some existing
        → ob.id ≢ 0
        → existing.id ≡ ob.id
        → existing.is_open ≡ true
        → existing.route_net ≡ some n
        → authorized_name auth ≡ err e
        → (code_of (handle_update_outbound ldb json reader avl (parsed ob) auth a pc).0 ≡ 500)
          × (lookup ob.id (
                made
                  (handle_update_outbound ldb json reader avl
                    (parsed ob)
                    auth
                    a
                    pc).1.mgr.outbounds)
              ≡ some existing)
          × ((handle_update_outbound ldb json reader avl (parsed ob) auth a pc).1.router
              ≡ del_route avl n pc.router)
    unfolding handle_update_outbound update_outbound get_outbound close_route delete_outbound_route
        send_message
    update_unauthorized ob existing auth e n a pc l ne same opened net refused =
        (ground (arith), ground (arith), ground (arith))
