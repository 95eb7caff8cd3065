-- ===== src/Gateway/Outbounds.antt =====
-- gateway/proxy_client.go: `proxyClient`, by which this node sends its own traffic to the proxies of
-- peers: the outbounds of Outbounds/Managed with the tunnel and the routes. The answers of the peer and of
-- the tunnel are arguments.
mod Managed
pub mod Laws
pub mod Life
pub use Managed.{
  PeerWithAuth, SocksOutbound, Reader, key_socks_outbound, Manager, made, Done, result_of,
  filled_or,
}
unfoldable pub use Managed.{
  token_bytes, fill_running_info, get_outbound, list_outbounds, save_outbounds, store_outbound,
  remove_outbound, load_outbounds,
}
use uptp.Common.{ℕ, ◌+◌, ◌*◌, ◌/◌, ◌%◌, ◌^◌, Option, none, some, String, List, [], ◌∷◌, ◌++◌, map}
use uptp.Common.{
  Bool, true, false, Result, ok, err, panic, if◌then◌else◌, ◌==◌, ◌!=◌, nat_eq, text_eq,
}
use uptp.Common.GoMap.{GoMap, lookup, insert, delete}
use uptp.Gateway.Cidr.{IpNet}
use uptp.Gateway.Router.{Tree, leaf, AvlTree, get, add_route, del_route}
use uptp.Gateway.Store.{Leveldb, MapJson, save_map, load_map}
use uptp.Gateway.AppApi.{authorized_name}
use uptp.Gateway.Authorize.{AuthorizeResp}

-- The commands that `addRoute` and `delRoute` of gateway/sys_*.go run, in their order. Their answers
-- are only logged.
pub data RouteCommand : Type 0 where
  route_added route_deleted : String → RouteCommand

-- `proxyClient`
pub record ProxyClient (D : Type 0) : Type 0 where
  pub mgr : Manager D
  pub tun_running : Bool
  pub router : Tree PeerWithAuth
  pub commands : List RouteCommand

-- What `tunstack.Start`, then `setTunAddr`, return; `none` is nil.
pub record TunAnswers : Type 0 where
  pub start : Option String
  pub addr : Option String

module _ {D : Type 0} where
  unfoldable pub start_tun_stack : TunAnswers → ProxyClient D → Option String × ProxyClient D
  start_tun_stack a pc = if pc.tun_running then (none, pc) else elim a.start [
    | some e ↦ (some e, pc)
    | none ↦ elim a.addr [ some e ↦ (some e, pc) | none ↦ (none, record pc { tun_running = true }) ]
  ]

  -- The answer is that of `tunstack.Stop`.
  unfoldable pub stop_tun_stack : Option String → ProxyClient D → Option String × ProxyClient D
  stop_tun_stack answer pc =
      if pc.tun_running
      then elim answer [ some e ↦ (some e, pc) | none ↦ (none, record pc { tun_running = false }) ]
      else (none, pc)

  module _ (avl : AvlTree PeerWithAuth) where
    -- Both panic on an outbound that has no network.
    unfoldable pub add_outbound_route : SocksOutbound → ProxyClient D → Result Done × ProxyClient D
    add_outbound_route ob pc = elim ob.route_net [
      | none ↦ (panic, pc)
      | some n ↦ (
        ok tt,
        record pc {
          router = (add_route avl n ob.socks5_peer pc.router).0;
          commands = pc.commands ++ (route_added ob.route ∷ []);
        },
      )
    ]

    unfoldable pub delete_outbound_route :
        SocksOutbound → ProxyClient D → Result Done × ProxyClient D
    delete_outbound_route ob pc = elim ob.route_net [
      | none ↦ (panic, pc)
      | some n ↦ (
        ok tt,
        record pc {
          router = del_route avl n pc.router;
          commands = pc.commands ++ (route_deleted ob.route ∷ []);
        },
      )
    ]

module _ {D B : Type 0} (ldb : Leveldb D B) (json : MapJson B SocksOutbound) (reader : Reader) where
  module _ (avl : AvlTree PeerWithAuth) where
    -- The last steps of `AddOutbound` and `UpdateOutbound`: the tunnel, then the route.
    abbrev pub open_route : SocksOutbound → TunAnswers → ProxyClient D → Result Done × ProxyClient D
    open_route ob a pc =
        let (e, pc') = start_tun_stack a pc in
        let routed = add_outbound_route avl ob pc' in
        elim e [ some x ↦ (err x, pc') | none ↦ if ob.is_open then routed else (ok tt, pc') ]

    -- `AddOutbound`, where `auth` is what `ResourceAuthorize` returns
    unfoldable pub add_outbound :
        SocksOutbound
        → Result AuthorizeResp
        → TunAnswers
        → ProxyClient D
        → Result Done × ProxyClient D
    add_outbound ob auth a pc = elim (authorized_name auth) [
      | err e ↦ (err e, pc)
      | panic ↦ (panic, pc)
      | ok name ↦
          let (r, m) = store_outbound ldb json reader (record ob { peer_name = name }) pc.mgr in
          elim r [
            | err e ↦ (err e, record pc { mgr = m })
            | panic ↦ (panic, record pc { mgr = m })
            | ok ob' ↦
                if ob'.is_open
                then open_route ob' a (record pc { mgr = m })
                else (ok tt, record pc { mgr = m })
          ]
    ]

    -- `UpdateOutbound`, which starts the tunnel for a closed outbound too
    unfoldable pub update_outbound :
        SocksOutbound
        → Result AuthorizeResp
        → TunAnswers
        → ProxyClient D
        → Result Done × ProxyClient D
    update_outbound ob auth a pc = elim (authorized_name auth) [
      | err e ↦ (err e, pc)
      | panic ↦ (panic, pc)
      | ok name ↦
          let (r, m) = store_outbound ldb json reader (record ob { peer_name = name }) pc.mgr in
          elim r [
            | err e ↦ (err e, record pc { mgr = m })
            | panic ↦ (panic, record pc { mgr = m })
            | ok ob' ↦ open_route ob' a (record pc { mgr = m })
          ]
    ]

    -- `DeleteOutbound`
    unfoldable pub delete_outbound : ℕ → ProxyClient D → Result Done × ProxyClient D
    delete_outbound id pc =
        let (r, m) = remove_outbound ldb json id pc.mgr in
        elim r [
          | err e ↦ (err e, record pc { mgr = m })
          | panic ↦ (panic, record pc { mgr = m })
          | ok none ↦ (ok tt, record pc { mgr = m })
          | ok (some ob) ↦ elim ob.route_net [
            | none ↦ (panic, record pc { mgr = m })
            | some n ↦ (ok tt, record pc { mgr = m; router = del_route avl n pc.router })
          ]
        ]

-- A connection that the tunnel takes: an IPv6 address is refused, an IPv4 address goes to the
-- dialer of its route.
pub data Destination : Type 0 where
  v4 : ℕ → ℕ → ℕ → ℕ → Destination
  v6 : Destination

-- `DialContext`, up to the dialer's own call. The bytes are below 256, so their bits do not meet.
unfoldable pub dial_context : {D : Type 0} → Destination → ProxyClient D → Result PeerWithAuth
dial_context v6 pc = err "not support v6"
dial_context (v4 a b c d) pc = elim (get pc.router (d + c * 2 ^ 8 + b * 2 ^ 16 + a * 2 ^ 24)) [
  | none ↦ err "no route found"
  | some dialer ↦ ok dialer
]
