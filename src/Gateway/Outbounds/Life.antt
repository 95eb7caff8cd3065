-- ===== src/Gateway/Outbounds/Life.antt =====
-- `Start` and `Stop` of `proxyClient` (gateway/proxy_client.go), over the outbounds that
-- `ListOutbounds` copies. A panic in them ends the process.
use uptp.Common.{arith, Option, none, some, String, List, [], ◌∷◌, false, Result, ok, err, panic}
use uptp.Common.{if◌then◌else◌, Result-cases, inl, inr}
use uptp.Gateway.Router.{AvlTree}
use uptp.Gateway.Router.Find.{IsValid}
use uptp.Gateway.Store.{Leveldb, MapJson}
use uptp.Gateway.Outbounds.{
  SocksOutbound, Reader, PeerWithAuth, ProxyClient, TunAnswers, Done, store_outbound,
  start_tun_stack, stop_tun_stack, add_outbound_route, delete_outbound_route,
}
use uptp.Gateway.Outbounds.Laws.{start_tun_stack-IsValid, add_outbound_route-IsValid}

module _ {D B : Type 0} (ldb : Leveldb D B) (json : MapJson B SocksOutbound) (reader : Reader) where
  module _ (avl : AvlTree PeerWithAuth) where
    -- One round of the loop of `Start`: an outbound without a tunnel is stored as closed, whether or
    -- not that is saved.
    unfoldable pub start_outbound :
        SocksOutbound → TunAnswers → ProxyClient D → Result Done × ProxyClient D
    start_outbound ob a pc =
        let (e, pc') = start_tun_stack a pc in
        let closed = (store_outbound ldb json reader (record ob { is_open = false }) pc'.mgr).1 in
        let routed = add_outbound_route avl ob pc' in
        if ob.is_open
        then (elim e [ some x ↦ (ok tt, record pc' { mgr = closed }) | none ↦ routed ])
        else (ok tt, pc)

    -- `Start`, on each outbound with the answers of the tunnel
    unfoldable pub start :
        List (SocksOutbound × TunAnswers) → ProxyClient D → Result Done × ProxyClient D
    start [] pc = (ok tt, pc)
    start ((ob, a) ∷ obs) pc =
        let (r, pc') = start_outbound ob a pc in
        let rest = start obs pc' in elim r [ ok u ↦ rest | err e ↦ rest | panic ↦ (panic, pc') ]

    start_outbound-IsValid :
        (ob : SocksOutbound) (a : TunAnswers) (pc : ProxyClient D)
        → IsValid pc.router
        → IsValid (start_outbound ob a pc).1.router
    unfolding start_outbound
    start_outbound-IsValid ob a pc h =
        let started : IsValid (start_tun_stack a pc).1.router = start_tun_stack-IsValid a pc h in
        ground
          (arith, h, started, add_outbound_route-IsValid avl ob (start_tun_stack a pc).1 started)

    -- `Start` keeps a valid route table valid, also where it panics.
    pub start-IsValid :
        (obs : List (SocksOutbound × TunAnswers)) (pc : ProxyClient D)
        → IsValid pc.router
        → IsValid (start obs pc).1.router
    unfolding start
    start-IsValid [] pc h = h
    start-IsValid ((ob, a) ∷ obs) pc h =
        let now : IsValid (start_outbound ob a pc).1.router = start_outbound-IsValid ob a pc h in
        let later : IsValid (start obs (start_outbound ob a pc).1).1.router =
          start-IsValid obs (start_outbound ob a pc).1 now in
        elim (Result-cases (start_outbound ob a pc).0) [
          | inl (u, p) ↦ ground (arith, now, later, p)
          | inr (inl (e, p)) ↦ ground (arith, now, later, p)
          | inr (inr p) ↦ ground (arith, now, later, p)
        ]

module _ {D : Type 0} (avl : AvlTree PeerWithAuth) where
  -- The loop of `Stop`
  unfoldable pub stop_routes : List SocksOutbound → ProxyClient D → Result Done × ProxyClient D
  stop_routes [] pc = (ok tt, pc)
  stop_routes (ob ∷ obs) pc =
      let (r, pc') = delete_outbound_route avl ob pc in
      let next = stop_routes obs pc' in
      let skipped = stop_routes obs pc in
      if ob.is_open then (elim r [ ok u ↦ next | err e ↦ next | panic ↦ (panic, pc') ]) else skipped

  -- `Stop`, whose answer from the tunnel is only logged
  unfoldable pub stop :
      List SocksOutbound → Option String → ProxyClient D → Result Done × ProxyClient D
  unfolding stop_routes
  stop obs answer pc =
      let (r, pc') = stop_routes obs pc in
      elim r [
        | ok u ↦ (ok tt, (stop_tun_stack answer pc').1)
        | err e ↦ (ok tt, (stop_tun_stack answer pc').1)
        | panic ↦ (panic, pc')
      ]
