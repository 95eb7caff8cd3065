-- ===== src/Agent/Tun.antt =====
-- agent/proxy.go: `startTunProxy` and `stopTunProxy` with `startTun2socks` and `stopTun2socks`, by which the
-- user interface sends the traffic of the device to a proxy of the list; they join Agent/Proxies with
-- Tunnel/Engine.
use uptp.Common.{
  ◌*◌, ◌≡◌, arith, Bool, true, false, Option, none, some, String, Result, ok, err, panic, ◌≢◌, ◌⊎◌,
  refl, if◌then◌else◌, Result-cases, Option-cases, inl, inr,
}
use uptp.Common.Int.{ℤ}
use uptp.Gateway.Outbounds.{PeerWithAuth}
use uptp.Agent.Proxies.{ProxyGateway, ProxyMgr, Error, get_proxy_by_index}
use uptp.Tunnel.Engine
use uptp.Tunnel.Engine.{Key, Engine, insert, second}

-- The engine of the tunnel, and the peer of the dialer that `SetProxyDialer` has set; none is the dialer
-- that refuses.
pub record TunState : Type 0 where
  pub engine : Engine
  pub dialer : Option PeerWithAuth

-- `startTun2socks`: a key with the device, then `Start`
unfoldable pub start_tun2socks : String → Engine.Answers → Engine → Engine.Outcome × Engine
start_tun2socks device a e =
    let key : Key = record {
      log_level = "debug";
      udp_timeout = 60 * second;
      device = device;
      mtu = 0;
    } in
    Engine.start a (insert key e)

-- What follows the start of the tunnel; `has_p2p` says whether the agent has an engine, which is
-- dereferenced.
unfoldable pub dial_to :
    Bool → PeerWithAuth → Engine.Outcome × Engine → TunState → Result Error × TunState
dial_to has_p2p peer (Engine.failed e, engine) s = (ok (some e), record s { engine = engine })
dial_to has_p2p peer (Engine.panicked, engine) s = (panic, record s { engine = engine })
dial_to has_p2p peer (Engine.done, engine) s =
    if has_p2p
    then (ok none, record { engine = engine; dialer = some peer })
    else (panic, record s { engine = engine })

-- `startTunProxy`
unfoldable pub start_tun_proxy :
    {D : Type 0}
    → String
    → ℤ
    → Engine.Answers
    → Bool
    → ProxyMgr D
    → TunState
    → Result Error × TunState
unfolding start_tun2socks
start_tun_proxy device index a has_p2p m s = elim (get_proxy_by_index index m) [
  | err e ↦ (ok (some e), s)
  | panic ↦ (panic, s)
  | ok found ↦ elim found [
    | none ↦ (ok (some "gateway not found"), s)
    | some pg ↦ dial_to has_p2p pg.peer (start_tun2socks device a s.engine) s
  ]
]

-- `stopTunProxy`
unfoldable pub stop_tun_proxy : TunState → TunState
stop_tun_proxy s = record { engine = Engine.stop s.engine; dialer = none }

dial_to-dialer :
    (has_p2p : Bool) (peer : PeerWithAuth) (o : Engine.Outcome × Engine) (s : TunState)
    → ((dial_to has_p2p peer o s).0 ≡ ok none) × ((dial_to has_p2p peer o s).1.dialer ≡ some peer)
      ⊎ ((dial_to has_p2p peer o s).0 ≢ ok none) × ((dial_to has_p2p peer o s).1.dialer ≡ s.dialer)
unfolding dial_to
dial_to-dialer has_p2p peer (Engine.failed e, engine) s = inr (λ h. cc, refl)
dial_to-dialer has_p2p peer (Engine.panicked, engine) s = inr (λ h. cc, refl)
dial_to-dialer true peer (Engine.done, engine) s = inl (refl, refl)
dial_to-dialer false peer (Engine.done, engine) s = inr (λ h. cc, refl)

-- A start of the tunnel sends the traffic to the proxy of the list that the index names, if it succeeds,
-- and leaves it where it went before, if it does not.
pub start_tun_proxy-dialer :
    {D : Type 0} (device : String) (index : ℤ) (a : Engine.Answers) (has_p2p : Bool)
    (m : ProxyMgr D) (s : TunState)
    → ((pg : ProxyGateway) × (get_proxy_by_index index m ≡ ok (some pg))
        × ((start_tun_proxy device index a has_p2p m s).0 ≡ ok none)
        × ((start_tun_proxy device index a has_p2p m s).1.dialer ≡ some pg.peer))
      ⊎ (((start_tun_proxy device index a has_p2p m s).0 ≢ ok none)
          × ((start_tun_proxy device index a has_p2p m s).1.dialer ≡ s.dialer))
unfolding start_tun_proxy
start_tun_proxy-dialer device index a has_p2p m s =
    elim (Result-cases (get_proxy_by_index index m)) [
      | inr (inl (e, q)) ↦ inr (λ h. absurd (ground (arith, q, h)), ground (arith, q))
      | inr (inr q) ↦ inr (λ h. absurd (ground (arith, q, h)), ground (arith, q))
      | inl (o, q) ↦ elim (Option-cases o) [
        | inl n ↦ inr (λ h. absurd (ground (arith, q, n, h)), ground (arith, q, n))
        | inr (pg, n) ↦
            elim (dial_to-dialer has_p2p pg.peer (start_tun2socks device a s.engine) s) [
              | inl d ↦
                  inl
                    (pg, ground (arith, q, n), ground (arith, q, n, d.0), ground (arith, q, n, d.1))
              | inr d ↦ inr (λ h. d.0 (ground (arith, q, n, h)), ground (arith, q, n, d.1))
            ]
      ]
    ]
