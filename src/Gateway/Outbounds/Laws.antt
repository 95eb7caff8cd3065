-- ===== src/Gateway/Outbounds/Laws.antt =====
-- What the client's routes do to a connection, and what the manager keeps.
use uptp.Common.{
  ℕ, ◌+◌, ◌-◌, ◌*◌, ◌/◌, ◌%◌, ◌^◌, ◌<◌, ◌≤◌, ◌≡◌, ◌≢◌, ◌∙◌, sym, [], ◌∷◌, inl, inr, arith, none,
  some,
}
use uptp.Common.{from_bytes, true, Option-cases, Result-cases, Result, ok, if◌then◌else◌, nat_eq}
use uptp.Gateway.Cidr.{IpNet, set_bytes, get_cidr_int_range}
use uptp.Gateway.Cidr.Range.{ipv4_net, get_cidr_int_range_prefix}
use uptp.Gateway.Router.{AvlTree, add_route}
use uptp.Gateway.Router.Find.{IsValid}
use uptp.Gateway.Router.Routes.{within, add_route-IsValid, del_route-IsValid, get-add_route}
use uptp.Gateway.Store.{Leveldb, MapJson}
use uptp.Gateway.Authorize.{AuthorizeResp}
use uptp.Gateway.AppApi.{authorized_name}
use uptp.Gateway.Outbounds.{
  SocksOutbound, Reader, PeerWithAuth, ProxyClient, TunAnswers, store_outbound, remove_outbound,
  start_tun_stack, add_outbound_route, delete_outbound_route, add_outbound, update_outbound,
  delete_outbound, open_route, dial_context, v4, token_bytes, fill_running_info,
}

-- The eight bytes of a token of 64 bits are the token.
pub from_bytes-token_bytes : (t : ℕ) → t < 2 ^ 64 → from_bytes (token_bytes t) ≡ t
unfolding token_bytes
from_bytes-token_bytes t h = omega (arith, h)

-- The number of an IPv4 address
abbrev pub number : ℕ → ℕ → ℕ → ℕ → ℕ
number a b c d = d + c * 2 ^ 8 + b * 2 ^ 16 + a * 2 ^ 24

set_bytes-number : (a b c d : ℕ) → set_bytes (a ∷ b ∷ c ∷ d ∷ []) ≡ number a b c d
unfolding set_bytes
set_bytes-number a b c d = omega arith

if_true_within :
    (lo hi x : ℕ) (r s : Result PeerWithAuth)
    → (lo ≤ x) × (x ≤ hi)
    → (if within lo hi x then r else s) ≡ r
if_true_within lo hi x r s h = ground (arith, h)

if_false_within :
    (lo hi x : ℕ) (r s : Result PeerWithAuth)
    → ((lo ≤ x) × (x ≤ hi) → ⊥)
    → (if within lo hi x then r else s) ≡ s
if_false_within lo hi x r s h = ground (arith, h)

module _ {D : Type 0} where
  pub start_tun_stack-IsValid :
      (a : TunAnswers) (pc : ProxyClient D)
      → IsValid pc.router
      → IsValid (start_tun_stack a pc).1.router
  unfolding start_tun_stack
  start_tun_stack-IsValid a pc h = ground (arith, h)

  module _ (avl : AvlTree PeerWithAuth) (ob : SocksOutbound) (pc : ProxyClient D) where
    pub add_outbound_route-IsValid :
        IsValid pc.router → IsValid (add_outbound_route avl ob pc).1.router
    unfolding add_outbound_route
    add_outbound_route-IsValid h = elim (Option-cases ob.route_net) [
      | inl e ↦ rw (e) h
      | inr (n, e) ↦ rw (e) (add_route-IsValid avl n pc.router h ob.socks5_peer)
    ]

    pub delete_outbound_route-IsValid :
        IsValid pc.router → IsValid (delete_outbound_route avl ob pc).1.router
    unfolding delete_outbound_route
    delete_outbound_route-IsValid h = elim (Option-cases ob.route_net) [
      | inl e ↦ rw (e) h
      | inr (n, e) ↦ rw (e) (del_route-IsValid avl n pc.router h)
    ]

    -- Where a valid table takes the route of an outbound whose network is known, a connection to
    -- an IPv4 address in the range that is computed for it goes to the outbound's peer, and every other
    -- connection to an IPv4 address goes where it went before.
    dial_context-add_outbound_route :
        (n : IpNet) (a b c d : ℕ)
        → IsValid pc.router
        → ob.route_net ≡ some n
        → (add_route avl n ob.socks5_peer pc.router).1 ≡ true
        → dial_context (v4 a b c d) (add_outbound_route avl ob pc).1 ≡ (
            if within
              (get_cidr_int_range n).0
              (get_cidr_int_range n).1
              (d + c * 2 ^ 8 + b * 2 ^ 16 + a * 2 ^ 24)
            then ok ob.socks5_peer
            else dial_context (v4 a b c d) pc)
    unfolding dial_context add_outbound_route
    dial_context-add_outbound_route n a b c d h e accepted = ground (
      arith,
      e,
      get-add_route avl n pc.router h ob.socks5_peer (d + c * 2 ^ 8 + b * 2 ^ 16 + a * 2 ^ 24)
          accepted,
    )

    -- Where a valid table takes the route of an outbound whose network is an IPv4 network with its host bits
    -- zero, a connection to an IPv4 address that has the network's prefix goes to the outbound's peer, and a
    -- connection to one that has another prefix goes where it went before.
    pub dial_context-prefix :
        (n1 n2 n3 n4 ones a b c d : ℕ)
        → IsValid pc.router
        → n1 < 256
        → n2 < 256
        → n3 < 256
        → n4 < 256
        → ones ≤ 32
        → number n1 n2 n3 n4 % 2 ^ (32 - ones) ≡ 0
        → ob.route_net ≡ some (ipv4_net n1 n2 n3 n4 ones)
        → (add_route avl (ipv4_net n1 n2 n3 n4 ones) ob.socks5_peer pc.router).1 ≡ true
        → (number a b c d / 2 ^ (32 - ones) ≡ number n1 n2 n3 n4 / 2 ^ (32 - ones)
            → dial_context (v4 a b c d) (add_outbound_route avl ob pc).1 ≡ ok ob.socks5_peer)
          × (number a b c d / 2 ^ (32 - ones) ≢ number n1 n2 n3 n4 / 2 ^ (32 - ones)
              → dial_context (v4 a b c d) (add_outbound_route avl ob pc).1
                ≡ dial_context (v4 a b c d) pc)
    dial_context-prefix n1 n2 n3 n4 ones a b c d valid h1 h2 h3 h4 ho aligned e accepted =
        let n = ipv4_net n1 n2 n3 n4 ones in
        let dialled = dial_context-add_outbound_route n a b c d valid e accepted in
        let prefix =
          get_cidr_int_range_prefix n1 n2 n3 n4 ones h1 h2 h3 h4 ho
            (rw (set_bytes-number n1 n2 n3 n4) aligned) (number a b c d) in
        let net = set_bytes-number n1 n2 n3 n4 in
        (
          λ same. dialled ∙ if_true_within _ _ _ _ _ (prefix.1 (rw net same)),
          λ other. dialled ∙ if_false_within _ _ _ _ _ (λ i. other (rw (sym net) (prefix.0 i))),
        )

module _ {D B : Type 0} (ldb : Leveldb D B) (json : MapJson B SocksOutbound) (reader : Reader) where
  module _ (avl : AvlTree PeerWithAuth) (a : TunAnswers) where
    open_route-IsValid :
        (ob : SocksOutbound) (pc : ProxyClient D)
        → IsValid pc.router
        → IsValid (open_route ldb json reader avl ob a pc).1.router
    open_route-IsValid ob pc h = ground (
      arith,
      h,
      start_tun_stack-IsValid a pc h,
      add_outbound_route-IsValid avl ob (start_tun_stack a pc).1 (start_tun_stack-IsValid a pc h),
    )

    pub add_outbound-IsValid :
        (ob : SocksOutbound) (auth : Result AuthorizeResp) (pc : ProxyClient D)
        → IsValid pc.router
        → IsValid (add_outbound ldb json reader avl ob auth a pc).1.router
    unfolding add_outbound
    add_outbound-IsValid ob auth pc h = elim (Result-cases (authorized_name auth)) [
      | inl (name, p) ↦
          let stored = store_outbound ldb json reader (record ob { peer_name = name }) pc.mgr in
          elim (Result-cases stored.0) [
            | inl (ob', q) ↦
                ground (arith, h, p, q, open_route-IsValid ob' (record pc { mgr = stored.1 }) h)
            | inr (inl (e, q)) ↦ ground (arith, h, p, q)
            | inr (inr q) ↦ ground (arith, h, p, q)
          ]
      | inr (inl (e, p)) ↦ ground (arith, h, p)
      | inr (inr p) ↦ ground (arith, h, p)
    ]

    pub update_outbound-IsValid :
        (ob : SocksOutbound) (auth : Result AuthorizeResp) (pc : ProxyClient D)
        → IsValid pc.router
        → IsValid (update_outbound ldb json reader avl ob auth a pc).1.router
    unfolding update_outbound
    update_outbound-IsValid ob auth pc h = elim (Result-cases (authorized_name auth)) [
      | inl (name, p) ↦
          let stored = store_outbound ldb json reader (record ob { peer_name = name }) pc.mgr in
          elim (Result-cases stored.0) [
            | inl (ob', q) ↦
                ground (arith, h, p, q, open_route-IsValid ob' (record pc { mgr = stored.1 }) h)
            | inr (inl (e, q)) ↦ ground (arith, h, p, q)
            | inr (inr q) ↦ ground (arith, h, p, q)
          ]
      | inr (inl (e, p)) ↦ ground (arith, h, p)
      | inr (inr p) ↦ ground (arith, h, p)
    ]

  pub delete_outbound-IsValid :
      (avl : AvlTree PeerWithAuth) (id : ℕ) (pc : ProxyClient D)
      → IsValid pc.router
      → IsValid (delete_outbound ldb json reader avl id pc).1.router
  unfolding delete_outbound
  delete_outbound-IsValid avl id pc h = elim (Result-cases (remove_outbound ldb json id pc.mgr).0) [
    | inl (none, p) ↦ ground (arith, h, p)
    | inl (some ob, p) ↦ elim (Option-cases ob.route_net) [
      | inl q ↦ ground (arith, h, p, q)
      | inr (n, q) ↦ ground (arith, h, p, q, del_route-IsValid avl n pc.router h)
    ]
    | inr (inl (e, p)) ↦ ground (arith, h, p)
    | inr (inr p) ↦ ground (arith, h, p)
  ]

  -- What the manager stores has its network.
  pub fill_running_info-route_net :
      (ob ob' : SocksOutbound)
      → fill_running_info reader ob ≡ ok ob'
      → (n : IpNet) × (ob'.route_net ≡ some n)
  unfolding fill_running_info
  fill_running_info-route_net ob ob' h = elim (Result-cases (reader.decode ob.peer)) [
    | inl (pid, p) ↦ elim (Result-cases (reader.parse_cidr ob.route)) [
      | inl (n, q) ↦ (n, ground (arith, p, q, h))
      | inr (inl (e, q)) ↦ absurd (ground (arith, p, q, h))
      | inr (inr q) ↦ absurd (ground (arith, p, q, h))
    ]
    | inr (inl (e, p)) ↦ absurd (ground (arith, p, h))
    | inr (inr p) ↦ absurd (ground (arith, p, h))
  ]
