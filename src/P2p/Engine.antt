-- ===== src/P2p/Engine.antt =====
-- p2pengine/engine.go: `NewP2PEngine` over what libp2p, its DHT and the datastore answer. The seed is
-- the list of its bytes.
pub mod Laws
use uptp.Common.{
  ℕ, Bool, true, false, Option, none, some, String, List, [], ◌∷◌, ltb, if◌then◌else◌, length, take,
  Answer, gives, fails,
}
use uptp.Common.Int.{ℤ, pos}
use uptp.Common.Decimal.{atoi}

-- `ed25519.SeedSize`
abbrev pub seed_size : ℕ
seed_size = 32

-- An address of the host: whether it has an IPv6 part, and its TCP port as text, if it has one.
pub record Multiaddr : Type 0 where
  pub is_ip6 : Bool
  pub tcp : Option (List ℕ)

-- The packages below: how they answer the opening of the datastore, the making of a key from a seed,
-- `libp2p.New` in or out of client mode on a port with a key, and `dht.New`.
pub record Libp2p : Type 0 where
  pub open_datastore : Option String
  pub new_key : List ℕ → Option String
  pub new_host : Bool → ℤ → List ℕ → Answer (List Multiaddr)
  pub new_dht : Option String

-- `P2PEngine`: the key of its host, and its port
pub record P2pEngine : Type 0 where
  pub key : List ℕ
  pub real_port : ℤ

-- What a call leaves open.
pub record Resources : Type 0 where
  pub datastore : Bool
  pub host : Bool

-- The loop over `h.Addrs()`: the port of the first address over IPv6 and TCP whose port is a number. A
-- port that is none is assigned all the same.
unfoldable pub find_port : ℤ → List Multiaddr → ℤ
find_port port [] = port
find_port port (a ∷ addrs) = elim a.is_ip6 [
  | false ↦ find_port port addrs
  | true ↦ elim a.tcp [
    | none ↦ find_port port addrs
    | some text ↦ let (n, e) = atoi text in elim e [ none ↦ n | some x ↦ find_port n addrs ]
  ]
]

module _ (lib : Libp2p) where
  -- The part of `NewP2PEngine` that follows the datastore; an error closes the host.
  unfoldable pub new_host_and_dht : Bool → ℤ → List ℕ → Bool → Answer P2pEngine × Resources
  new_host_and_dht client listen_port key stored = elim (lib.new_key key) [
    | some e ↦ (fails e, record { datastore = stored; host = false })
    | none ↦ elim (lib.new_host client listen_port key) [
      | fails e ↦ (fails e, record { datastore = stored; host = false })
      | gives addrs ↦ elim lib.new_dht [
        | some e ↦ (fails e, record { datastore = stored; host = false })
        | none ↦ (
          gives (record { key = key; real_port = find_port (pos 0) addrs }),
          record { datastore = stored; host = true },
        )
      ]
    ]
  ]

  -- `NewP2PEngine`; `stored` says whether the path of a datastore is given.
  unfoldable pub new_p2p_engine : ℤ → List ℕ → Bool → Bool → Answer P2pEngine × Resources
  new_p2p_engine listen_port seed stored client =
      let rest = new_host_and_dht client listen_port (take seed_size seed) stored in
      let nothing : Resources = record { datastore = false; host = false } in
      if ltb (length seed) seed_size
      then (fails "wrong seed", nothing)
      else if stored
      then (elim lib.open_datastore [ some e ↦ (fails e, nothing) | none ↦ rest ])
      else rest

-- `bootstrapFunc`, where `parse` is `peer.AddrInfoFromString`: the addresses that it cannot read are
-- left out.
unfoldable pub bootstrap_peers {ℓ} : {P : Type ℓ} → (String → Answer P) → List String → List P
bootstrap_peers parse [] = []
bootstrap_peers parse (b ∷ bs) =
    let rest = bootstrap_peers parse bs in elim (parse b) [ fails e ↦ rest | gives p ↦ p ∷ rest ]
