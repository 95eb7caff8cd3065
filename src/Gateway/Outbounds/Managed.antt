-- ===== src/Gateway/Outbounds/Managed.antt =====
-- gateway/proxy_client.go: the outbounds and `socks5ProxyManager`, which keeps them in memory and under
-- one key of the database, each method one step under `mtx`. The reading of a peer's name and of a
-- network is an argument, `Reader`.
use uptp.Common.{ℕ, ◌/◌, ◌%◌, ◌^◌, Option, none, some, String, List, [], ◌∷◌, map}
use uptp.Common.{Bool, Result, ok, err, panic, nat_eq, text_eq}
use uptp.Common.GoMap.{GoMap, lookup, insert, delete}
use uptp.Gateway.Cidr.{IpNet}
use uptp.Gateway.Store.{Leveldb, MapJson, save_map, load_map}

-- `socks5.PeerWithAuth`; a `peer.ID` is a string. It is all that a `socks5.Dialer` holds beside the
-- host.
pub record PeerWithAuth : Type 0 where
  pub id : String
  pub user_name : List ℕ
  pub password : List ℕ

pub record SocksOutbound : Type 0 where
  pub id : ℕ
  pub remark : String
  pub is_open : Bool
  pub peer : String
  pub peer_name : String
  pub token : ℕ
  pub route : String
  -- not written to JSON; a nil pointer until the outbound is filled
  pub route_net : Option IpNet
  pub socks5_peer : PeerWithAuth

-- `peer.Decode`, and the network of `net.ParseCIDR`. Neither panics.
pub record Reader : Type 0 where
  pub decode : String → Result String
  pub parse_cidr : String → Result IpNet

-- `binary.LittleEndian.PutUint64`
unfoldable pub token_bytes : ℕ → List ℕ
token_bytes t =
    (t % 256)
    ∷ (t / 2 ^ 8 % 256)
    ∷ (t / 2 ^ 16 % 256)
    ∷ (t / 2 ^ 24 % 256)
    ∷ (t / 2 ^ 32 % 256)
    ∷ (t / 2 ^ 40 % 256)
    ∷ (t / 2 ^ 48 % 256)
    ∷ (t / 2 ^ 56 % 256)
    ∷ []

-- `socks5OutboundFillRunningInfo`: the outbound filled, or why not, and then it stays as it is.
unfoldable pub fill_running_info : Reader → SocksOutbound → Result SocksOutbound
fill_running_info reader ob = elim (reader.decode ob.peer) [
  | err e ↦ err e
  | panic ↦ panic
  | ok pid ↦ elim (reader.parse_cidr ob.route) [
    | err e ↦ err e
    | panic ↦ panic
    | ok n ↦ ok (record ob {
      route_net = some n;
      socks5_peer = record {
        id = pid;
        user_name = token_bytes ob.token;
        password = token_bytes ob.token;
      };
    })
  ]
]

abbrev pub key_socks_outbound : String
key_socks_outbound = "socks_outbound"

-- `socks5ProxyManager` with the database that it points to; the map may be nil.
pub record Manager (D : Type 0) : Type 0 where
  pub db : D
  pub outbounds : Option (GoMap ℕ SocksOutbound)

abbrev pub made : Option (GoMap ℕ SocksOutbound) → GoMap ℕ SocksOutbound
made none = []
made (some m) = m

-- What a call returns whose only result is its error.
abbrev pub Done : Type 0
Done = Unit

-- A nil error, or the error.
abbrev pub result_of : {A : Type 0} → A → Option String → Result A
result_of a none = ok a
result_of a (some e) = err e

-- The filled outbound, or the outbound itself where the filling failed.
abbrev pub filled_or : SocksOutbound → Result SocksOutbound → SocksOutbound
filled_or ob (ok ob') = ob'
filled_or ob (err e) = ob
filled_or ob panic = ob

module _ {D : Type 0} where
  unfoldable pub get_outbound : ℕ → Manager D → Option SocksOutbound × Manager D
  get_outbound id m =
      (lookup id (made m.outbounds), record m { outbounds = some (made m.outbounds) })

  unfoldable pub list_outbounds : Manager D → List SocksOutbound
  list_outbounds m = map (λ entry. entry.1) (made m.outbounds)

module _ {D B : Type 0} (ldb : Leveldb D B) (json : MapJson B SocksOutbound) where
  unfoldable pub save_outbounds : Manager D → Option String × Manager D
  save_outbounds m = elim m.outbounds [
    | none ↦ (none, m)
    | some obs ↦
        let (e, db) = save_map ldb json key_socks_outbound obs m.db in (e, record m { db = db })
  ]

  -- The manager's `AddOutbound` and `UpdateOutbound`, which have the same body. The result is the
  -- outbound as the call leaves it.
  unfoldable pub store_outbound :
      Reader → SocksOutbound → Manager D → Result SocksOutbound × Manager D
  unfolding save_outbounds
  store_outbound reader ob m = elim (fill_running_info reader ob) [
    | err e ↦ (err e, m)
    | panic ↦ (panic, m)
    | ok ob' ↦
        let (e, m') =
          save_outbounds (record m { outbounds = some (insert ob'.id ob' (made m.outbounds)) }) in
        (result_of ob' e, m')
  ]

  -- The manager's `DeleteOutbound`
  unfoldable pub remove_outbound : ℕ → Manager D → Result (Option SocksOutbound) × Manager D
  unfolding save_outbounds
  remove_outbound id m = elim m.outbounds [
    | none ↦ (ok none, m)
    | some obs ↦ elim (lookup id obs) [
      | none ↦ (ok none, m)
      | some ob ↦
          let (e, m') = save_outbounds (record m { outbounds = some (delete id obs) }) in
          (result_of (some ob) e, m')
    ]
  ]

  unfoldable pub load_outbounds : Reader → Manager D → Option String × Manager D
  load_outbounds reader m =
      let (e, obs) = load_map ldb json key_socks_outbound m.outbounds m.db in
      let fill : ℕ × SocksOutbound → ℕ × SocksOutbound =
        λ entry. (entry.0, filled_or entry.1 (fill_running_info reader entry.1)) in
      elim e [
        | some x ↦ (some x, record m { outbounds = obs })
        | none ↦
            (none, record m { outbounds = elim obs [ none ↦ none | some l ↦ some (map fill l) ] })
      ]
