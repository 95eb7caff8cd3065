-- ===== src/Gateway/Memory.antt =====
-- A database in memory and documents that are their values: instances of what package gateway asks
-- of goleveldb and encoding/json, at which the theorems are run.
use uptp.Common.{ℕ, ◌≡◌, ◌≢◌, refl, ap, arith, Option, none, some, String, List, [], ◌∷◌, inr, ◌⊎◌}
use uptp.Common.{nat_eq, text_eq, eq_iff}
use uptp.Common.GoMap.{GoMap, lookup, insert, lookup-insert, lookup-insert_self}
use uptp.Gateway.Store.{
  Leveldb, Read, found, not_found, MapJson, ValueJson, TextBytes, IsEmpty, lookup_in,
}
use uptp.Gateway.PortmapResource.{PortmapResource}
use uptp.Gateway.PortmapApp.{PortmapApp}
use uptp.Gateway.Outbounds.{SocksOutbound}
use uptp.Gateway.ProxyService.{ProxyServiceConfig}
use uptp.Gateway.Authorize.{StringBytes}
use mathlib.Core.Option

pub data Doc : Type 0 where
  ascii : List ℕ → Doc
  string : String → Doc
  resources : GoMap ℕ PortmapResource → Doc
  apps : GoMap ℕ PortmapApp → Doc
  outbounds : GoMap ℕ SocksOutbound → Doc
  config : ProxyServiceConfig → Doc

abbrev pub marshaled : Doc → String ⊎ Doc
marshaled d = inr d

abbrev pub Db : Type 0
Db = GoMap String Doc

abbrev pub read_of : Option Doc → Read Doc
read_of none = not_found
read_of (some v) = found v

pub memory_put_ne :
    (k j : String) (v : Doc) (d : Db)
    → k ≢ j
    → read_of (lookup j (insert k v d)) ≡ read_of (lookup j d)
memory_put_ne k j v d n = ap read_of (ground (arith, lookup-insert k j v d, eq_iff k j))

pub memory_never_fails : {d d' : Db} {e : String} → none ≡ some e → d ≡ d'
memory_never_fails h = absurd (cc h)

abbrev pub memory : Leveldb Db Doc
memory = record {
  get = λ k d. read_of (lookup k d);
  put = λ k v d. (none, insert k v d);
  get-put_self = λ k v d _. ap read_of (lookup-insert_self k v d);
  get-put_ne = memory_put_ne;
  put_failed = λ k v d h. memory_never_fails h;
}

module _ {V : Type 0} (kept : V → V) where
  -- The values without the fields that carry no JSON name
  abbrev pub keep_all : GoMap ℕ V → GoMap ℕ V
  keep_all [] = []
  keep_all ((k, v) ∷ m) = (k, kept v) ∷ keep_all m

  pub lookup-keep_all :
      (k : ℕ) (m : GoMap ℕ V) → lookup k (keep_all m) ≡ Option.map kept (lookup k m)
  unfolding lookup
  lookup-keep_all k [] = refl
  lookup-keep_all k ((j, v) ∷ m) = ground (arith, lookup-keep_all k m)

abbrev pub drop_err : PortmapApp → PortmapApp
drop_err a = record a { err_text = "" }

abbrev pub drop_filled : SocksOutbound → SocksOutbound
drop_filled ob = record ob {
  route_net = none;
  socks5_peer = record { id = ""; user_name = []; password = [] };
}

-- What is unmarshalled: the map of a document that holds one of the right kind.
abbrev pub unmarshal_of :
    {V : Type 0} → Option (GoMap ℕ V) → Option (GoMap ℕ V) → Option String × Option (GoMap ℕ V)
unmarshal_of none target = (some "unmarshal", target)
unmarshal_of (some m) target = (none, some m)

module _ {V : Type 0} (kept : V → V) (doc : GoMap ℕ V → Doc)
    (undoc : Doc → Option (GoMap ℕ V)) where
  pub unmarshal-marshal_lem :
      ((m : GoMap ℕ V) → undoc (doc m) ≡ some m)
      → (m : GoMap ℕ V) (s : Doc) (target : Option (GoMap ℕ V)) → IsEmpty target
      → marshaled (doc (keep_all kept m)) ≡ marshaled s
      → ((unmarshal_of (undoc s) target).0 ≡ none)
        × ((k : ℕ) → lookup_in k (unmarshal_of (undoc s) target).1 ≡ Option.map kept (lookup k m))
  unmarshal-marshal_lem read m s target _ e =
      let same : doc (keep_all kept m) ≡ s = cc e in
      rw (← same, read (keep_all kept m)) (refl, λ k. lookup-keep_all kept k m)

  abbrev pub map_json : ((m : GoMap ℕ V) → undoc (doc m) ≡ some m) → MapJson Doc V
  map_json read = record {
    kept = kept;
    marshal = λ m. inr (doc (keep_all kept m));
    unmarshal = λ v target. unmarshal_of (undoc v) target;
    unmarshal-marshal = unmarshal-marshal_lem read;
  }

abbrev pub resource_json : MapJson Doc PortmapResource
resource_json =
    map_json (λ r. r) resources (λ v. elim v [ resources m ↦ some m | _ ↦ none ]) (λ m. refl)

abbrev pub app_json : MapJson Doc PortmapApp
app_json = map_json drop_err apps (λ v. elim v [ apps m ↦ some m | _ ↦ none ]) (λ m. refl)

abbrev pub outbound_json : MapJson Doc SocksOutbound
outbound_json =
    map_json drop_filled outbounds (λ v. elim v [ outbounds m ↦ some m | _ ↦ none ]) (λ m. refl)

pub config_law :
    (c target : ProxyServiceConfig) (s : Doc)
    → marshaled (config c) ≡ marshaled s
    → (elim s as (λ _. Option String × ProxyServiceConfig) [
      | config c ↦ (none, c)
      | _ ↦ (some "unmarshal", target)
    ])
      ≡ (none, c)
config_law c target s e = let doc : config c ≡ s = cc e in rw (← doc)

abbrev pub config_json : ValueJson Doc ProxyServiceConfig
config_json = record {
  marshal = λ c. inr (config c);
  unmarshal = λ v target. elim v [ config c ↦ (none, c) | _ ↦ (some "unmarshal", target) ];
  unmarshal-marshal = config_law;
}

abbrev pub ascii_bytes : TextBytes Doc
ascii_bytes = record {
  of_text = λ s. ascii s;
  to_text = λ v. elim v [ ascii s ↦ s | _ ↦ [] ];
  to_text-of_text = λ s. refl;
}

abbrev pub string_bytes : StringBytes Doc
string_bytes = record {
  of_string = λ s. string s;
  to_string = λ v. elim v [ string s ↦ s | _ ↦ "" ];
}
