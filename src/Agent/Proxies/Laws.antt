-- ===== src/Agent/Proxies/Laws.antt =====
-- What the index of a proxy means before and after a change.
use uptp.Common.{ℕ, zero, suc, ◌<◌, ◌≡◌, arith, some, String, List, [], ◌∷◌, ◌++◌}
use uptp.Common.{ok, length, get_elem?, take, drop, leb, ltb, Bool-cases, if◌then◌else◌, inl, inr}
use uptp.Common.{◌==◌, nat_eq}
use uptp.Common.Int.{pos}
use uptp.Gateway.Store.{Leveldb, Sum-cases}
use uptp.Agent.Proxies.{
  ProxyGateway, ProxyMgr, ProxyJson, Error, items, save_proxys, add_proxy, del_proxy_by_index,
  get_proxy_by_index,
}

module _ {A : Type 0} where
  get_elem?-removed :
      (l : List A) (i j : ℕ)
      → i < length l
      → get_elem? (take i l ++ drop (suc i) l) j ≡ get_elem? l (if ltb j i then j else suc j)
  get_elem?-removed [] i j h = absurd (omega (arith, h))
  get_elem?-removed (x ∷ l) zero j h = ground arith
  get_elem?-removed (x ∷ l) (suc i) zero h = ground arith
  get_elem?-removed (x ∷ l) (suc i) (suc j) h =
      ground (arith, get_elem?-removed l i j (omega (arith, h)))

  get_elem?-append :
      (l : List A) (x : A) (j : ℕ)
      → get_elem? (l ++ (x ∷ [])) j ≡ (if j == length l then some x else get_elem? l j)
  get_elem?-append [] x zero = ground arith
  get_elem?-append [] x (suc j) = ground arith
  get_elem?-append (y ∷ l) x zero = ground arith
  get_elem?-append (y ∷ l) x (suc j) = ground (arith, get_elem?-append l x j)

module _ {D B : Type 0} (ldb : Leveldb D B) (json : ProxyJson B)
    (delete_key : String → D → Error × D) where
  save_proxys-proxys :
      (m : ProxyMgr D) (l : List ProxyGateway)
      → items (save_proxys ldb json delete_key (record m { proxys = some l })).1.proxys ≡ l
  unfolding save_proxys
  save_proxys-proxys m l = elim (Sum-cases (json.marshal l)) [
    | inl (e, p) ↦ ground (arith, p)
    | inr (v, p) ↦ ground (arith, p)
  ]

  -- Whether it was saved or not, a deletion at an index in the list takes out that proxy: those before
  -- it keep their index, and those after it move down by one. At an index past the end it does nothing.
  pub get-del_proxy_by_index :
      (i j : ℕ) (m : ProxyMgr D)
      → get_proxy_by_index (pos j) (del_proxy_by_index ldb json delete_key (pos i) m).1 ≡ (
          if leb (length (items m.proxys)) i
          then get_proxy_by_index (pos j) m
          else get_proxy_by_index (pos (if ltb j i then j else suc j)) m)
  unfolding get_proxy_by_index del_proxy_by_index
  get-del_proxy_by_index i j m = elim (Bool-cases (leb (length (items m.proxys)) i)) [
    | inl b ↦ ground (arith, b)
    | inr b ↦ ground (
      arith,
      b,
      save_proxys-proxys m (take i (items m.proxys) ++ drop (suc i) (items m.proxys)),
      get_elem?-removed (items m.proxys) i j (ground (arith, b)),
    )
  ]

  -- A new proxy stands past the end, and every other index means what it meant.
  pub get-add_proxy :
      (p : ProxyGateway) (j : ℕ) (m : ProxyMgr D)
      → get_proxy_by_index (pos j) (add_proxy ldb json delete_key p m).1
        ≡ (if j == length (items m.proxys) then ok (some p) else get_proxy_by_index (pos j) m)
  unfolding get_proxy_by_index add_proxy
  get-add_proxy p j m = ground (
    arith,
    save_proxys-proxys m (items m.proxys ++ (p ∷ [])),
    get_elem?-append (items m.proxys) p j,
  )
