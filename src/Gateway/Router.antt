-- ===== src/Gateway/Router.antt =====
-- gateway/proxy_router.go: the table that sends an IPv4 address to a dialer.
-- The AVL tree is a third-party package: its nodes are the data type `Tree`, which the router
-- walks by itself, and its three calls are the interface `AvlTree`, with what the package
-- documents. Locks are not modelled: each operation is one step.
pub mod Find
pub mod Walk
pub mod Update
pub mod Routes
pub mod Runs
pub mod Plain
pub mod Tests
use uptp.Common.{ℕ, ◌<◌, ◌≡◌, Bool, true, false, Option, none, some, ltb, leb, ◌&&◌, if◌then◌else◌}
use uptp.Common.{◌==◌, ◌!=◌, nat_eq}
use uptp.Gateway.Cidr.{IpNet, get_cidr_int_range}

-- `routeItem`
pub record RouteItem {ℓ} (D : Type ℓ) : Type ℓ where
  pub max : ℕ
  pub dialer : D

-- `avltree.Node` with its key, value and children; `leaf` is nil.
pub data Tree {ℓ} (D : Type ℓ) : Type ℓ where
  leaf : Tree D
  node : Tree D → ℕ → RouteItem D → Tree D → Tree D

module _ {ℓ} {D : Type ℓ} where
  -- Every key satisfies `P`.
  abbrev pub AllKeys : (ℕ → Type 0) → Tree D → Type 0
  AllKeys P leaf = Unit
  AllKeys P (node l k v r) = AllKeys P l × P k × AllKeys P r

  abbrev pub IsOrdered : Tree D → Type 0
  IsOrdered leaf = Unit
  IsOrdered (node l k v r) =
      AllKeys (λ j. j < k) l × AllKeys (λ j. k < j) r × IsOrdered l × IsOrdered r

  -- The value at a key of a search tree, by which the package's contract is stated.
  unfoldable pub find : ℕ → Tree D → Option (RouteItem D)
  find j leaf = none
  find j (node l k v r) =
      let below = find j l in
      let above = find j r in if ltb j k then below else if ltb k j then above else some v

-- What `avltree.Tree` documents of `Put`, `Get` and `Remove` under `utils.UInt32Comparator`.
pub record AvlTree {ℓ} (D : Type ℓ) : Type ℓ where
  pub put : ℕ → RouteItem D → Tree D → Tree D
  pub get_key : ℕ → Tree D → Option (RouteItem D)
  pub remove : ℕ → Tree D → Tree D
  pub put-IsOrdered : (k : ℕ) (v : RouteItem D) (t : Tree D) → IsOrdered t → IsOrdered (put k v t)
  pub remove-IsOrdered : (k : ℕ) (t : Tree D) → IsOrdered t → IsOrdered (remove k t)
  pub get_key-find : (k : ℕ) (t : Tree D) → IsOrdered t → get_key k t ≡ find k t
  pub find-put :
      (k j : ℕ) (v : RouteItem D) (t : Tree D)
      → IsOrdered t
      → find j (put k v t) ≡ (if k == j then some v else find j t)
  pub find-remove :
      (k j : ℕ) (t : Tree D)
      → IsOrdered t
      → find j (remove k t) ≡ (if k == j then none else find j t)

module _ {ℓ} {D : Type ℓ} where
  -- The loop of `add`: whether the walk ends at a node that the new range meets.
  unfoldable pub clashes : Tree D → ℕ → ℕ → Bool
  clashes leaf lo hi = false
  clashes (node l k v r) lo hi =
      let right = clashes r lo hi in
      let left = clashes l lo hi in if ltb v.max lo then right else if ltb hi k then left else true

  -- `get`
  unfoldable pub get : Tree D → ℕ → Option D
  get leaf key = none
  get (node l k v r) key =
      let left = get l key in
      let right = get r key in
      if leb k key && leb key v.max then some v.dialer else if ltb key k then left else right

module _ {ℓ} {D : Type ℓ} (avl : AvlTree D) where
  open avl use {put, get_key, remove}

  -- `add`
  unfoldable pub add : ℕ → RouteItem D → Tree D → Tree D × Bool
  add key value t =
      if ltb value.max key
      then (t, false)
      else if clashes t key value.max
      then (t, false)
      else (put key value t, true)

  -- `addRoute` on the range that `get_cidr_int_range` returns
  unfoldable pub add_range : ℕ × ℕ → D → Tree D → Tree D × Bool
  unfolding add
  add_range (lo, hi) d t = elim (get_key lo t) [
    | none ↦ add lo (record { max = hi; dialer = d }) t
    | some ri ↦ if ri.max != hi then (t, false) else (put lo (record ri { dialer = d }) t, true)
  ]

  unfoldable pub add_route : IpNet → D → Tree D → Tree D × Bool
  unfolding add_range
  add_route ip_net d t = add_range (get_cidr_int_range ip_net) d t

  -- `delRoute`
  unfoldable pub del_route : IpNet → Tree D → Tree D
  del_route ip_net t = remove (get_cidr_int_range ip_net).0 t
