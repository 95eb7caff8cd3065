-- ===== src/Gateway/Router/Plain.antt =====
-- A plain search tree as an `AvlTree`, which shows that the package's contract can be met.
use uptp.Common.{ℕ, ◌<◌, ◌≡◌, refl, arith, none, some, ltb, if◌then◌else◌, ◌==◌, nat_eq}
use uptp.Gateway.Router.{RouteItem, Tree, leaf, node, AllKeys, IsOrdered, AvlTree, find}

module _ {D : Type 0} where
  unfoldable pub insert_key : ℕ → RouteItem D → Tree D → Tree D
  insert_key j w leaf = node leaf j w leaf
  insert_key j w (node l k v r) =
      let left = insert_key j w l in
      let right = insert_key j w r in
      if ltb j k then node left k v r else if ltb k j then node l k v right else node l k w r

  -- Hangs `l` under the least key of `r`.
  graft : Tree D → Tree D → Tree D
  graft l leaf = l
  graft l (node rl k v rr) = node (graft l rl) k v rr

  unfoldable pub remove_key : ℕ → Tree D → Tree D
  unfolding graft
  remove_key j leaf = leaf
  remove_key j (node l k v r) =
      let left = remove_key j l in
      let right = remove_key j r in
      if ltb j k then node left k v r else if ltb k j then node l k v right else graft l r

  module _ (P : ℕ → Type 0) where
    insert_key-AllKeys :
        (j : ℕ) (w : RouteItem D) (t : Tree D) → P j → AllKeys P t → AllKeys P (insert_key j w t)
    unfolding insert_key
    insert_key-AllKeys j w leaf p a = (tt, p, tt)
    insert_key-AllKeys j w (node l k v r) p a =
        ground (arith, insert_key-AllKeys j w l p a.0, insert_key-AllKeys j w r p a.2)

    graft-AllKeys : (l r : Tree D) → AllKeys P l → AllKeys P r → AllKeys P (graft l r)
    unfolding graft
    graft-AllKeys l leaf a b = a
    graft-AllKeys l (node rl k v rr) a b = (graft-AllKeys l rl a b.0, b.1, b.2)

    remove_key-AllKeys : (j : ℕ) (t : Tree D) → AllKeys P t → AllKeys P (remove_key j t)
    unfolding remove_key
    remove_key-AllKeys j leaf a = tt
    remove_key-AllKeys j (node l k v r) a =
        ground
          (arith, remove_key-AllKeys j l a.0, remove_key-AllKeys j r a.2, graft-AllKeys l r a.0 a.2)

  AllKeys-imp :
      {P Q : ℕ → Type 0} → ((k : ℕ) → P k → Q k) → (t : Tree D) → AllKeys P t → AllKeys Q t
  AllKeys-imp f leaf a = tt
  AllKeys-imp f (node l k v r) a = (AllKeys-imp f l a.0, f k a.1, AllKeys-imp f r a.2)

  pub insert_key-IsOrdered :
      (j : ℕ) (w : RouteItem D) (t : Tree D) → IsOrdered t → IsOrdered (insert_key j w t)
  unfolding insert_key
  insert_key-IsOrdered j w leaf o = (tt, tt, tt, tt)
  insert_key-IsOrdered j w (node l k v r) o = ground (
    arith,
    insert_key-IsOrdered j w l o.2,
    insert_key-IsOrdered j w r o.3,
    insert_key-AllKeys (λ i. i < k) j w l,
    insert_key-AllKeys (λ i. k < i) j w r,
  )

  -- `m` separates the trees that are joined.
  graft-IsOrdered :
      (m : ℕ) (l r : Tree D)
      → AllKeys (λ i. i < m) l
      → AllKeys (λ i. m < i) r
      → IsOrdered l
      → IsOrdered r
      → IsOrdered (graft l r)
  unfolding graft
  graft-IsOrdered m l leaf a b ol or = ol
  graft-IsOrdered m l (node rl k v rr) a b ol or =
      let low = AllKeys-imp {Q = λ i. i < k} (λ i h. omega (arith, b.1)) l a in
      (graft-AllKeys (λ i. i < k) l rl low or.0, or.1, graft-IsOrdered m l rl a b.0 ol or.2, or.3)

  pub remove_key-IsOrdered : (j : ℕ) (t : Tree D) → IsOrdered t → IsOrdered (remove_key j t)
  unfolding remove_key
  remove_key-IsOrdered j leaf o = tt
  remove_key-IsOrdered j (node l k v r) o = ground (
    arith,
    remove_key-IsOrdered j l o.2,
    remove_key-IsOrdered j r o.3,
    remove_key-AllKeys (λ i. i < k) j l o.0,
    remove_key-AllKeys (λ i. k < i) j r o.1,
    graft-IsOrdered k l r o.0 o.1 o.2 o.3,
  )

  pub find-insert_key :
      (k j : ℕ) (v : RouteItem D) (t : Tree D)
      → find j (insert_key k v t) ≡ (if k == j then some v else find j t)
  unfolding find insert_key
  find-insert_key k j v leaf = ground arith
  find-insert_key k j v (node l i w r) =
      ground (arith, find-insert_key k j v l, find-insert_key k j v r)

  find_beyond : (j : ℕ) (t : Tree D) → AllKeys (λ i. i < j) t → find j t ≡ none
  unfolding find
  find_beyond j leaf a = refl
  find_beyond j (node l k v r) a = ground (arith, find_beyond j r a.2)

  find_before : (j : ℕ) (t : Tree D) → AllKeys (λ i. j < i) t → find j t ≡ none
  unfolding find
  find_before j leaf a = refl
  find_before j (node l k v r) a = ground (arith, find_before j l a.0)

  module _ (m : ℕ) (l : Tree D) (low : AllKeys (λ i. i < m) l) where
    find-graft_low :
        (j : ℕ) (r : Tree D) → AllKeys (λ i. m < i) r → j < m → find j (graft l r) ≡ find j l
    unfolding find graft
    find-graft_low j leaf b h = refl
    find-graft_low j (node rl k v rr) b h = ground (arith, find-graft_low j rl b.0 h)

    find-graft_high : (j : ℕ) (r : Tree D) → m < j → find j (graft l r) ≡ find j r
    unfolding find graft
    find-graft_high j leaf h =
        find_beyond j l (AllKeys-imp {Q = λ i. i < j} (λ i p. omega arith) l low)
    find-graft_high j (node rl k v rr) h = ground (arith, find-graft_high j rl h)

    find-graft_mid : (r : Tree D) → AllKeys (λ i. m < i) r → find m (graft l r) ≡ none
    unfolding find graft
    find-graft_mid leaf b = find_beyond m l low
    find-graft_mid (node rl k v rr) b = ground (arith, find-graft_mid rl b.0)

  pub find-remove_key :
      (k j : ℕ) (t : Tree D)
      → IsOrdered t
      → find j (remove_key k t) ≡ (if k == j then none else find j t)
  unfolding find remove_key
  find-remove_key k j leaf o = ground arith
  find-remove_key k j (node l i w r) o = ground (
    arith,
    find-remove_key k j l o.2,
    find-remove_key k j r o.3,
    find_beyond k l,
    find-graft_low i l o.0 j r o.1,
    find-graft_high i l o.0 j r,
    find-graft_mid i l o.0 r o.1,
    find_before_self,
    find_after_self,
  )
    where
      find_before_self : k ≡ i → find k l ≡ none
      find_before_self e = find_beyond k l (AllKeys-imp {Q = λ x. x < k} (λ x p. omega arith) l o.0)

      find_after_self : k ≡ i → find k r ≡ none
      find_after_self e = find_before k r (AllKeys-imp {Q = λ x. k < x} (λ x p. omega arith) r o.1)

  abbrev pub plain_tree : AvlTree D
  plain_tree = record {
    put = insert_key;
    get_key = find;
    remove = remove_key;
    put-IsOrdered = insert_key-IsOrdered;
    remove-IsOrdered = remove_key-IsOrdered;
    get_key-find = λ k t o. refl;
    find-put = λ k j v t o. find-insert_key k j v t;
    find-remove = find-remove_key;
  }
