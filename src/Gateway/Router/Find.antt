-- ===== src/Gateway/Router/Find.antt =====
-- The routing table as a function from keys to items, and what makes it well formed.
use uptp.Common.{ℕ, ◌≤◌, ◌<◌, ◌≡◌, ◌⊎◌, inl, inr, arith, some}
use uptp.Gateway.Router.{RouteItem, Tree, leaf, node, AllKeys, IsOrdered, find}

pub trichotomy : (j k : ℕ) → (j < k) ⊎ ((j ≡ k) ⊎ (k < j))
trichotomy j k = omega arith

module _ {ℓ} {D : Type ℓ} where
  -- Ranges are not empty and do not meet.
  pub record IsValid (t : Tree D) : Type ℓ where
    pub ordered : IsOrdered t
    pub proper : (k : ℕ) (v : RouteItem D) → find k t ≡ some v → k ≤ v.max
    pub apart :
        (j k : ℕ) (u v : RouteItem D) → find j t ≡ some u → find k t ≡ some v → j < k → u.max < k

  -- What is found in a subtree obeys what all its keys obey.
  pub find-AllKeys :
      (P : ℕ → Type 0) (j : ℕ) (t : Tree D) (v : RouteItem D)
      → AllKeys P t
      → find j t ≡ some v
      → P j
  unfolding find
  find-AllKeys P j leaf v a e = cc
  find-AllKeys P j (node l k w r) v a e = elim (trichotomy j k) [
    | inl lt ↦ find-AllKeys P j l v a.0 (ground arith)
    | inr (inl eq) ↦ rw eq a.1
    | inr (inr gt) ↦ find-AllKeys P j r v a.2 (ground arith)
  ]

  module _ (l : Tree D) (k : ℕ) (w : RouteItem D) (r : Tree D) where
    pub find-root : find k (node l k w r) ≡ some w
    unfolding find
    find-root = ground arith

    pub find_left : (j : ℕ) → j < k → find j (node l k w r) ≡ find j l
    unfolding find
    find_left j h = ground arith

    pub find_right : (j : ℕ) → k < j → find j (node l k w r) ≡ find j r
    unfolding find
    find_right j h = ground arith
