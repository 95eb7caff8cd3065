-- ===== src/Gateway/Router/Walk.antt =====
-- The two walks of the router decide by the ranges of the table.
use uptp.Common.{ℕ, ◌≤◌, ◌<◌, ◌≡◌, arith, true, false, some}
use uptp.Common.{le→leb, lt→leb, lt→ltb, le→ltb, ◌∙◌, sym, ◌⊎◌, inl, inr}
use uptp.Gateway.Router.{RouteItem, Tree, leaf, node, IsOrdered, find, clashes, get}
use uptp.Gateway.Router.Find.{IsValid, trichotomy, find-AllKeys, find-root, find_left, find_right}

range_cases : (lo a hi : ℕ) → ((lo ≤ a) × (a ≤ hi)) ⊎ ((a < lo) ⊎ ((lo ≤ a) × (hi < a)))
range_cases lo a hi = omega arith

meet_cases : (k max lo hi : ℕ) → ((lo ≤ max) × (k ≤ hi)) ⊎ ((max < lo) ⊎ ((hi < k) × (lo ≤ max)))
meet_cases k max lo hi = omega arith

module _ {ℓ} {D : Type ℓ} where
  IsValid-left : {l r : Tree D} {k : ℕ} {w : RouteItem D} → IsValid (node l k w r) → IsValid l
  IsValid-left {l} {r} {k} {w} h = record {
    ordered = h.ordered.2;
    proper = λ j v e. h.proper j v (into j v e);
    apart = λ i j u v e f lt. h.apart i j u v (into i u e) (into j v f) lt;
  }
    where
      into : (j : ℕ) (v : RouteItem D) → find j l ≡ some v → find j (node l k w r) ≡ some v
      into j v e = rw (find_left l k w r j (find-AllKeys (λ i. i < k) j l v h.ordered.0 e)) e

  IsValid-right : {l r : Tree D} {k : ℕ} {w : RouteItem D} → IsValid (node l k w r) → IsValid r
  IsValid-right {l} {r} {k} {w} h = record {
    ordered = h.ordered.3;
    proper = λ j v e. h.proper j v (into j v e);
    apart = λ i j u v e f lt. h.apart i j u v (into i u e) (into j v f) lt;
  }
    where
      into : (j : ℕ) (v : RouteItem D) → find j r ≡ some v → find j (node l k w r) ≡ some v
      into j v e = rw (find_right l k w r j (find-AllKeys (λ i. k < i) j r v h.ordered.1 e)) e

  module _ (l : Tree D) (k : ℕ) (w : RouteItem D) (r : Tree D) (a : ℕ) where
    get_hit : k ≤ a → a ≤ w.max → get (node l k w r) a ≡ some w.dialer
    unfolding get
    get_hit lo hi = rw (le→leb k a lo, le→leb a w.max hi)

    get_left : a < k → get (node l k w r) a ≡ get l a
    unfolding get
    get_left h = rw (lt→leb a k h, lt→ltb a k h)

    get_right : k ≤ a → w.max < a → get (node l k w r) a ≡ get r a
    unfolding get
    get_right lo hi = rw (le→leb k a lo, lt→leb w.max a hi, le→ltb k a lo)

  -- What `get` returns is the dialer of an item whose range holds the address.
  pub get_sound :
      (t : Tree D) (a : ℕ) (d : D)
      → IsOrdered t
      → get t a ≡ some d
      → (k : ℕ) × (v : RouteItem D) × (find k t ≡ some v) × (k ≤ a) × (a ≤ v.max) × (v.dialer ≡ d)
  unfolding get
  get_sound leaf a d o e = cc
  get_sound (node l k w r) a d o e = elim (range_cases k a w.max) [
    | inl (lo, hi) ↦ (k, w, find-root l k w r, lo, hi, cc (e, get_hit l k w r a lo hi))
    | inr (inl lt) ↦
        let (j, v, f, lo, hi, ed) = get_sound l a d o.2 (sym (get_left l k w r a lt) ∙ e) in
        (j, v, rw (find_left l k w r j (find-AllKeys (λ i. i < k) j l v o.0 f)) f, lo, hi, ed)
    | inr (inr gt) ↦
        let (j, v, f, lo, hi, ed) = get_sound r a d o.3 (sym (get_right l k w r a gt.0 gt.1) ∙ e) in
        (j, v, rw (find_right l k w r j (find-AllKeys (λ i. k < i) j r v o.1 f)) f, lo, hi, ed)
  ]

  -- In a valid table `get` finds every item whose range holds the address.
  pub get_complete :
      (t : Tree D) (a k : ℕ) (v : RouteItem D)
      → IsValid t
      → find k t ≡ some v
      → k ≤ a
      → a ≤ v.max
      → get t a ≡ some v.dialer
  unfolding get
  get_complete leaf a k v h f lo hi = unfold find in cc
  get_complete (node l j w r) a k v h f lo hi = elim (trichotomy k j) [
    | inl lt ↦ ground (
      arith,
      get_complete l a k v (IsValid-left h) (rw (find_left l j w r k lt) at f) lo hi,
      h.apart k j v w f (find-root l j w r) lt,
    )
    | inr (inl eq) ↦
        let f' : find j (node l j w r) ≡ some v = rw eq at f in
        let same : w ≡ v = cc (f', find-root l j w r) in
        rw (← same) (get_hit l j w r a (rw eq at lo) (rw (← same) at hi))
    | inr (inr gt) ↦ ground (
      arith,
      get_complete r a k v (IsValid-right h) (rw (find_right l j w r k gt) at f) lo hi,
      h.apart j k w v (find-root l j w r) f gt,
    )
  ]

  -- Where the walk of `add` is stopped, an item's range meets the new one.
  pub clashes_sound :
      (t : Tree D) (lo hi : ℕ)
      → IsOrdered t
      → clashes t lo hi ≡ true
      → (k : ℕ) × (v : RouteItem D) × (find k t ≡ some v) × (lo ≤ v.max) × (k ≤ hi)
  unfolding clashes
  clashes_sound leaf lo hi o e = cc
  clashes_sound (node l k w r) lo hi o e = elim (meet_cases k w.max lo hi) [
    | inl (below, above) ↦ (k, w, find-root l k w r, below, above)
    | inr (inl right) ↦
        let (j, v, f, b, c) = clashes_sound r lo hi o.3 (ground arith) in
        (j, v, rw (find_right l k w r j (find-AllKeys (λ i. k < i) j r v o.1 f)) f, b, c)
    | inr (inr (left, stays)) ↦
        let (j, v, f, b, c) = clashes_sound l lo hi o.2 (ground arith) in
        (j, v, rw (find_left l k w r j (find-AllKeys (λ i. i < k) j l v o.0 f)) f, b, c)
  ]

  -- Where the walk ends at nil, no item's range meets the new one.
  pub clashes_complete :
      (t : Tree D) (lo hi k : ℕ) (v : RouteItem D)
      → IsValid t
      → clashes t lo hi ≡ false
      → find k t ≡ some v
      → (v.max < lo) ⊎ (hi < k)
  unfolding clashes
  clashes_complete leaf lo hi k v h e f = unfold find in cc
  clashes_complete (node l j w r) lo hi k v h e f = elim (trichotomy k j) [
    | inl lt ↦ ground (
      arith,
      clashes_complete l lo hi k v (IsValid-left h),
      find_left l j w r k lt,
      h.apart k j v w f (find-root l j w r) lt,
      h.proper j w (find-root l j w r),
    )
    | inr (inl eq) ↦ let e' : some w ≡ some v = rw (eq, find-root l j w r) at f in ground arith
    | inr (inr gt) ↦ ground (
      arith,
      clashes_complete r lo hi k v (IsValid-right h),
      find_right l j w r k gt,
      h.apart j k w v (find-root l j w r) f gt,
    )
  ]
