-- ===== src/Gateway/Router/Routes.antt =====
-- The router's operations on valid tables, as a client sees them: which address goes to which
-- dialer.
use uptp.Common.{ℕ, ◌≤◌, ◌<◌, ◌≡◌, ◌≢◌, refl, arith, Bool, true, false, none, some}
use uptp.Common.{◌⊎◌, inl, inr, ap, sym, ◌∙◌, leb, ◌&&◌, if◌then◌else◌}
use uptp.Common.{le→leb, lt→leb, nat_beq_self, nat_beq_ne, Option-cases, ◌↔◌}
use native.Mathlib.Decide.{ℕ_discrete}
use uptp.Gateway.Cidr.{IpNet, get_cidr_int_range}
use uptp.Gateway.Router.{RouteItem, Tree, AvlTree, find, get, add_route, del_route}
use uptp.Gateway.Router.Find.{IsValid, trichotomy}
use uptp.Gateway.Router.Walk.{get_sound, get_complete}
use uptp.Gateway.Router.Update.{
  HasRoom, add_range_cases, put-IsValid, get-put, get_ext, outside, inside_cases,
}

-- `lo <= a && a <= hi`
abbrev pub within : ℕ → ℕ → ℕ → Bool
within lo hi a = leb lo a && leb a hi

module _ {ℓ} {A : Type ℓ} where
  if_within :
      (lo hi a : ℕ) (x y z : A)
      → ((lo ≤ a) × (a ≤ hi) × (z ≡ x)) ⊎ (((a < lo) ⊎ (hi < a)) × (z ≡ y))
      → z ≡ (if within lo hi a then x else y)
  if_within lo hi a x y z (inl (b, c, e)) = rw (le→leb lo a b, le→leb a hi c) e
  if_within lo hi a x y z (inr (inl b, e)) = rw (lt→leb a lo b) e
  if_within lo hi a x y z (inr (inr c, e)) = rw (lt→leb hi a c) (and_false (leb lo a) x y z e)
    where
      and_false : (b : Bool) (x y z : A) → z ≡ y → z ≡ (if b && false then x else y)
      and_false true x y z e = e
      and_false false x y z e = e

module _ {ℓ} {D : Type ℓ} where
  -- In a valid table `get` returns a dialer exactly if some item with that dialer has a range that
  -- holds the address.
  pub get_iff :
      (t : Tree D) (a : ℕ) (d : D)
      → IsValid t
      → (get t a ≡ some d) ↔ (
          (k : ℕ) × (v : RouteItem D) × (find k t ≡ some v)
          × (k ≤ a)
          × (a ≤ v.max)
          × (v.dialer ≡ d))
  get_iff t a d h = (
    get_sound t a d h.ordered,
    λ s. let (k, v, f, lo, hi, e) = s in get_complete t a k v h f lo hi ∙ ap some e,
  )

module _ {ℓ} {D : Type ℓ} where
  -- The addresses that leave the table with the item that stands under `lo`.
  abbrev pub removed : ℕ → ℕ → Tree D → Bool
  removed lo a t = elim (find lo t) [ none ↦ false | some v ↦ within lo v.max a ]

module _ {ℓ} {D : Type ℓ} (avl : AvlTree D) (net : IpNet) (t : Tree D) (h : IsValid t) where
  abbrev lo : ℕ
  lo = (get_cidr_int_range net).0

  abbrev hi : ℕ
  hi = (get_cidr_int_range net).1

  module _ (d : D) where
    -- `addRoute` keeps the table valid, whatever the network.
    pub add_route-IsValid : IsValid (add_route avl net d t).0
    unfolding add_route
    add_route-IsValid = elim (add_range_cases avl t lo hi d h) [
      | inl (fits, room, e) ↦ rw e (put-IsValid avl t lo hi d h fits room)
      | inr (_, e) ↦ rw e h
    ]

    -- On a valid table, where `addRoute` returns true, exactly the addresses of the network's
    -- range go to the new dialer, and every other address goes where it went before.
    pub get-add_route :
        (a : ℕ)
        → (add_route avl net d t).1 ≡ true
        → get (add_route avl net d t).0 a ≡ (
            if within (get_cidr_int_range net).0 (get_cidr_int_range net).1 a
            then some d
            else get t a)
    unfolding add_route
    get-add_route a = elim (add_range_cases avl t lo hi d h) [
      | inl (fits, room, e) ↦
          rw e (λ _. if_within lo hi a _ _ _ (get-put avl t lo hi d h fits room a))
      | inr (_, e) ↦ rw e (λ x. absurd (cc x))
    ]

    -- On a valid table `addRoute` returns true exactly if the range is not empty, items under
    -- other keys lie beside it, and an item under its own start has the same end; where it returns
    -- false the table stays as it was.
    pub add_route_iff :
        (((add_route avl net d t).1 ≡ true) ↔ (
          ((get_cidr_int_range net).0 ≤ (get_cidr_int_range net).1)
          × HasRoom t (get_cidr_int_range net).0 (get_cidr_int_range net).1))
        × ((add_route avl net d t).1 ≡ false → (add_route avl net d t).0 ≡ t)
    unfolding add_route
    add_route_iff = elim (add_range_cases avl t lo hi d h) [
      | inl (fits, room, e) ↦ rw e ((λ _. (fits, room), λ _. refl), λ x. absurd (cc x))
      | inr (no_room, e) ↦ rw e ((λ x. absurd (cc x), λ x. absurd (no_room x.0 x.1)), λ _. refl)
    ]

  find-del_self : find lo (del_route avl net t) ≡ none
  unfolding del_route
  find-del_self = avl.find-remove lo lo t h.ordered ∙ rw nat_beq_self

  find-del_ne : (k : ℕ) → k ≢ lo → find k (del_route avl net t) ≡ find k t
  unfolding del_route
  find-del_ne k n = avl.find-remove lo k t h.ordered ∙ rw (nat_beq_ne lo k (λ e. n (sym e)))

  kept : (k : ℕ) (v : RouteItem D) → find k (del_route avl net t) ≡ some v → find k t ≡ some v
  kept k v f = elim (ℕ_discrete k lo) [
    | yes e ↦ let f' : find lo (del_route avl net t) ≡ some v = rw e at f in cc (f', find-del_self)
    | no n ↦ sym (find-del_ne k n) ∙ f
  ]

  -- `delRoute` keeps the table valid.
  pub del_route-IsValid : IsValid (del_route avl net t)
  del_route-IsValid = record {
    ordered = unfold del_route in avl.remove-IsOrdered lo t h.ordered;
    proper = λ k v f. h.proper k v (kept k v f);
    apart = λ j k u v f g lt. h.apart j k u v (kept j u f) (kept k v g) lt;
  }

  -- An item under the network's start that still holds the address would have been kept.
  module _ (a : ℕ) where
    get-del_inside :
        (v : RouteItem D)
        → find lo t ≡ some v
        → lo ≤ a
        → a ≤ v.max
        → get (del_route avl net t) a ≡ none
    get-del_inside v f b c = elim (Option-cases (get (del_route avl net t) a)) [
      | inl e ↦ e
      | inr (d, e) ↦
          let (k, w, g, b', c', _) = get_sound _ a d del_route-IsValid.ordered e in
          let g' : find k t ≡ some w = kept k w g in
          elim (trichotomy k lo) [
            | inl lt ↦ absurd (omega (arith, h.apart k lo w v g' f lt))
            | inr (inl e') ↦
                let f' : find lo (del_route avl net t) ≡ some w = rw e' at g in
                cc (f', find-del_self)
            | inr (inr gt) ↦ absurd (omega (arith, h.apart lo k v w f g' gt))
          ]
    ]

    get-del_outside :
        ((v : RouteItem D) → find lo t ≡ some v → (a < lo) ⊎ (v.max < a))
        → get (del_route avl net t) a ≡ get t a
    get-del_outside out =
        get_ext _ t a del_route-IsValid h (λ k v _ _. kept k v)
          λ k v b c f. elim (ℕ_discrete k lo) [
            | yes e ↦
                let f' : find lo t ≡ some v = rw e at f in
                absurd (outside lo a v.max (rw e at b) c (out v f'))
            | no n ↦ find-del_ne k n ∙ f
          ]

    -- On a valid table, after `delRoute` the addresses of the item that stood under the network's
    -- start go nowhere, and every other address goes where it went before.
    pub get-del_route :
        get (del_route avl net t) a
        ≡ (if removed (get_cidr_int_range net).0 a t then none else get t a)
    get-del_route = elim (Option-cases (find lo t)) [
      | inl f ↦ rw (f, removed) (get-del_outside (λ v f'. absurd (cc (f, f'))))
      | inr (v, f) ↦
          rw (f, removed)
            (if_within lo v.max a _ _ _ (elim (inside_cases lo a v.max) [
              | inl (b, c) ↦ inl (b, c, get-del_inside v f b c)
              | inr out ↦
                  inr (out, get-del_outside (λ w g. let e : v ≡ w = cc (f, g) in rw (← e) out))
            ]))
    ]
