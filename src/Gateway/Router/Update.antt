-- ===== src/Gateway/Router/Update.antt =====
-- What the router's operations do to the addresses that are routed.
use uptp.Common.{ℕ, ◌≤◌, ◌<◌, ◌≡◌, ◌≢◌, arith, true, false, none, some}
use uptp.Common.{◌⊎◌, inl, inr, ap, sym, ◌∙◌, nat_eq}
use native.Mathlib.Decide.{ℕ_discrete, dec_le}
use uptp.Common.{nat_beq_self, nat_beq_ne, le→ltb, lt→ltb, Bool-cases, Option-cases}
use uptp.Gateway.Router.{RouteItem, Tree, AvlTree, find, clashes, get, add, add_range}
use uptp.Gateway.Router.Find.{IsValid}
use uptp.Gateway.Router.Walk.{get_sound, get_complete, clashes_sound, clashes_complete}

pub inside_cases : (lo a hi : ℕ) → ((lo ≤ a) × (a ≤ hi)) ⊎ ((a < lo) ⊎ (hi < a))
inside_cases lo a hi = omega arith

pub outside : (lo a hi : ℕ) → lo ≤ a → a ≤ hi → (a < lo) ⊎ (hi < a) → ⊥
outside lo a hi b c h = omega arith

ne_cases : (i j : ℕ) → i ≢ j → (i < j) ⊎ (j < i)
ne_cases i j m = omega arith

module _ {ℓ} {D : Type ℓ} where
  -- Two valid tables that agree on the items around an address route it alike.
  pub get_ext :
      (s t : Tree D) (a : ℕ)
      → IsValid s
      → IsValid t
      → ((k : ℕ) (v : RouteItem D) → k ≤ a → a ≤ v.max → find k s ≡ some v → find k t ≡ some v)
      → ((k : ℕ) (v : RouteItem D) → k ≤ a → a ≤ v.max → find k t ≡ some v → find k s ≡ some v)
      → get s a ≡ get t a
  get_ext s t a hs ht to from = elim (Option-cases (get s a)) [
    | inr (d, e) ↦
        let (k, v, f, lo, hi, ed) = get_sound s a d hs.ordered e in
        e ∙ sym (get_complete t a k v ht (to k v lo hi f) lo hi ∙ ap some ed)
    | inl e ↦ elim (Option-cases (get t a)) [
      | inl e' ↦ e ∙ sym e'
      | inr (d, e') ↦
          let (k, v, f, lo, hi, ed) = get_sound t a d ht.ordered e' in
          cc (get_complete s a k v hs (from k v lo hi f) lo hi)
    ]
  ]

  -- The new item under `lo` with dialer `d`, up to `hi`.
  abbrev item : ℕ → D → RouteItem D
  item hi d = record { max = hi; dialer = d }

  -- The range is free for a new item: items under other keys lie beside it, and one under its own
  -- start has the same end.
  pub record HasRoom (t : Tree D) (lo hi : ℕ) : Type ℓ where
    pub beside : (k : ℕ) (v : RouteItem D) → find k t ≡ some v → k ≢ lo → (v.max < lo) ⊎ (hi < k)
    pub same : (v : RouteItem D) → find lo t ≡ some v → v.max ≡ hi

  clashes-HasRoom :
      (t : Tree D) (lo hi : ℕ)
      → IsValid t
      → find lo t ≡ none
      → clashes t lo hi ≡ false
      → HasRoom t lo hi
  clashes-HasRoom t lo hi h f e = record {
    beside = λ k v g n. clashes_complete t lo hi k v h e g;
    same = λ v g. cc (f, g);
  }

  find-HasRoom :
      (t : Tree D) (lo hi : ℕ) (v : RouteItem D)
      → IsValid t
      → find lo t ≡ some v
      → v.max ≡ hi
      → HasRoom t lo hi
  find-HasRoom t lo hi v h f e = record {
    beside = λ k u g n. elim (ne_cases k lo n) [
      | inl lt ↦ inl (h.apart k lo u v g f lt)
      | inr gt ↦ inr (rw e at (h.apart lo k v u f g gt))
    ];
    same = λ u g. let same : u ≡ v = cc (f, g) in rw same e;
  }

module _ {ℓ} {D : Type ℓ} (avl : AvlTree D) where
  open avl use {put, remove, find-put, find-remove, put-IsOrdered, remove-IsOrdered}

  module _ (t : Tree D) (lo hi : ℕ) (d : D) (h : IsValid t) where
    find-put_self : find lo (put lo (item hi d) t) ≡ some (item hi d)
    find-put_self = find-put lo lo (item hi d) t h.ordered ∙ rw nat_beq_self

    find-put_ne : (k : ℕ) → k ≢ lo → find k (put lo (item hi d) t) ≡ find k t
    find-put_ne k n = find-put lo k (item hi d) t h.ordered ∙ rw (nat_beq_ne lo k (λ e. n (sym e)))

    -- Every item of the new table is the new one or an old one.
    put_cases :
        (k : ℕ) (v : RouteItem D)
        → find k (put lo (item hi d) t) ≡ some v
        → ((k ≡ lo) × (v ≡ item hi d)) ⊎ ((k ≢ lo) × (find k t ≡ some v))
    put_cases k v f = elim (ℕ_discrete k lo) [
      | yes e ↦
          let f' : find lo (put lo (item hi d) t) ≡ some v = rw e at f in
          inl (e, cc (f', find-put_self))
      | no n ↦ inr (n, sym (find-put_ne k n) ∙ f)
    ]

    module _ (fits : lo ≤ hi) (room : HasRoom t lo hi) where
      -- A put into free room keeps the table valid.
      pub put-IsValid : IsValid (put lo (item hi d) t)
      put-IsValid = record {
        ordered = put-IsOrdered lo (item hi d) t h.ordered;
        proper = λ k v f. elim (put_cases k v f) [
          | inl (e, ev) ↦ rw (e, ev) fits
          | inr (n, f') ↦ h.proper k v f'
        ];
        apart = λ j k u v f g lt. elim (put_cases j u f) [
          | inl (ej, eu) ↦ elim (put_cases k v g) [
            | inl (ek, ev) ↦ absurd (omega arith)
            | inr (nk, g') ↦ elim (room.beside k v g' nk) [
              | inl b ↦ absurd (omega (arith, h.proper k v g'))
              | inr b ↦ rw eu b
            ]
          ]
          | inr (nj, f') ↦ elim (put_cases k v g) [
            | inl (ek, ev) ↦ elim (room.beside j u f' nj) [
              | inl b ↦ rw ek b
              | inr b ↦ absurd (omega arith)
            ]
            | inr (nk, g') ↦ h.apart j k u v f' g' lt
          ]
        ];
      }

      -- It routes the range to the new dialer, and every other address as before.
      pub get-put :
          (a : ℕ)
          → ((lo ≤ a) × (a ≤ hi) × (get (put lo (item hi d) t) a ≡ some d))
            ⊎ (((a < lo) ⊎ (hi < a)) × (get (put lo (item hi d) t) a ≡ get t a))
      get-put a = elim (inside_cases lo a hi) [
        | inl (b, c) ↦ inl (b, c, get_complete _ a lo (item hi d) put-IsValid find-put_self b c)
        | inr out ↦ inr (out, get_ext _ t a put-IsValid h (to out) (from out))
      ]
        where
          to :
              ((a < lo) ⊎ (hi < a))
              → (k : ℕ) (v : RouteItem D) → k ≤ a
              → a ≤ v.max
              → find k (put lo (item hi d) t) ≡ some v
              → find k t ≡ some v
          to out k v b c f = elim (put_cases k v f) [
            | inl (e, ev) ↦ absurd (outside lo a hi (rw e at b) (rw ev at c) out)
            | inr (n, f') ↦ f'
          ]

          from :
              ((a < lo) ⊎ (hi < a))
              → (k : ℕ) (v : RouteItem D) → k ≤ a
              → a ≤ v.max
              → find k t ≡ some v
              → find k (put lo (item hi d) t) ≡ some v
          from out k v b c f = elim (ℕ_discrete k lo) [
            | yes e ↦ absurd (outside lo a hi (rw e at b) (rw (room.same v (rw e at f)) at c) out)
            | no n ↦ find-put_ne k n ∙ f
          ]

  module _ (t : Tree D) (lo hi : ℕ) (d : D) (h : IsValid t) where
    replaced :
        (v : RouteItem D)
        → find lo t ≡ some v
        → v.max ≡ hi
        → add_range avl (lo, hi) d t ≡ (put lo (item hi d) t, true)
    unfolding add_range
    replaced v f e = rw (avl.get_key-find lo t h.ordered ∙ f, add_range) (rw (e, nat_beq_self hi))

    rejected :
        (v : RouteItem D)
        → find lo t ≡ some v
        → v.max ≢ hi
        → add_range avl (lo, hi) d t ≡ (t, false)
    unfolding add_range
    rejected v f n =
        rw (avl.get_key-find lo t h.ordered ∙ f, add_range) (rw (nat_beq_ne v.max hi n))

    added : find lo t ≡ none → add_range avl (lo, hi) d t ≡ add avl lo (item hi d) t
    unfolding add_range
    added f = rw (avl.get_key-find lo t h.ordered ∙ f, add_range)

    -- The two ends of `add_range`.
    abbrev pub Accepted : Type ℓ
    Accepted =
        (lo ≤ hi) × HasRoom t lo hi × (add_range avl (lo, hi) d t ≡ (put lo (item hi d) t, true))

    abbrev pub Refused : Type ℓ
    Refused = ((lo ≤ hi) → HasRoom t lo hi → ⊥) × (add_range avl (lo, hi) d t ≡ (t, false))

    meet-HasRoom : clashes t lo hi ≡ true → find lo t ≡ none → HasRoom t lo hi → ⊥
    meet-HasRoom meet f room =
        let (k, v, g, b, c) = clashes_sound t lo hi h.ordered meet in
        elim (ℕ_discrete k lo) [
          | yes e ↦ let g' : find lo t ≡ some v = rw e at g in cc (f, g')
          | no n ↦ elim (room.beside k v g n) [
            | inl x ↦ absurd (omega arith)
            | inr x ↦ absurd (omega arith)
          ]
        ]

    pub add_range_cases : Accepted ⊎ Refused
    unfolding add
    add_range_cases = elim (Option-cases (find lo t)) [
      | inr (v, f) ↦ elim (ℕ_discrete v.max hi) [
        | yes e ↦ inl (rw e at (h.proper lo v f), find-HasRoom t lo hi v h f e, replaced v f e)
        | no n ↦ inr (λ _ room. n (room.same v f), rejected v f n)
      ]
      | inl f ↦ elim (dec_le lo hi) [
        | yes b ↦ elim (Bool-cases (clashes t lo hi)) [
          | inl meet ↦ inr (λ _ room. meet-HasRoom meet f room, added f ∙ rw (le→ltb lo hi b, meet))
          | inr free ↦
              inl (b, clashes-HasRoom t lo hi h f free, added f ∙ rw (le→ltb lo hi b, free))
        ]
        | no n ↦ inr (λ b _. n b, added f ∙ rw (lt→ltb hi lo (omega arith)))
      ]
    ]
