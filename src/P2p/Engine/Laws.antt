-- ===== src/P2p/Engine/Laws.antt =====
-- Proofs for P2p/Engine: what the making of an engine leaves open.
use uptp.Common.{
  ◌≡◌, ◌↔◌, ◌≤◌, arith, ℕ, Bool, true, false, none, String, List, inl, inr, ltb, length, take,
  fails, Answer-cases, Option-cases, Bool-cases,
}
use uptp.Common.Int.{ℤ}
use uptp.P2p.Engine.{seed_size, Libp2p, new_host_and_dht, new_p2p_engine}

module _ (lib : Libp2p) where
  host_failed :
      (client : Bool) (port : ℤ) (key : List ℕ) (stored : Bool) (e : String)
      → (new_host_and_dht lib client port key stored).0 ≡ fails e
      → (new_host_and_dht lib client port key stored).1
        ≡ record { datastore = stored; host = false }
  unfolding new_host_and_dht
  host_failed client port key stored e h = elim (Option-cases (lib.new_key key)) [
    | inr (x, q) ↦ ground (arith, q, h)
    | inl q ↦ elim (Answer-cases (lib.new_host client port key)) [
      | inr (x, w) ↦ ground (arith, q, w, h)
      | inl (addrs, w) ↦ elim (Option-cases lib.new_dht) [
        | inr (x, d) ↦ ground (arith, q, w, d, h)
        | inl d ↦ absurd (ground (arith, q, w, d, h))
      ]
    ]
  ]

  -- Where no engine is made, the host that was made is closed, but the datastore stays open exactly if
  -- it was opened: its path is given, the seed has 32 bytes and the opening succeeded.
  pub new_p2p_engine_leaks_iff :
      (port : ℤ) (seed : List ℕ) (stored client : Bool) (e : String)
      → (new_p2p_engine lib port seed stored client).0 ≡ fails e
      → ((new_p2p_engine lib port seed stored client).1.host ≡ false)
        × (((new_p2p_engine lib port seed stored client).1.datastore ≡ true)
            ↔ ((stored ≡ true) × (seed_size ≤ length seed) × (lib.open_datastore ≡ none)))
  unfolding new_p2p_engine
  new_p2p_engine_leaks_iff port seed stored client e h =
      let rest = host_failed client port (take seed_size seed) stored e in
      elim (Bool-cases (ltb (length seed) seed_size)) [
        | inl b ↦ (
          ground (arith, b),
          (λ t. absurd (ground (arith, b, t)), λ c. absurd (ground (arith, b, c))),
        )
        | inr b ↦ elim (Bool-cases stored) [
          | inr s ↦
              let closed = rest (ground (arith, b, s, h)) in
              (
                ground (arith, b, s, closed),
                (λ t. absurd (ground (arith, b, s, closed, t)), λ c. absurd (ground (arith, s, c))),
              )
          | inl s ↦ elim (Option-cases lib.open_datastore) [
            | inr (x, o) ↦ (
              ground (arith, b, s, o),
              (λ t. absurd (ground (arith, b, s, o, t)), λ c. absurd (ground (arith, o, c))),
            )
            | inl o ↦
                let closed = rest (ground (arith, b, s, o, h)) in
                (
                  ground (arith, b, s, o, closed),
                  (λ t. (s, ground (arith, b), o), λ c. ground (arith, b, s, o, closed)),
                )
          ]
        ]
      ]
