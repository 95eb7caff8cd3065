-- ===== src/Gateway/Run/Laws.antt =====
-- Proofs for Gateway/Run: what a run keeps for the next one.
use uptp.Common.{
  ℕ, ◌≡◌, ◌∙◌, ap, sym, arith, none, List, Bool, true, false, inl, inr, Option-cases, gives,
  Answer-cases, take, if◌then◌else◌, ◌==◌,
}
use uptp.Common.Int.{ℤ, int_eq}
use uptp.P2p.Engine.{seed_size, Libp2p, P2pEngine, new_p2p_engine, new_host_and_dht}
use uptp.Gateway.Identity.{seeded, Seeding-cases, load_seed, load_seed_again}
use uptp.Gateway.Settings.{get_listen_port, set_listen_port}
use uptp.Gateway.Sessions.{init_password}
use uptp.Gateway.Run.{
  Disk, Answers, Gateway, goes_on, Packages, run, start_engine, start_managers, start_services,
  open_database,
}

module _ {D B : Type 0} (pk : Packages D B) where
  new_engine-key :
      (lib : Libp2p) (port : ℤ) (seed : List ℕ) (stored client : Bool) (pe : P2pEngine)
      → (new_p2p_engine lib port seed stored client).0 ≡ gives pe
      → pe.key ≡ take seed_size seed
  unfolding new_p2p_engine new_host_and_dht
  new_engine-key lib port seed stored client pe h = ground (arith, h)

  pub start_managers-pe :
      (a : Answers D) (pe : P2pEngine) (db : D) (g : Gateway D)
      → (start_managers pk a pe db).0 ≡ goes_on g
      → g.pe ≡ pe
  unfolding start_managers start_services
  start_managers-pe a pe db g h = ground (arith, h)

  -- The steps of a start of the engine after which the gateway goes on.
  pub start_engine_split :
      (a : Answers D) (seed : List ℕ) (db : D) (g : Gateway D)
      → (start_engine pk a seed db).0 ≡ goes_on g
      → (port : ℤ) × (pe : P2pEngine) × (get_listen_port pk.ldb pk.text db ≡ (port, none))
        × ((new_p2p_engine a.lib port seed true false).0 ≡ gives pe)
        × (start_engine pk a seed db
            ≡ start_managers pk a pe (
                if port == pe.real_port
                then db
                else (set_listen_port pk.ldb pk.text pe.real_port db).1))
  unfolding start_engine
  start_engine_split a seed db g h =
      let port = (get_listen_port pk.ldb pk.text db).0 in
      elim (Option-cases (get_listen_port pk.ldb pk.text db).1) [
        | inr (e, q) ↦ absurd (ground (arith, q, h))
        | inl q ↦ elim (Answer-cases (new_p2p_engine a.lib port seed true false).0) [
          | inr (e, w) ↦ absurd (ground (arith, q, w, h))
          | inl (pe, w) ↦ (port, pe, ground (arith, q), w, ground (arith, q, w))
        ]
      ]

  -- The steps of a run that goes on.
  pub run_split :
      (a : Answers D) (disk : Disk D) (g : Gateway D)
      → (run pk a disk).0 ≡ goes_on g
      → (db : D) × (seed : List ℕ) × (open_database a.opening disk.db ≡ gives db)
        × ((init_password pk.ldb pk.bytes db).0 ≡ none)
        × ((load_seed a.identity disk.uuid).0 ≡ seeded seed)
        × ((start_engine pk a seed (init_password pk.ldb pk.bytes db).1).0 ≡ goes_on g)
        × ((run pk a disk).1.uuid ≡ (load_seed a.identity disk.uuid).1)
        × ((run pk a disk).1.db ≡ (start_engine pk a seed (init_password pk.ldb pk.bytes db).1).1)
  unfolding run
  run_split a disk g h = elim (Answer-cases a.executable) [
    | inr (e, x) ↦ absurd (ground (arith, x, h))
    | inl (path, x) ↦ elim (Answer-cases (open_database a.opening disk.db)) [
      | inr (e, o) ↦ absurd (ground (arith, x, o, h))
      | inl (db, o) ↦ elim (Option-cases (init_password pk.ldb pk.bytes db).0) [
        | inr (e, p) ↦ absurd (ground (arith, x, o, p, h))
        | inl p ↦ elim (Seeding-cases (load_seed a.identity disk.uuid).0) [
          | inr (e, s) ↦ absurd (ground (arith, x, o, p, s, h))
          | inl (seed, s) ↦ (
            db,
            seed,
            o,
            p,
            s,
            ground (arith, x, o, p, s, h),
            ground (arith, x, o, p, s),
            ground (arith, x, o, p, s),
          )
        ]
      ]
    ]
  ]

  run-key :
      (a : Answers D) (disk : Disk D) (g : Gateway D) (seed : List ℕ)
      → (run pk a disk).0 ≡ goes_on g
      → (load_seed a.identity disk.uuid).0 ≡ seeded seed
      → g.pe.key ≡ take seed_size seed
  run-key a disk g seed h s =
      let (db, seed', o, p, s', e, u, d) = run_split a disk g h in
      let same : seed' ≡ seed = cc (s, s') in
      let (port, pe, q, w, m) =
        start_engine_split a seed' (init_password pk.ldb pk.bytes db).1 g e in
      let engine = start_managers-pe a pe _ g (sym (ap (λ r. r.0) m) ∙ e) in
      ap (λ x. x.key) engine
      ∙ new_engine-key a.lib port seed' true false pe w
      ∙ ap (take seed_size) same

  -- A node keeps its key, and so its name in the network: where a run goes on and a later run on what
  -- it has left goes on too and can read the file uuid, both have the key of one seed, whatever the
  -- later run would draw for a new one.
  pub run_keeps_key :
      (a b : Answers D) (disk : Disk D) (g h : Gateway D)
      → (run pk a disk).0 ≡ goes_on g
      → (run pk b (run pk a disk).1).0 ≡ goes_on h
      → b.identity.read_fault ≡ none
      → h.pe.key ≡ g.pe.key
  run_keeps_key a b disk g h first second readable =
      let (db, seed, o, p, s, e, u, d) = run_split a disk g first in
      let again = load_seed_again a.identity b.identity disk.uuid seed s readable in
      let same : (load_seed b.identity (run pk a disk).1.uuid).0 ≡ seeded seed =
        ap (λ x. (load_seed b.identity x).0) u ∙ ap (λ r. r.0) again in
      run-key b (run pk a disk).1 h seed second same ∙ sym (run-key a disk g seed first s)
