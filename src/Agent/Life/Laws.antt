-- ===== src/Agent/Life/Laws.antt =====
-- Proofs for Agent/Life: an agent that was closed, or whose start failed, does not start again.
use uptp.Common.{
  ◌≡◌, refl, arith, Bool, true, false, none, some, inl, inr, gives, Answer-cases, Bool-cases, panic,
}
use uptp.Common.Int.{pos}
use uptp.P2p.Engine.{new_p2p_engine}
use uptp.Gateway.Identity.{Seeding-cases, load_seed}
use uptp.Gateway.Run.{open_database}
use uptp.Gateway.PortmapApp.{PortmapApp}
use uptp.Agent.Life.{
  Agent, Disk, Answers, locked, open_unlocked, Packages, start_portmap, start_managers, start,
  del_app, close,
}

module _ {D B : Type 0} (pk : Packages D B) where
  -- A start that ran once, then `close`: the port map, the engine and the database are gone, but every
  -- later start reports success and changes nothing, and every call that deletes an app panics.
  pub start-close :
      (a b : Answers D) (v w : Bool) (ag : Agent D) (disk later : Disk D) (app : PortmapApp)
      → (start pk a v ag disk).1.running ≡ true
      → let closed = close (start pk a v ag disk).1 in
        (start pk b w closed later ≡ (none, closed, later))
        × (closed.p2p ≡ none)
        × (closed.held ≡ false)
        × ((del_app pk app closed).0 ≡ panic)
  unfolding close del_app
  start-close a b v w ag disk later app r =
      (unfold start in ground (arith, r), refl, refl, ground (arith, r))

  start_portmap-held :
      (a : Answers D) (db : D) (ag : Agent D) → (start_portmap pk a db ag).0.held ≡ ag.held
  unfolding start_portmap
  start_portmap-held a db ag = ground arith

  start_managers-held :
      (a : Answers D) (v : Bool) (ag : Agent D) (disk : Disk D)
      → (start_managers pk a v ag disk).1.held ≡ ag.held
  unfolding start_managers
  start_managers-held a v ag disk = elim (Bool-cases v) [
    | inl b ↦ ground (arith, b, start_portmap-held a disk.db ag)
    | inr b ↦ ground (arith, b)
  ]

  -- A start that has opened the database keeps it open, whether or not it fails later.
  start-held :
      (a : Answers D) (v : Bool) (ag : Agent D) (disk : Disk D) (db : D)
      → ag.running ≡ false
      → ag.held ≡ false
      → open_database a.opening disk.db ≡ gives db
      → (start pk a v ag disk).1.held ≡ true
  unfolding start open_unlocked
  start-held a v ag disk db r h o =
      let (seeding, uuid) = load_seed a.identity disk.uuid in
      let left : Disk D = record { db = db; uuid = uuid } in
      elim (Seeding-cases seeding) [
        | inr (e, s) ↦ ground (arith, r, h, o, s)
        | inl (seed, s) ↦ elim (Answer-cases (new_p2p_engine a.lib (pos 0) seed true true).0) [
          | inr (e, q) ↦ ground (arith, r, h, o, s, q)
          | inl (pe, q) ↦ ground (
            arith,
            r,
            h,
            o,
            s,
            q,
            start_managers-held a v (record ag { held = true; p2p = some pe }) left,
          )
        ]
      ]

  start_locked :
      (b : Answers D) (w : Bool) (ag : Agent D) (later : Disk D)
      → ag.running ≡ false
      → ag.held ≡ true
      → start pk b w ag later ≡ (some locked, ag, later)
  unfolding start open_unlocked
  start_locked b w ag later r h = ground (arith, r, h)

  -- A start that opens the database and fails later, of an agent that has none open, leaves the
  -- database open: every later start fails with the lock of its files and changes nothing, until the
  -- agent is closed.
  pub start_failed :
      (a b : Answers D) (v w : Bool) (ag : Agent D) (disk later : Disk D) (db : D)
      → ag.running ≡ false
      → ag.held ≡ false
      → open_database a.opening disk.db ≡ gives db
      → (start pk a v ag disk).1.running ≡ false
      → start pk b w (start pk a v ag disk).1 later ≡ (some locked, (start pk a v ag disk).1, later)
  start_failed a b v w ag disk later db r h o f =
      start_locked b w (start pk a v ag disk).1 later f (start-held a v ag disk db r h o)
