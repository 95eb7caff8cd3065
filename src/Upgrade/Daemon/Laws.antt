-- ===== src/Upgrade/Daemon/Laws.antt =====
-- That the daemon goes on until it is stopped, and what it does about a program that does not start.
use uptp.Common.{
  ℕ, suc, ◌≡◌, arith, Bool, true, false, Option, none, some, String, List, [], ◌∷◌, ◌++◌, length,
  if◌then◌else◌, Option-cases, inl, inr,
}
use uptp.Upgrade.Install.{Disk, Answers, upgrade_myself}
use uptp.Upgrade.Install.Laws.{runs, IsMoved, IsReplaced, upgrade_myself_breaks_iff}
use uptp.Upgrade.Daemon.{
  Daemon, Round, stop, check_and_revert, start_worker, Outcome, was_stopped, gave_up, run,
}

-- Every round starts a worker, and none is stopped.
abbrev pub all_start : List Round → Bool
all_start [] = true
all_start (r ∷ rs) = elim r.create_log [
  | some e ↦ false
  | none ↦ elim r.start_process [
    | some e ↦ false
    | none ↦ if r.stopped_meanwhile then false else all_start rs
  ]
]

first_starts :
    (r : Round) (rs : List Round)
    → all_start (r ∷ rs) ≡ true
    → (r.create_log ≡ none)
      × ((r.start_process ≡ none) × ((r.stopped_meanwhile ≡ false) × (all_start rs ≡ true)))
first_starts r rs h = ground (arith, h)

module _ (executable rename : Option String) where
  revert-idle : (disk : Disk) → check_and_revert executable rename disk ≡ disk
  unfolding check_and_revert
  revert-idle disk = ground arith

  -- Whatever happens to its workers, the daemon leaves the files as they are: a program that was moved
  -- away by an upgrade is never put back.
  pub run_keeps_files :
      (rs : List Round) (disk : Disk) (d : Daemon) → (run executable rename rs disk d).1.1 ≡ disk
  unfolding run
  run_keeps_files [] disk d = ground arith
  run_keeps_files (r ∷ rs) disk d =
      ground (arith, revert-idle disk, run_keeps_files rs disk (start_worker r disk d).1)

  module _ (disk : Disk) (started : runs disk.bin ≡ true) where
    one_start :
        (r : Round) (d : Daemon)
        → d.stopped ≡ false
        → r.create_log ≡ none
        → r.start_process ≡ none
        → start_worker r disk d ≡ (none, record { has_proc = false; stopped = r.stopped_meanwhile })
    unfolding start_worker stop
    one_start r d h c p = ground (arith, started, h, c, p)

    one_round :
        (r : Round) (rs : List Round) (d : Daemon)
        → d.stopped ≡ false
        → r.create_log ≡ none
        → r.start_process ≡ none
        → (o : Outcome) (n : ℕ)
        → run executable rename rs disk (record { has_proc = false; stopped = r.stopped_meanwhile })
          ≡ (o, (n, disk))
        → run executable rename (r ∷ rs) disk d ≡ (o, (suc n, disk))
    unfolding run
    one_round r rs d h c p o n e = ground (arith, one_start r d h c p, h, e)

    run_stopped :
        (rs : List Round) (d : Daemon)
        → d.stopped ≡ true
        → run executable rename rs disk d ≡ (was_stopped, (0, disk))
    unfolding run
    run_stopped [] d h = rw h
    run_stopped (r ∷ rs) d h = rw h

    -- Where the program can be started and every start succeeds, the daemon starts a worker again
    -- whenever one ended, and ends once it was stopped: after rounds without a stop and one with it,
    -- as many workers were started as there are such rounds.
    pub run_restarts :
        (before : List Round) (last : Round) (after : List Round) (d : Daemon)
        → d.stopped ≡ false
        → all_start before ≡ true
        → last.create_log ≡ none
        → last.start_process ≡ none
        → last.stopped_meanwhile ≡ true
        → run executable rename (before ++ (last ∷ after)) disk d
          ≡ (was_stopped, (suc (length before), disk))
    run_restarts [] last after d h a c p s =
        one_round last after d h c p was_stopped 0 (run_stopped after _ s)
    run_restarts (r ∷ rs) last after d h a c p s =
        let (c', (p', (s', a'))) = first_starts r rs a in
        one_round r (rs ++ (last ∷ after)) d h c' p' was_stopped (suc (length rs))
          (run_restarts rs last after _ s' a' c p s)

broken_start :
    (r : Round) (disk : Disk) (d : Daemon)
    → runs disk.bin ≡ false
    → (x : String) × (start_worker r disk d ≡ (some x, d))
unfolding start_worker
broken_start r disk d b = elim (Option-cases r.create_log) [
  | inr (e, c) ↦ (e, rw c)
  | inl c ↦ ("exec format error", rw (c, b))
]

broken_gives_up :
    (executable rename : Option String) (r : Round) (rs : List Round) (disk : Disk) (d : Daemon)
    → runs disk.bin ≡ false
    → d.stopped ≡ false
    → run executable rename (r ∷ rs) disk d ≡ (gave_up, (0, disk))
unfolding run
broken_gives_up executable rename r rs disk d b s =
    let (x, e) = broken_start r disk d b in ground (arith, e, s, revert-idle executable rename disk)

-- A daemon that is not stopped and that finds the disk as a broken upgrade left it starts no worker
-- and ends, and the files stay as they are, the broken program among them.
pub run-upgrade_myself :
    (executable rename : Option String) (current : List ℕ) (a : Answers) (disk : Disk) (r : Round)
    (rs : List Round) (d : Daemon)
    → runs disk.bin ≡ true
    → IsMoved current a
    → (IsReplaced current a → ⊥)
    → d.stopped ≡ false
    → let broken = (upgrade_myself current a disk).1 in
      (run executable rename (r ∷ rs) broken d ≡ (gave_up, (0, broken))) × (runs broken.bin ≡ false)
run-upgrade_myself executable rename current a disk r rs d h m n s =
    let b = (upgrade_myself_breaks_iff current a disk h).1 (m, n) in
    (broken_gives_up executable rename r rs (upgrade_myself current a disk).1 d b s, b)
