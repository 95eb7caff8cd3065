-- ===== src/Upgrade/Daemon.antt =====
-- gateway/cmd/daemon.go: the daemon that starts the gateway as its worker, again and again, and that
-- means to put the old program back where a start fails. Each round of `run` is answered by the
-- system: whether the log file is created and the process started, and whether `Stop` ran meanwhile.
pub mod Laws
use uptp.Common.{
  ℕ, zero, suc, ◌+◌, Bool, true, false, Option, none, some, String, List, [], ◌∷◌, if◌then◌else◌,
}
use uptp.Upgrade.Install.{File, Disk}
use uptp.Upgrade.Install.Laws.{runs}

-- `daemon`: the worker's process, where it runs, and whether `Stop` was called
pub record Daemon : Type 0 where
  pub has_proc : Bool
  pub stopped : Bool

-- What one round is answered: by `os.Create`, by `os.StartProcess` on a program that the system can
-- start, where `none` is no error; and whether `Stop` runs while the worker does, or before the
-- next round.
pub record Round : Type 0 where
  pub create_log : Option String
  pub start_process : Option String
  pub stopped_meanwhile : Bool

-- `Stop`: whether it kills a worker. The daemon's own process ends only if it is interactive.
unfoldable pub stop : Daemon → Bool × Daemon
stop d = (d.has_proc, record d { stopped = true })

-- An error of the system, by what `os.IsExist` and its like ask of it.
pub data OsError : Type 0 where
  not_exist exist other : OsError

-- `os.IsExist`: whether an error says that a file exists already; a nil error does not.
abbrev pub is_exist : Option OsError → Bool
is_exist none = false
is_exist (some exist) = true
is_exist (some _) = false

-- `os.Stat`: nil, or the error of a missing file
abbrev pub stat : Option File → Option OsError
stat (some f) = none
stat none = some not_exist

-- `checkAndRevert`, where `executable` and `rename` are the answers of the system
unfoldable pub check_and_revert : Option String → Option String → Disk → Disk
check_and_revert executable rename disk = elim executable [
  | some e ↦ disk
  | none ↦
      if is_exist (stat disk.bak)
      then elim rename [ some e ↦ disk | none ↦ record disk { bin = disk.bak; bak = none } ]
      else disk
]

-- `startWorker`, but for the files of its log: the error of the start, or none once the worker ended.
unfoldable pub start_worker : Round → Disk → Daemon → Option String × Daemon
unfolding stop
start_worker r disk d = elim r.create_log [
  | some e ↦ (some e, d)
  | none ↦
      if runs disk.bin
      then elim r.start_process [
        | some e ↦ (some e, d)
        | none ↦
            let running = record d { has_proc = true } in
            let waited = if r.stopped_meanwhile then (stop running).1 else running in
            (none, record waited { has_proc = false })
      ]
      else (some "exec format error", d)
]

-- How `run` ends: stopped, or after a start that failed; or the rounds that were answered are over.
pub data Outcome : Type 0 where
  was_stopped gave_up still_running : Outcome

-- `run`, and the number of workers that it started
unfoldable pub run :
    Option String → Option String → List Round → Disk → Daemon → Outcome × (ℕ × Disk)
unfolding start_worker check_and_revert
run executable rename [] disk d =
    if d.stopped then (was_stopped, (0, disk)) else (still_running, (0, disk))
run executable rename (r ∷ rs) disk d =
    let (e, d') = start_worker r disk d in
    let (o, (n, disk')) = run executable rename rs disk d' in
    if d.stopped then (was_stopped, (0, disk)) else elim e [
      | some x ↦ (gave_up, (0, check_and_revert executable rename disk))
      | none ↦ (o, (suc n, disk'))
    ]
