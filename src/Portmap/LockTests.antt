-- ===== src/Portmap/LockTests.antt =====
-- Calls on a port map at the same time, run.
use uptp.Common.{ℕ, ◌≡◌, ◌≤◌, ◌<◌, ◌⊎◌, refl, arith, List, [], ◌∷◌, ok}
use uptp.Common.Int.{pos}
use uptp.Portmap.Locks.{
  Thread, adds, deletes, removes, closes, advance, lock_read, lock_write, look, store, remove,
  empty, step, run, unlocked,
}
use uptp.Portmap.Locks.Laws.{adding, writing, total, run_excludes}
use uptp.Portmap.Locks.Progress.{steps_left, run_moves}

abbrev calls : List Thread
calls =
    adds "tcp" "127.0.0.1" (pos 80) (ok (pos 80)) ∷ deletes "tcp" "127.0.0.1" (pos 80) ∷ closes ∷ []

-- The deletion has the lock, and the two others wait for it.
abbrev schedule : List ℕ
schedule = 1 ∷ 0 ∷ 2 ∷ []

deletion_locks :
    (run schedule (calls, unlocked [])).0
    ≡ adds "tcp" "127.0.0.1" (pos 80) (ok (pos 80))
      ∷ removes "tcp" "127.0.0.1" (pos 80)
      ∷ closes
      ∷ []
unfolding run step advance lock_read lock_write look store remove empty
deletion_locks = refl

run_excludes_example :
    (total writing (run schedule (calls, unlocked [])).0 ≤ 1)
    × ((total writing (run schedule (calls, unlocked [])).0 ≡ 0)
        ⊎ (total adding (run schedule (calls, unlocked [])).0 ≡ 0))
run_excludes_example = run_excludes schedule calls [] (omega arith)

calls_left : 0 < total steps_left (run schedule (calls, unlocked [])).0
unfolding run step advance lock_read lock_write look store remove empty
calls_left = omega arith

run_moves_example :
    (i : ℕ) × (total steps_left (step i (run schedule (calls, unlocked []))).0
      < total steps_left (run schedule (calls, unlocked [])).0)
run_moves_example = run_moves schedule calls [] (omega arith) calls_left
