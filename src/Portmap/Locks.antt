-- ===== src/Portmap/Locks.antt =====
-- The calls of `AddListener`, `DeleteListener` and `Close` of portmap/portmap.go that run at the same time:
-- each is a thread that takes `connMtx`, looks at the table and writes to it in steps of its own, and a
-- schedule says which thread makes the next step. A thread that waits for the lock stays where it is.
pub mod Laws
pub mod Progress
use uptp.Common.{
  ℕ, zero, suc, ◌+◌, ◌-◌, Option, none, some, String, List, [], ◌∷◌, Result, ok, err, panic,
  if◌then◌else◌, ◌==◌, ◌&&◌, nat_eq, text_eq,
}
use uptp.Common.Int.{ℤ}
use uptp.Common.GoMap.{lookup, insert, delete}
use uptp.Portmap.Listeners.{Listeners, convert_index}

-- Where a call is: it waits for the lock, it holds it and reads the table, it holds it and is about to write
-- the table, or it has returned and given the lock back.
pub data Thread : Type 0 where
  adds : String → String → ℤ → Result ℤ → Thread
  looks : String → String → ℤ → Result ℤ → Thread
  stores : String → String → ℤ → Thread
  deletes : String → String → ℤ → Thread
  removes : String → String → ℤ → Thread
  closes : Thread
  empties : Thread
  finished : Thread

-- `sync.RWMutex` with the table that it stands for: how many hold the lock for reading, how many for
-- writing.
pub record Shared : Type 0 where
  pub readers : ℕ
  pub writers : ℕ
  pub listeners : Listeners

-- `RUnlock`, after the last step of `AddListener`
abbrev pub read_unlocked : Shared → Shared
read_unlocked s = record s { readers = s.readers - 1 }

-- `RLock`: the thread goes on, or it stays where it waits.
unfoldable pub lock_read : Thread → Thread → Shared → Thread × Shared
lock_read waiting locked s =
    if s.writers == 0 then (locked, record s { readers = s.readers + 1 }) else (waiting, s)

-- `Lock`
unfoldable pub lock_write : Thread → Thread → Shared → Thread × Shared
lock_write waiting locked s =
    if s.writers == 0 && s.readers == 0 then (locked, record s { writers = 1 }) else (waiting, s)

-- The read of the table in `AddListener`, with the answer of the call that listens; an error returns.
unfoldable pub look : String → String → ℤ → Result ℤ → Shared → Thread × Shared
look network ip port answer s = elim (lookup (convert_index network ip port) s.listeners) [
  | some real ↦ (stores network ip real, s)
  | none ↦ elim answer [
    | ok real ↦ (stores network ip real, s)
    | err e ↦ (finished, read_unlocked s)
    | panic ↦ (finished, read_unlocked s)
  ]
]

-- The write to the table in `AddListener`, and its return
unfoldable pub store : String → String → ℤ → Shared → Thread × Shared
store network ip real s =
    let listeners = insert (convert_index network ip real) real s.listeners in
    (finished, record (read_unlocked s) { listeners = listeners })

-- `DeleteListener` with the lock
unfoldable pub remove : String → String → ℤ → Shared → Thread × Shared
remove network ip port s = (
  finished,
  record s { writers = 0; listeners = delete (convert_index network ip port) s.listeners },
)

-- `Close` with the lock
unfoldable pub empty : Shared → Thread × Shared
empty s = (finished, record s { writers = 0; listeners = [] })

-- One step of a thread.
unfoldable pub advance : Thread → Shared → Thread × Shared
unfolding lock_read lock_write look store remove empty
advance (adds network ip port answer) s =
    lock_read (adds network ip port answer) (looks network ip port answer) s
advance (looks network ip port answer) s = look network ip port answer s
advance (stores network ip real) s = store network ip real s
advance (deletes network ip port) s =
    lock_write (deletes network ip port) (removes network ip port) s
advance (removes network ip port) s = remove network ip port s
advance closes s = lock_write closes empties s
advance empties s = empty s
advance finished s = (finished, s)

-- One step of the thread at an index.
unfoldable pub step : ℕ → List Thread × Shared → List Thread × Shared
step i ([], s) = ([], s)
step zero (t ∷ ts, s) = let (t', s') = advance t s in (t' ∷ ts, s')
step (suc i) (t ∷ ts, s) = let (ts', s') = step i (ts, s) in (t ∷ ts', s')

-- The steps of a schedule.
unfoldable pub run : List ℕ → List Thread × Shared → List Thread × Shared
run [] x = x
run (i ∷ schedule) x = run schedule (step i x)

-- Before any call has the lock
abbrev pub unlocked : Listeners → Shared
unlocked ls = record { readers = 0; writers = 0; listeners = ls }
