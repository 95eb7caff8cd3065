-- ===== src/Portmap/Locks/Laws.antt =====
-- Proofs for Portmap/Locks: what the lock excludes, and what it does not.
use uptp.Common.{
  ℕ, zero, suc, ◌+◌, ◌≤◌, ◌≡◌, refl, arith, List, [], ◌∷◌, Result-cases, Option-cases, inl, inr,
  ◌⊎◌, nat_eq, text_eq,
}
use uptp.Common.GoMap.{lookup}
use uptp.Portmap.Listeners.{Listeners, convert_index}
use uptp.Portmap.Locks.{
  Thread, adds, looks, stores, deletes, removes, closes, empties, finished, Shared, advance,
  lock_read, lock_write, look, store, remove, empty, step, run, unlocked,
}

-- Whether a thread is inside `AddListener` with the lock, as a number.
abbrev pub adding : Thread → ℕ
adding (looks network ip port answer) = 1
adding (stores network ip real) = 1
adding _ = 0

-- Whether a thread is inside `DeleteListener` or `Close` with the lock.
abbrev pub writing : Thread → ℕ
writing (removes network ip port) = 1
writing empties = 1
writing _ = 0

abbrev pub total : (Thread → ℕ) → List Thread → ℕ
total f [] = 0
total f (t ∷ ts) = f t + total f ts

-- The lock counts the threads that hold it, beside `r` and `w` others: one holds it for writing at most,
-- and then none for reading.
pub record IsCounted (ts : List Thread) (s : Shared) (r w : ℕ) : Type 0 where
  pub readers : s.readers ≡ total adding ts + r
  pub writers : s.writers ≡ total writing ts + w
  pub alone : s.writers ≤ 1
  pub excluded : (s.writers ≡ 0) ⊎ (s.readers ≡ 0)

-- One step of a thread keeps the lock in line with it.
advance-IsCounted :
    (t : Thread) (s : Shared) (r w : ℕ)
    → IsCounted (t ∷ []) s r w
    → IsCounted ((advance t s).0 ∷ []) (advance t s).1 r w
unfolding advance lock_read lock_write look store remove empty
advance-IsCounted (adds n i p a) s r w h = ground (arith, h.readers, h.writers, h.alone, h.excluded)
advance-IsCounted (looks n i p a) s r w h =
    elim (Option-cases (lookup (convert_index n i p) s.listeners)) [
      | inr (real, q) ↦ ground (arith, q, h.readers, h.writers, h.alone, h.excluded)
      | inl q ↦ elim (Result-cases a) [
        | inl (real, e) ↦ ground (arith, q, e, h.readers, h.writers, h.alone, h.excluded)
        | inr (inl (x, e)) ↦ ground (arith, q, e, h.readers, h.writers, h.alone, h.excluded)
        | inr (inr e) ↦ ground (arith, q, e, h.readers, h.writers, h.alone, h.excluded)
      ]
    ]
advance-IsCounted (stores n i p) s r w h = ground (arith, h.readers, h.writers, h.alone, h.excluded)
advance-IsCounted (deletes n i p) s r w h =
    ground (arith, h.readers, h.writers, h.alone, h.excluded)
advance-IsCounted (removes n i p) s r w h =
    ground (arith, h.readers, h.writers, h.alone, h.excluded)
advance-IsCounted closes s r w h = ground (arith, h.readers, h.writers, h.alone, h.excluded)
advance-IsCounted empties s r w h = ground (arith, h.readers, h.writers, h.alone, h.excluded)
advance-IsCounted finished s r w h = h

step-IsCounted :
    (i : ℕ) (ts : List Thread) (s : Shared) (r w : ℕ)
    → IsCounted ts s r w
    → IsCounted (step i (ts, s)).0 (step i (ts, s)).1 r w
unfolding step
step-IsCounted i [] s r w h = h
step-IsCounted zero (t ∷ ts) s r w h =
    let one : IsCounted (t ∷ []) s (total adding ts + r) (total writing ts + w) = record {
      readers = omega (arith, h.readers);
      writers = omega (arith, h.writers);
      alone = h.alone;
      excluded = h.excluded;
    } in
    let next = advance-IsCounted t s (total adding ts + r) (total writing ts + w) one in
    record {
      readers = omega (arith, next.readers);
      writers = omega (arith, next.writers);
      alone = next.alone;
      excluded = next.excluded;
    }
step-IsCounted (suc i) (t ∷ ts) s r w h =
    let rest : IsCounted ts s (adding t + r) (writing t + w) = record {
      readers = omega (arith, h.readers);
      writers = omega (arith, h.writers);
      alone = h.alone;
      excluded = h.excluded;
    } in
    let next = step-IsCounted i ts s (adding t + r) (writing t + w) rest in
    record {
      readers = omega (arith, next.readers);
      writers = omega (arith, next.writers);
      alone = next.alone;
      excluded = next.excluded;
    }

run-IsCounted :
    (schedule : List ℕ) (ts : List Thread) (s : Shared)
    → IsCounted ts s 0 0
    → IsCounted (run schedule (ts, s)).0 (run schedule (ts, s)).1 0 0
unfolding run
run-IsCounted [] ts s h = h
run-IsCounted (i ∷ schedule) ts s h =
    run-IsCounted schedule (step i (ts, s)).0 (step i (ts, s)).1 (step-IsCounted i ts s 0 0 h)

-- Calls that have not begun: none of them holds the lock.
abbrev pub AreWaiting : List Thread → Type 0
AreWaiting [] = Unit {0}
AreWaiting (t ∷ ts) = (adding t ≡ 0) × (writing t ≡ 0) × AreWaiting ts

waiting_totals : (ts : List Thread) → AreWaiting ts → (total adding ts ≡ 0) × (total writing ts ≡ 0)
waiting_totals [] h = (refl, refl)
waiting_totals (t ∷ ts) h = ground (arith, h.0, h.1, waiting_totals ts h.2)

pub reached-IsCounted :
    (schedule : List ℕ) (ts : List Thread) (ls : Listeners)
    → AreWaiting ts
    → IsCounted (run schedule (ts, unlocked ls)).0 (run schedule (ts, unlocked ls)).1 0 0
reached-IsCounted schedule ts ls h =
    let (a, w) = waiting_totals ts h in
    run-IsCounted schedule ts (unlocked ls) (record {
      readers = omega (arith, a);
      writers = omega (arith, w);
      alone = omega arith;
      excluded = inl refl;
    })

-- However calls that start with the lock free are interleaved, at most one is inside `DeleteListener` or
-- `Close`, and while one is, none is inside `AddListener`.
pub run_excludes :
    (schedule : List ℕ) (ts : List Thread) (ls : Listeners)
    → AreWaiting ts
    → (total writing (run schedule (ts, unlocked ls)).0 ≤ 1)
      × ((total writing (run schedule (ts, unlocked ls)).0 ≡ 0)
          ⊎ (total adding (run schedule (ts, unlocked ls)).0 ≡ 0))
run_excludes schedule ts ls h =
    let last = reached-IsCounted schedule ts ls h in
    ground (arith, last.readers, last.writers, last.alone, last.excluded)
