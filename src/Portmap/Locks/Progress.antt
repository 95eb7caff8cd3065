-- ===== src/Portmap/Locks/Progress.antt =====
-- Proofs for Portmap/Locks: no interleaving blocks, and what two calls of `AddListener` can do at once.
use uptp.Common.{
  ℕ, suc, ◌+◌, ◌<◌, ◌≡◌, arith, none, String, List, [], ◌∷◌, ok, ltb, Bool-cases, Result-cases,
  Option-cases, inl, inr, ◌⊎◌, nat_eq, text_eq,
}
use uptp.Common.Int.{ℤ}
use uptp.Common.GoMap.{lookup}
use uptp.Portmap.Listeners.{Listeners, convert_index}
use uptp.Portmap.Locks.{
  Thread, adds, looks, stores, deletes, removes, closes, empties, finished, Shared, advance,
  lock_read, lock_write, look, store, remove, empty, step, run, unlocked,
}
use uptp.Portmap.Locks.Laws.{adding, writing, total, AreWaiting, reached-IsCounted}

-- The steps that a call still has to make.
abbrev pub steps_left : Thread → ℕ
steps_left (adds n i p a) = 3
steps_left (looks n i p a) = 2
steps_left (stores n i p) = 1
steps_left (deletes n i p) = 2
steps_left (removes n i p) = 1
steps_left closes = 2
steps_left empties = 1
steps_left finished = 0

-- A thread that holds the lock, or that the free lock lets in, makes a step.
abbrev MayStep : Thread → Shared → Type 0
MayStep t s = (0 < adding t + writing t) ⊎ ((s.readers ≡ 0) × (s.writers ≡ 0) × (0 < steps_left t))

advance_moves : (t : Thread) (s : Shared) → MayStep t s → steps_left (advance t s).0 < steps_left t
unfolding advance lock_read lock_write look store remove empty
advance_moves (adds n i p a) s h = ground (arith, h)
advance_moves (looks n i p a) s h = elim (Option-cases (lookup (convert_index n i p) s.listeners)) [
  | inr (real, q) ↦ ground (arith, q)
  | inl q ↦ elim (Result-cases a) [
    | inl (real, e) ↦ ground (arith, q, e)
    | inr (inl (x, e)) ↦ ground (arith, q, e)
    | inr (inr e) ↦ ground (arith, q, e)
  ]
]
advance_moves (stores n i p) s h = omega arith
advance_moves (deletes n i p) s h = ground (arith, h)
advance_moves (removes n i p) s h = omega arith
advance_moves closes s h = ground (arith, h)
advance_moves empties s h = omega arith
advance_moves finished s h = ground (arith, h)

-- The index of a thread that makes a step, where one holds the lock.
holder_moves :
    (ts : List Thread) (s : Shared)
    → 0 < total adding ts + total writing ts
    → (i : ℕ) × (total steps_left (step i (ts, s)).0 < total steps_left ts)
unfolding step
holder_moves [] s h = absurd (omega arith)
holder_moves (t ∷ ts) s h = elim (Bool-cases (ltb 0 (adding t + writing t))) [
  | inl b ↦ (0, omega (arith, advance_moves t s (inl (ground (arith, b)))))
  | inr b ↦
      let none : adding t + writing t ≡ 0 = ground (arith, b) in
      let (i, less) = holder_moves ts s (omega (arith, h, none)) in (suc i, omega (arith, less))
]

-- Or where the lock is free.
waiter_moves :
    (ts : List Thread) (s : Shared)
    → s.readers ≡ 0
    → s.writers ≡ 0
    → 0 < total steps_left ts
    → (i : ℕ) × (total steps_left (step i (ts, s)).0 < total steps_left ts)
unfolding step
waiter_moves [] s r w h = absurd (omega arith)
waiter_moves (t ∷ ts) s r w h = elim (Bool-cases (ltb 0 (steps_left t))) [
  | inl b ↦ (0, omega (arith, advance_moves t s (inr (r, w, ground (arith, b)))))
  | inr b ↦
      let none : steps_left t ≡ 0 = ground (arith, b) in
      let (i, less) = waiter_moves ts s r w (omega (arith, h, none)) in (suc i, omega (arith, less))
]

-- However calls that start with the lock free were interleaved, there is one that can make a step, as
-- long as one has not returned: they never block each other for good.
pub run_moves :
    (schedule : List ℕ) (ts : List Thread) (ls : Listeners)
    → AreWaiting ts
    → 0 < total steps_left (run schedule (ts, unlocked ls)).0
    → (i : ℕ) × (total steps_left (step i (run schedule (ts, unlocked ls))).0
        < total steps_left (run schedule (ts, unlocked ls)).0)
run_moves schedule ts ls h left =
    let x = run schedule (ts, unlocked ls) in
    let c = reached-IsCounted schedule ts ls h in
    elim (Bool-cases (ltb 0 (total adding x.0 + total writing x.0))) [
      | inl b ↦ holder_moves x.0 x.1 (ground (arith, b))
      | inr b ↦
          waiter_moves x.0 x.1 (ground (arith, b, c.readers)) (ground (arith, b, c.writers)) left
    ]

-- Two calls of `AddListener` for listeners that are not in the table can both be about to write it, at the
-- same time: each holds the lock for reading only.
pub two_calls_store :
    (n m i j : String) (p q r s : ℤ) (ls : Listeners)
    → lookup (convert_index n i p) ls ≡ none
    → lookup (convert_index m j q) ls ≡ none
    → (run (0 ∷ 1 ∷ 0 ∷ 1 ∷ []) (adds n i p (ok r) ∷ adds m j q (ok s) ∷ [], unlocked ls)).0
      ≡ stores n i r ∷ stores m j s ∷ []
unfolding run step advance lock_read lock_write look store remove empty
two_calls_store n m i j p q r s ls a b = ground (arith, a, b)
