-- ===== src/Logging/Rotation.antt =====
-- When the loggers panic, and how far a file grows.
use uptp.Common.{
  ℕ, ◌≤◌, ◌<◌, ◌≡◌, ◌≢◌, ◌↔◌, ◌⊎◌, inl, inr, arith, true, false, Option, none, some, String, List,
  [], ◌∷◌, nat_eq, Option-cases,
}
use uptp.Common.Int.{ℤ, int_eq, leb_ℤ, beq_ℤ_iff}
use uptp.Logging.Level.{Severity, level_of, is_level, Call, call, set_level}
use uptp.Logging.Level
use uptp.Logging.LogFile
use uptp.Logging.LogFile.{
  Line, Event, sets, logs, ticks, new_logger, log, Answers, tick, check_file, rotate, size,
  log_console, log_file, log_file_and_console,
}

-- Whatever levels the default logger is given, it keeps one of those that there are.
pub run-is_level :
    (cs : List Call) (lg : Level.Logger)
    → is_level lg.level ≡ true
    → is_level (Level.run cs lg).level ≡ true
unfolding Level.run call set_level Level.log
run-is_level [] lg h = h
run-is_level (c ∷ cs) lg h = run-is_level cs (call c lg) (ground (arith, h))

step_has_file :
    (line : Line) (lg : LogFile.Logger)
    → lg.has_file ≡ true
    → (lg' : LogFile.Logger) × ((log line lg ≡ some lg') × (lg'.has_file ≡ true))
unfolding log
step_has_file line lg h = elim (Option-cases (log line lg)) [
  | inl n ↦ absurd (ground (arith, h, n))
  | inr (lg', e) ↦ (lg', (e, ground (arith, h, e)))
]

tick_has_file : (r : Answers) (lg : LogFile.Logger) → (tick r lg).has_file ≡ lg.has_file
unfolding tick check_file rotate
tick_has_file r lg = ground arith

file_never_panics :
    (es : List Event) (lg : LogFile.Logger) → lg.has_file ≡ true → LogFile.run es lg ≢ none
unfolding LogFile.run LogFile.set_level
file_never_panics [] lg h = λ e. cc e
file_never_panics (sets l ∷ es) lg h = file_never_panics es (record lg { level = l }) h
file_never_panics (ticks r ∷ es) lg h =
    file_never_panics es (tick r lg) (ground (arith, h, tick_has_file r lg))
file_never_panics (logs line ∷ es) lg h = λ e.
    let (lg', (s, h')) = step_has_file line lg h in
    file_never_panics es lg' h' (ground (arith, e, s))

-- A logger that was made for another level than 2 never panics, whatever is logged and whatever
-- happens to its file.
pub new_logger_safe :
    (level mode : ℤ) (max_log_size : ℕ) (answer : Option String) (lg : LogFile.Logger)
    → new_logger level max_log_size mode answer ≡ some lg
    → level ≢ log_console
    → (es : List Event) → LogFile.run es lg ≢ none
unfolding new_logger
new_logger_safe level mode max_log_size answer lg h n es =
    file_never_panics es lg (ground (arith, h, n, beq_ℤ_iff level log_console))

-- A logger that was made for level 2 panics at a line exactly if it is to write to a file and the
-- line's level is at least 2.
pub new_logger_panics_iff :
    (level mode : ℤ) (max_log_size : ℕ) (answer : Option String) (lg : LogFile.Logger)
    → new_logger level max_log_size mode answer ≡ some lg
    → level ≡ log_console
    → (line : Line)
    → (log line lg ≡ none) ↔ (
        ((mode ≡ log_file) ⊎ (mode ≡ log_file_and_console))
        × (leb_ℤ log_console (level_of line.severity) ≡ true))
unfolding new_logger log
new_logger_panics_iff level mode max_log_size answer lg h e line =
    let made : (lg.has_file ≡ false) × ((lg.level ≡ log_console) × (lg.mode ≡ mode)) =
      ground (arith, h, e) in
    ground (arith, made, beq_ℤ_iff mode log_file, beq_ℤ_iff mode log_file_and_console)

-- On an open file of a logger with a size, and not for the console alone, a tick leaves a file of at most that
-- size exactly if the file was no larger or its renaming succeeds; the lines of the file are still in the file or
-- are its backup; and the file is open after it exactly if it was no larger or is opened again.
pub tick_bounded_iff :
    (r : Answers) (lg : LogFile.Logger)
    → lg.has_file ≡ true
    → lg.file_open ≡ true
    → lg.mode ≢ log_console
    → 0 < lg.max_log_size
    → ((size (tick r lg).file ≤ lg.max_log_size)
        ↔ ((size lg.file ≤ lg.max_log_size) ⊎ (r.rename ≡ none)))
      × ((((tick r lg).file ≡ lg.file) ⊎ ((tick r lg).backup ≡ some lg.file))
          × (((tick r lg).file_open ≡ true)
              ↔ ((size lg.file ≤ lg.max_log_size) ⊎ (r.reopen ≡ none))))
unfolding tick check_file rotate
tick_bounded_iff r lg h o n m = elim (Option-cases r.rename) [
  | inl p ↦ elim (Option-cases r.reopen) [
    | inl q ↦ ground (arith, h, o, p, q, beq_ℤ_iff lg.mode log_console)
    | inr (e, q) ↦ ground (arith, h, o, p, q, beq_ℤ_iff lg.mode log_console)
  ]
  | inr (x, p) ↦ elim (Option-cases r.reopen) [
    | inl q ↦ ground (arith, h, o, p, q, beq_ℤ_iff lg.mode log_console)
    | inr (e, q) ↦ ground (arith, h, o, p, q, beq_ℤ_iff lg.mode log_console)
  ]
]
