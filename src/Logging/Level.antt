-- ===== src/Logging/Level.antt =====
-- logging/log.go: the default logger, which prints to one output the messages of its level and above.
use uptp.Common.{Bool, String, List, [], ◌∷◌, ◌++◌, if◌then◌else◌, ◌&&◌}
use uptp.Common.Int.{ℤ, pos, leb_ℤ}

abbrev pub level_all : ℤ
level_all = pos 0

abbrev pub level_debug : ℤ
level_debug = pos 1

abbrev pub level_info : ℤ
level_info = pos 2

abbrev pub level_warn : ℤ
level_warn = pos 3

abbrev pub level_error : ℤ
level_error = pos 4

abbrev pub level_none : ℤ
level_none = pos 5

-- The four methods that log, each with the tag of its lines
pub data Severity : Type 0 where
  debug info warn error : Severity

abbrev pub level_of : Severity → ℤ
level_of debug = level_debug
level_of info = level_info
level_of warn = level_warn
level_of error = level_error

-- A line: of one of the four methods, or the complaint about a level that there is not.
pub data Line : Type 0 where
  line : Severity → String → Line
  invalid_level : ℤ → Line

-- `logger` with what it printed
pub record Logger : Type 0 where
  pub level : ℤ
  pub output : List Line

-- The levels that the `switch` of `SetLevel` names
abbrev pub is_level : ℤ → Bool
is_level l = leb_ℤ level_all l && leb_ℤ l level_none

unfoldable pub set_level : ℤ → Logger → Logger
set_level l lg =
    if is_level l
    then record lg { level = l }
    else record lg { output = lg.output ++ (invalid_level l ∷ []) }

-- `Debug`, `Info`, `Warn` and `Error`
unfoldable pub log : Severity → String → Logger → Logger
log s text lg =
    if leb_ℤ lg.level (level_of s)
    then record lg { output = lg.output ++ (line s text ∷ []) }
    else lg

-- The package's functions, on a default logger of this package that is not nil.
pub data Call : Type 0 where
  sets : ℤ → Call
  logs : Severity → String → Call

unfoldable pub call : Call → Logger → Logger
unfolding set_level log
call (sets l) lg =
    if is_level l
    then set_level l lg
    else record lg { output = lg.output ++ (invalid_level l ∷ []) }
call (logs s text) lg = log s text lg

unfoldable pub run : List Call → Logger → Logger
unfolding call
run [] lg = lg
run (c ∷ cs) lg = run cs (call c lg)
