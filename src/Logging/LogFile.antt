-- ===== src/Logging/LogFile.antt =====
-- logger/log.go: the logger of the programs, which writes to a file, to the console, or to both, and
-- moves the file away once a minute where it has grown past a size.
use uptp.Common.{
  ℕ, ◌+◌, Bool, true, false, Option, none, some, String, List, [], ◌∷◌, ◌++◌, if◌then◌else◌, ◌==◌,
  ◌!=◌, ◌&&◌, ◌||◌, leb, nat_eq,
}
use uptp.Common.Int.{ℤ, pos, int_eq, leb_ℤ}
use uptp.Logging.Level.{Severity, level_of}

abbrev pub log_file_and_console : ℤ
log_file_and_console = pos 0

abbrev pub log_file : ℤ
log_file = pos 1

abbrev pub log_console : ℤ
log_console = pos 2

-- A line with its length in the file
pub record Line : Type 0 where
  pub severity : Severity
  pub text : String
  pub bytes : ℕ

abbrev pub size : List Line → ℕ
size [] = 0
size (l ∷ ls) = l.bytes + size ls

-- `logger`, with the lines of its file, of the file's backup, and of the console. A logger without
-- a file has a nil `lg` and a nil `logFile`; a closed one takes no lines.
pub record Logger : Type 0 where
  pub has_file : Bool
  pub file_open : Bool
  pub level : ℤ
  pub max_log_size : ℕ
  pub mode : ℤ
  pub file : List Line
  pub backup : Option (List Line)
  pub console : List Line

-- `NewLogger`, on a file that was not there; a file that cannot be opened ends the program, as `none`.
unfoldable pub new_logger : ℤ → ℕ → ℤ → Option String → Option Logger
new_logger level max_log_size mode answer =
    let made : Bool → Logger = λ filed. record {
      has_file = filed;
      file_open = filed;
      level = level;
      max_log_size = max_log_size;
      mode = mode;
      file = [];
      backup = none;
      console = [];
    } in
    if level != log_console
    then elim answer [ some e ↦ none | none ↦ some (made true) ]
    else some (made false)

unfoldable pub set_level : ℤ → Logger → Logger
set_level l lg = record lg { level = l }

-- What a call that logs comes to: it panics on a nil `lg`.
unfoldable pub log : Line → Logger → Option Logger
log line lg =
    let written = if lg.file_open then record lg { file = lg.file ++ (line ∷ []) } else lg in
    let printed = record lg { console = lg.console ++ (line ∷ []) } in
    let both = record written { console = lg.console ++ (line ∷ []) } in
    if leb_ℤ lg.level (level_of line.severity)
    then if lg.mode == log_file || lg.mode == log_file_and_console
      then if lg.has_file
        then some (if lg.mode == log_file_and_console then both else written)
        else none
      else some (if lg.mode == log_console then printed else lg)
    else some lg

-- How a rotation is answered: by `os.Remove` on the backup, by `os.Rename` and by `os.OpenFile`, where `none`
-- is no error.
pub record Answers : Type 0 where
  pub remove : Option String
  pub rename : Option String
  pub reopen : Option String

-- The backup after `os.Remove`
abbrev pub removed : Option String → Option (List Line) → Option (List Line)
removed none backup = none
removed (some e) backup = backup

-- The steps of `checkFile` on a file that has grown: the errors of the removal and of the renaming are not
-- looked at, and the file that stands under the name, the same one where it was not renamed, is opened at its
-- end; where that fails the logger is left with its closed file.
unfoldable pub rotate : Answers → Logger → Logger
rotate r lg =
    let opened : Bool = elim r.reopen [ none ↦ true | some e ↦ false ] in
    elim r.rename [
      | none ↦ record lg { file_open = opened; backup = some lg.file; file = [] }
      | some e ↦ record lg { file_open = opened; backup = removed r.remove lg.backup }
    ]

-- `checkFile`; `Stat` fails on a nil or closed file.
unfoldable pub check_file : Answers → Logger → Logger
unfolding rotate
check_file r lg =
    if lg.has_file && lg.file_open
    then if leb (size lg.file) lg.max_log_size then lg else rotate r lg
    else lg

-- One tick of `checkFileLoop`, which runs unless the mode is the console's alone, and ends at once
-- where no size is given.
unfoldable pub tick : Answers → Logger → Logger
unfolding check_file
tick r lg = if lg.mode == log_console || leb lg.max_log_size 0 then lg else check_file r lg

pub data Event : Type 0 where
  sets : ℤ → Event
  logs : Line → Event
  ticks : Answers → Event

-- A sequence of calls and ticks; `none` is a panic.
unfoldable pub run : List Event → Logger → Option Logger
unfolding tick log set_level
run [] lg = some lg
run (sets l ∷ es) lg = run es (set_level l lg)
run (logs line ∷ es) lg = elim (log line lg) [ none ↦ none | some lg' ↦ run es lg' ]
run (ticks r ∷ es) lg = run es (tick r lg)
