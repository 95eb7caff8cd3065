-- ===== src/Logging/Tests.antt =====
-- The loggers, run.
use uptp.Common.{◌≤◌, ◌≡◌, ◌≢◌, ◌↔◌, ◌⊎◌, refl, arith, none, some, [], ◌∷◌, true}
use uptp.Common.Int.{pos}
use uptp.Logging.Level.{info}
use uptp.Logging.LogFile
use uptp.Logging.LogFile.{
  Line, Answers, Event, logs, ticks, new_logger, log, tick, run, size, log_console, log_file,
  log_file_and_console,
}
use uptp.Logging.Rotation.{tick_bounded_iff}

abbrev hello : Line
hello = record { severity = info; text = "hello"; bytes = 40 }

abbrev made : LogFile.Logger
made = record {
  has_file = true;
  file_open = true;
  level = pos 0;
  max_log_size = 100;
  mode = log_file;
  file = [];
  backup = none;
  console = [];
}

made_by : new_logger (pos 0) 100 log_file none ≡ some made
unfolding new_logger
made_by = refl

not_console : pos 0 ≢ log_console
not_console e = absurd (cc e)

abbrev grown : LogFile.Logger
grown = record made { file = hello ∷ hello ∷ hello ∷ [] }

file_mode : grown.mode ≢ log_console
file_mode e = absurd (cc e)

-- A file that is in use elsewhere is not renamed, and is opened again.
abbrev in_use : Answers
in_use = record { remove = none; rename = some "in use"; reopen = none }

tick_bounded_iff_example :
    ((size (tick in_use grown).file ≤ grown.max_log_size)
      ↔ ((size grown.file ≤ grown.max_log_size) ⊎ (in_use.rename ≡ none)))
    × ((((tick in_use grown).file ≡ grown.file) ⊎ ((tick in_use grown).backup ≡ some grown.file))
        × (((tick in_use grown).file_open ≡ true)
            ↔ ((size grown.file ≤ grown.max_log_size) ⊎ (in_use.reopen ≡ none))))
tick_bounded_iff_example = tick_bounded_iff in_use grown refl refl file_mode (omega arith)
