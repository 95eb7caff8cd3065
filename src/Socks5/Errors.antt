-- ===== src/Socks5/Errors.antt =====
-- socks5/server.go: the errors that the server compares and logs.
use uptp.Common.{Bool, true, false, not, Option, none, some, String, ◌&&◌}
use text.Mathlib.Text.{find?}

-- `io.EOF`, `io.ErrUnexpectedEOF` and `syscall.ECONNRESET`, or another error by its text
pub data GoError : Type 0 where
  eof unexpected_eof conn_reset : GoError
  other : String → GoError

-- A call of another package: its value, or its error.
pub data Try {ℓ} (A : Type ℓ) : Type ℓ where
  done : A → Try A
  failed : GoError → Try A

-- `strings.Contains`
abbrev pub contains : String → String → Bool
contains s t = elim (find? s t) [ none ↦ false | some i ↦ true ]

-- `shouldLogError`; `none` is a nil error.
unfoldable pub should_log_error : Option GoError → Bool
should_log_error none = false
should_log_error (some eof) = false
should_log_error (some unexpected_eof) = false
should_log_error (some conn_reset) = false
should_log_error (some (other text)) =
    not (contains text "timeout") && not (contains text "reset") && not (contains text "closed")
