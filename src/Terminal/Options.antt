-- ===== src/Terminal/Options.antt =====
-- src/terminal/options.rs: the settings of a terminal.
use xssh_rust_lib.Base.{ℕ, Text, codes, Bool, true, ◌||◌, Result, is_empty, ◌==◌, nat_eq}
use xssh_rust_lib.Base.Fallible.{◌>>◌, reject_if}
use xssh_rust_lib.Base.Str.{trim}
use xssh_rust_lib.Error
use xssh_rust_lib.Error.{SshError}
use xssh_rust_lib.Session.Transport.{Size}

pub record TerminalOptions : Type 0 where
  pub term : Text
  pub columns : ℕ
  pub rows : ℕ
  pub pixel_width : ℕ
  pub pixel_height : ℕ
  pub want_reply : Bool

abbrev pub default_terminal_options : TerminalOptions
default_terminal_options = record {
  term = codes "xterm-256color";
  columns = 80;
  rows = 24;
  pixel_width = 0;
  pixel_height = 0;
  want_reply = true;
}

unfoldable pub validate_terminal_options : TerminalOptions → Result SshError (Unit {0})
validate_terminal_options options = do
  reject_if (is_empty (trim options.term))
      (Error.configuration (codes "terminal type must not be empty"))
  reject_if (options.columns == 0 || options.rows == 0)
      (Error.configuration (codes "terminal dimensions must be positive"))

abbrev pub size_of : TerminalOptions → Size
size_of options = record {
  col_width = options.columns;
  row_height = options.rows;
  pix_width = options.pixel_width;
  pix_height = options.pixel_height;
}
