-- ===== src/Terminal.antt =====
-- src/terminal/session.rs: an interactive terminal, a session channel with a PTY and a shell.
pub mod Event
pub mod Options
pub mod Opening
use xssh_rust_lib.Base.{
  ℕ, Text, codes, Bool, true, false, List, [], ◌||◌, Option, none, some, Result, ok, err, is_empty,
  ◌==◌, nat_eq, if◌then◌else◌,
}
use xssh_rust_lib.Base.Fallible.{reject_if}
use xssh_rust_lib.Base.Async.{Async, pure, lift, ◌>>=◌, ◌>>◌}
use xssh_rust_lib.Error
use xssh_rust_lib.Error.{SshError}
use xssh_rust_lib.Operation.{OperationContext}
use xssh_rust_lib.Operation.Within.{Environment, timed}
use xssh_rust_lib.Session.Transport.{Transport, Size}
use xssh_rust_lib.Session.Raw.{SshSession, base_context}
use xssh_rust_lib.Channel.{SshChannelEvent}
use xssh_rust_lib.Channel.Calls
use xssh_rust_lib.Channel.Calls.{SshChannel, request_pty_with_context, request_shell_with_context}
use xssh_rust_lib.Channel.Open.{open_session_channel_with_context}
use xssh_rust_lib.Terminal.Event.{TerminalEvent, terminal_event}
use xssh_rust_lib.Terminal.Options.{TerminalOptions, validate_terminal_options, size_of}
use xssh_rust_lib.Channel.Stream
use xssh_rust_lib.Channel.Stream.{SshChannelStream}

pub record TerminalSession (Inner : Type 0) : Type 0 where
  pub channel : SshChannel Inner

unfoldable pub validate_dimensions : ℕ → ℕ → Result SshError (Unit {0})
validate_dimensions columns rows =
    reject_if (columns == 0 || rows == 0)
      (Error.configuration (codes "terminal dimensions must be positive"))

-- `Option::map(Into::into)`
abbrev terminal_events : Option SshChannelEvent → Option TerminalEvent
terminal_events none = none
terminal_events (some event) = some (terminal_event event)

module _ {World : Type 0} (environment : Environment World) (transport : Transport World) where
  open transport use {Channel}

  unfoldable pub open_with_context :
      SshSession
      → TerminalOptions
      → OperationContext
      → Async World SshError (TerminalSession Channel)
  unfolding open_session_channel_with_context request_pty_with_context request_shell_with_context
  open_with_context session options context = do
    lift (validate_terminal_options options)
    setup_context ← timed environment session.config.operation_timeout context
    channel ← open_session_channel_with_context environment transport session context
    request_pty_with_context environment transport channel options.want_reply options.term
        (size_of options) [] setup_context
    request_shell_with_context environment transport channel options.want_reply setup_context
    pure (record { channel = channel })

  -- `TerminalSession::open`
  unfoldable pub open_terminal :
      SshSession → TerminalOptions → Async World SshError (TerminalSession Channel)
  unfolding open_with_context
  open_terminal session options = open_with_context session options (base_context session)

  abbrev pub with_terminal_context :
      OperationContext → TerminalSession Channel → TerminalSession Channel
  with_terminal_context context terminal = record {
    channel = Calls.with_context context terminal.channel;
  }

  abbrev pub write : TerminalSession Channel → List ℕ → Async World SshError (Unit {0})
  write terminal = Calls.write environment transport terminal.channel

  abbrev pub write_with_context :
      TerminalSession Channel → List ℕ → OperationContext → Async World SshError (Unit {0})
  write_with_context terminal = Calls.write_with_context environment transport terminal.channel

  abbrev pub eof : TerminalSession Channel → Async World SshError (Unit {0})
  eof terminal = Calls.eof environment transport terminal.channel

  abbrev pub eof_with_context :
      TerminalSession Channel → OperationContext → Async World SshError (Unit {0})
  eof_with_context terminal = Calls.eof_with_context environment transport terminal.channel

  unfoldable pub resize : TerminalSession Channel → ℕ → ℕ → Async World SshError (Unit {0})
  resize terminal columns rows = do
    lift (validate_dimensions columns rows)
    Calls.window_change environment transport terminal.channel columns rows

  unfoldable pub resize_with_context :
      TerminalSession Channel → ℕ → ℕ → OperationContext → Async World SshError (Unit {0})
  resize_with_context terminal columns rows context = do
    lift (validate_dimensions columns rows)
    Calls.window_change_with_context environment transport terminal.channel columns rows context

  unfoldable pub next_event : TerminalSession Channel → Async World SshError (Option TerminalEvent)
  next_event terminal = do
    event ← Calls.next_event environment transport terminal.channel
    pure (terminal_events event)

  unfoldable pub next_event_with_context :
      TerminalSession Channel → OperationContext → Async World SshError (Option TerminalEvent)
  next_event_with_context terminal context = do
    event ← Calls.next_event_with_context environment transport terminal.channel context
    pure (terminal_events event)

  abbrev pub close : TerminalSession Channel → Async World SshError (Unit {0})
  close terminal = Calls.close environment transport terminal.channel

  abbrev pub close_with_context :
      TerminalSession Channel → OperationContext → Async World SshError (Unit {0})
  close_with_context terminal = Calls.close_with_context environment transport terminal.channel

  abbrev pub into_stream : TerminalSession Channel → SshChannelStream transport.Stream
  into_stream terminal = Stream.into_stream environment transport terminal.channel
