-- ===== src/Terminal/Event.antt =====
-- src/terminal/event.rs: the events of a terminal.
use xssh_rust_lib.Base.{ℕ, Text, Bool, List}
use xssh_rust_lib.Channel.{SshChannelEvent}

pub data TerminalEvent : Type 0 where
  data_bytes : List ℕ → TerminalEvent
  extended_data : ℕ → List ℕ → TerminalEvent
  eof close success failure : TerminalEvent
  exit_status : ℕ → TerminalEvent
  exit_signal : Text → Bool → Text → Text → TerminalEvent
  open_failure : Text → TerminalEvent

-- `impl From<SshChannelEvent> for TerminalEvent`
unfoldable pub terminal_event : SshChannelEvent → TerminalEvent
terminal_event (SshChannelEvent.data_bytes bytes) = TerminalEvent.data_bytes bytes
terminal_event (SshChannelEvent.extended_data ext bytes) = TerminalEvent.extended_data ext bytes
terminal_event SshChannelEvent.eof = TerminalEvent.eof
terminal_event SshChannelEvent.close = TerminalEvent.close
terminal_event (SshChannelEvent.exit_status code) = TerminalEvent.exit_status code
terminal_event (SshChannelEvent.exit_signal signal core_dumped message tag) =
    TerminalEvent.exit_signal signal core_dumped message tag
terminal_event SshChannelEvent.success = TerminalEvent.success
terminal_event SshChannelEvent.failure = TerminalEvent.failure
terminal_event (SshChannelEvent.open_failure message) = TerminalEvent.open_failure message
