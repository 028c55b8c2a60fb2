-- ===== src/Tests/Channels.antt =====
-- src/core/channel.rs and src/terminal/ at concrete inputs.
use xssh_rust_lib.Base.{ℕ, codes, true, [], none, ok, ◌≡◌, refl, arith}
use xssh_rust_lib.Base.Str.{trim}
use xssh_rust_lib.Base.Async.{ready}
use xssh_rust_lib.Base.Async.Failing.{Ends}
use xssh_rust_lib.Operation.Within.{or_panics}
use xssh_rust_lib.Operation.{OperationContext, run, with_timeout_from_now, timeout_deadline}
use xssh_rust_lib.Operation.Within.{run_in, settles}
use xssh_rust_lib.Session.Raw.{
  remote_call, request_raw_tcpip_forward_with_context, open_raw_session_channel_with_context,
}
use xssh_rust_lib.Channel.Calls.{SshChannel}
use xssh_rust_lib.Channel.Calls
use xssh_rust_lib.Channel.Calls.Laws.{default_requests-Ends}
use xssh_rust_lib.Channel.Open.{open_session_channel_with_context}
use xssh_rust_lib.Channel.Forward.{
  SshRemoteTcpipForward, effective_port, request_remote_tcpip_forward_with_context,
}
use xssh_rust_lib.Channel.Forward.Ports.{Confirmed, request_remote_tcpip_forward_with_context-ok}
use xssh_rust_lib.Terminal.{TerminalSession, open_with_context}
use xssh_rust_lib.Terminal.Options.{default_terminal_options, validate_terminal_options}
use xssh_rust_lib.Terminal.Opening.{IsValidOptions, IsOpened, open_with_context-ok}
use xssh_rust_lib.Tests.Sessions.{environment, transport, session}

abbrev unlimited : OperationContext
unlimited = record { deadline = none }

abbrev shell : SshChannel ℕ
shell = record { inner = 1; context = unlimited; operation_timeout = 5 }

default_requests-Ends_example :
    Ends (
      Calls.request_pty environment transport shell true
        (codes "vt100")
        (record { col_width = 80; row_height = 24; pix_width = 0; pix_height = 0 })
        []
        0)
    × Ends (Calls.request_shell environment transport shell true 0)
    × Ends (Calls.exec environment transport shell true [] 0)
    × Ends (Calls.request_subsystem environment transport shell true (codes "sftp") 0)
    × Ends (Calls.write environment transport shell [] 0)
    × Ends (Calls.eof environment transport shell 0)
    × Ends (Calls.window_change environment transport shell 80 24 0)
    × Ends (Calls.close environment transport shell 0)
    × Ends (Calls.next_event environment transport shell 0)
default_requests-Ends_example =
    default_requests-Ends environment transport shell true (codes "vt100") (codes "sftp")
      (record { col_width = 80; row_height = 24; pix_width = 0; pix_height = 0 }) [] [] 80 24 0

-- A forward of a port of the server's choice.
abbrev chosen : SshRemoteTcpipForward
chosen = record { address = codes "localhost"; port = 4022 }

granted :
    (request_remote_tcpip_forward_with_context environment transport session
      (codes "localhost")
      0
      unlimited
      0).0
    ≡ ready (ok chosen)
unfolding request_remote_tcpip_forward_with_context request_raw_tcpip_forward_with_context
    remote_call run_in or_panics settles run effective_port codes
granted = refl

request_remote_tcpip_forward_with_context-ok_example :
    Confirmed transport (codes "localhost") 0 0 chosen
request_remote_tcpip_forward_with_context-ok_example =
    request_remote_tcpip_forward_with_context-ok environment transport session (codes "localhost") 0
      unlimited 0 chosen (omega arith) granted

abbrev terminal : TerminalSession ℕ
terminal = record {
  channel = record {
    inner = 1;
    context = unlimited;
    operation_timeout = session.config.operation_timeout;
  };
}

terminal_opened :
    (open_with_context environment transport session default_terminal_options unlimited 0).0
    ≡ ready (ok terminal)
unfolding open_with_context Calls.request_pty_with_context Calls.request_shell_with_context
    open_session_channel_with_context open_raw_session_channel_with_context remote_call run_in
    settles run with_timeout_from_now timeout_deadline or_panics validate_terminal_options trim
    codes
terminal_opened = refl

open_with_context-ok_example :
    IsValidOptions default_terminal_options
    × IsOpened transport default_terminal_options terminal 0
        (open_with_context environment transport session default_terminal_options unlimited 0).1
    × (unlimited ≡ unlimited)
    × (session.config.operation_timeout ≡ session.config.operation_timeout)
open_with_context-ok_example =
    open_with_context-ok environment transport session default_terminal_options unlimited 0 terminal
      terminal_opened
