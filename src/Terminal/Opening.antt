-- ===== src/Terminal/Opening.antt =====
-- src/terminal/session.rs, `open_with_context`: the requests of a terminal that was opened.
use xssh_rust_lib.Base.{◌<◌, codes, false, [], ok, ◌≡◌, refl, subst, arith}
use xssh_rust_lib.Base.Str.Blank.{is_blank, is_empty-trim}
use xssh_rust_lib.Base.Async.{ready, lift}
use xssh_rust_lib.Base.Async.Laws.{Ensures, >>=-Ensures, pure-Ensures}
use xssh_rust_lib.Base.Async.Failing.{lift-Ensures}
use xssh_rust_lib.Operation.{OperationContext}
use xssh_rust_lib.Operation.Within.Timed.{timed-Ensures}
use xssh_rust_lib.Operation.Within.{Environment}
use xssh_rust_lib.Session.Transport.{Transport}
use xssh_rust_lib.Session.Raw.{SshSession, remote_call, open_raw_session_channel_with_context}
use xssh_rust_lib.Session.Raw.Laws.{remote_call-Ensures}
use xssh_rust_lib.Channel.Calls.{request_pty_with_context, request_shell_with_context}
use xssh_rust_lib.Channel.Open.{open_session_channel_with_context}
use xssh_rust_lib.Terminal.{TerminalSession, open_with_context}
use xssh_rust_lib.Terminal.Options.{TerminalOptions, validate_terminal_options, size_of}

-- The settings that are accepted.
pub record IsValidOptions (options : TerminalOptions) : Type 0 where
  pub term_named : is_blank options.term ≡ false
  pub columns_positive : 0 < options.columns
  pub rows_positive : 0 < options.rows

validate_terminal_options-ok :
    (options : TerminalOptions) → validate_terminal_options options ≡ ok tt → IsValidOptions options
unfolding validate_terminal_options
validate_terminal_options-ok options h = record {
  term_named = ground (arith, is_empty-trim options.term);
  columns_positive = ground arith;
  rows_positive = ground arith;
}

-- A channel was opened, then the PTY and then the shell were requested on it without an error, each in the world
-- that the one before had left.
pub record IsOpened {World : Type 0} (transport : Transport World) (options : TerminalOptions)
    (terminal : TerminalSession transport.Channel) (world after : World) : Type 0 where
  pub with_channel : World
  pub with_pty : World
  pub opened :
      transport.channel_open_session world ≡ (ready (ok terminal.channel.inner), with_channel)
  pub pty :
      transport.request_pty terminal.channel.inner options.want_reply options.term
        (size_of options)
        []
        with_channel
      ≡ (ready (ok tt), with_pty)
  pub shell :
      transport.request_shell terminal.channel.inner options.want_reply with_pty
      ≡ (ready (ok tt), after)

module _ {World : Type 0} (environment : Environment World) (transport : Transport World)
    (session : SshSession) (options : TerminalOptions) where
  channel-Ensures :
      (context : OperationContext) (world : World)
      → Ensures
          (open_session_channel_with_context environment transport session context world)
          (λ channel after.
            (transport.channel_open_session world ≡ (ready (ok channel.inner), after))
            × (channel.context ≡ context)
            × (channel.operation_timeout ≡ session.config.operation_timeout))
  unfolding open_session_channel_with_context open_raw_session_channel_with_context remote_call
  channel-Ensures context world =
      >>=-Ensures (open_raw_session_channel_with_context environment transport session context) _
        world
        (timed-Ensures environment session.config.operation_timeout context _ world (λ limited.
          remote_call-Ensures environment limited (codes "open SSH session channel")
            transport.channel_open_session world))
        (λ channel after h. pure-Ensures _ after (h, refl, refl))

  terminal-Ensures :
      (context : OperationContext) (world : World)
      → Ensures
          (open_with_context environment transport session options context world)
          (λ terminal after.
            IsValidOptions options
            × IsOpened transport options terminal world after
            × (terminal.channel.context ≡ context)
            × (terminal.channel.operation_timeout ≡ session.config.operation_timeout))
  unfolding open_with_context request_pty_with_context request_shell_with_context
  terminal-Ensures context world =
      >>=-Ensures (lift (validate_terminal_options options)) _ world
        {P = λ _ s. IsValidOptions options × (s ≡ world)}
        (lift-Ensures (validate_terminal_options options) world
          (λ _ h. (validate_terminal_options-ok options h, refl)))
        (λ _ s (valid, same).
          timed-Ensures environment session.config.operation_timeout context _ s λ limited.
            >>=-Ensures (open_session_channel_with_context environment transport session context) _
              s (channel-Ensures context s)
              (λ channel s' (opened, own, timeout).
                >>=-Ensures
                  (request_pty_with_context environment transport channel options.want_reply
                    options.term (size_of options) [] limited)
                  _ s'
                  (remote_call-Ensures environment limited (codes "request remote PTY")
                    (transport.request_pty channel.inner options.want_reply options.term
                      (size_of options) [])
                    s')
                  (λ _ s'' pty.
                    >>=-Ensures
                      (request_shell_with_context environment transport channel options.want_reply
                        limited)
                      _ s''
                      (remote_call-Ensures environment limited (codes "request remote shell")
                        (transport.request_shell channel.inner options.want_reply) s'')
                      (λ _ after shell. pure-Ensures _ after (
                        valid,
                        record {
                          with_channel = s';
                          with_pty = s'';
                          opened =
                              subst
                                (λ w.
                                  transport.channel_open_session w ≡ (ready (ok channel.inner), s'))
                                same opened;
                          pty = pty;
                          shell = shell;
                        },
                        own,
                        timeout,
                      )))))

  -- If a terminal is opened, then its type is not blank, its columns and rows are positive, and it
  -- stands on a channel whose opening has succeeded and on which the request of the PTY, with the type
  -- and the size of the options, and after that the request of the shell have ended without an error,
  -- with nothing between these calls or after them. The channel has the caller's context and the session's time for an operation.
  pub open_with_context-ok :
      (context : OperationContext) (world : World) (terminal : TerminalSession transport.Channel)
      → (open_with_context environment transport session options context world).0
        ≡ ready (ok terminal)
      → IsValidOptions options
        × IsOpened transport options terminal world
            (open_with_context environment transport session options context world).1
        × (terminal.channel.context ≡ context)
        × (terminal.channel.operation_timeout ≡ session.config.operation_timeout)
  open_with_context-ok context world terminal h = (terminal-Ensures context world).ensured h
