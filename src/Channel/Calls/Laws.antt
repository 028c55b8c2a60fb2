-- ===== src/Channel/Calls/Laws.antt =====
-- src/core/channel.rs, `SshChannel`: the requests that set their own time limit come to an end.
use xssh_rust_lib.Base.{ℕ, Text, Bool, List, Option, some, ok, err, ◌≡◌, ◌≢◌}
use xssh_rust_lib.Base.Async.{Async, Outcome, ready, panics, pending, fail_with}
use xssh_rust_lib.Base.Async.Failing.{Ends}
use xssh_rust_lib.Error.{SshError}
use xssh_rust_lib.Operation.{OperationContext}
use xssh_rust_lib.Operation.Within.{Environment}
use xssh_rust_lib.Operation.Within.Timed.{timed-Ends}
use xssh_rust_lib.Operation.Within.Laws.{run_in-ne-pending}
use xssh_rust_lib.Session.Raw.{remote_call, channel_error}
use xssh_rust_lib.Session.Transport.{Transport, Size}
use xssh_rust_lib.Channel.{SshChannelEvent}
use xssh_rust_lib.Channel.Calls.{
  SshChannel, under_default, forgiving, request_pty, request_shell, exec, request_subsystem, write,
  eof, window_change, close, next_event, request_pty_with_context, request_shell_with_context,
  exec_with_context, request_subsystem_with_context, write_with_context, eof_with_context,
  window_change_with_context, close_with_context, next_event_with_context,
}

forgiving-Ends :
    (o : Outcome SshError (Option SshChannelEvent)) → o ≢ pending → forgiving o ≢ pending
forgiving-Ends (ready (ok event)) n h = cc
forgiving-Ends (ready (err e)) n h = cc
forgiving-Ends panics n h = cc
forgiving-Ends pending n h = n h

module _ {World : Type 0} (environment : Environment World) where
  pub remote_call-Ends :
      {A : Type 0} (context : OperationContext) (operation : Text) (code : Async World Text A)
      (deadline : ℕ) (world : World)
      → context.deadline ≡ some deadline
      → Ends (remote_call environment context operation code world)
  unfolding remote_call
  remote_call-Ends context operation code deadline world h =
      run_in-ne-pending environment context operation (fail_with channel_error code) world deadline
        h

  module _ (transport : Transport World) where
    open transport use {Channel, Pty}

    default-Ends :
        {A : Type 0} (channel : SshChannel Channel) (operation : Text) (code : Async World Text A)
        (world : World)
        → Ends (
            under_default environment transport channel
              (λ c. remote_call environment c operation code)
              world)
    default-Ends channel operation code world =
        timed-Ends environment channel.operation_timeout channel.context
          (λ c. remote_call environment c operation code) world
          λ c deadline h. remote_call-Ends c operation code deadline world h

    next_event_with_context-Ends :
        (channel : SshChannel Channel) (context : OperationContext) (deadline : ℕ) (world : World)
        → context.deadline ≡ some deadline
        → Ends (next_event_with_context environment transport channel context world)
    unfolding next_event_with_context
    next_event_with_context-Ends channel context deadline world h =
        run_in-ne-pending environment context _ _ world deadline h

    -- Every request of a channel that is made under its default context comes to an end, even if the
    -- server never answers: it succeeds, fails or panics, and does not wait for ever.
    pub default_requests-Ends :
        (channel : SshChannel Channel) (want_reply : Bool) (term name : Text) (size : Size)
        (terminal_modes : List (Pty × ℕ)) (bytes : List ℕ) (columns rows : ℕ) (world : World)
        → Ends (request_pty environment transport channel want_reply term size terminal_modes world)
          × Ends (request_shell environment transport channel want_reply world)
          × Ends (exec environment transport channel want_reply bytes world)
          × Ends (request_subsystem environment transport channel want_reply name world)
          × Ends (write environment transport channel bytes world)
          × Ends (eof environment transport channel world)
          × Ends (window_change environment transport channel columns rows world)
          × Ends (close environment transport channel world)
          × Ends (next_event environment transport channel world)
    unfolding request_pty request_pty_with_context request_shell request_shell_with_context exec
        exec_with_context request_subsystem request_subsystem_with_context write write_with_context
        eof eof_with_context window_change window_change_with_context close close_with_context
        next_event
    default_requests-Ends channel want_reply term name size terminal_modes bytes columns rows
          world =
        (
          default-Ends channel _ _ world,
          default-Ends channel _ _ world,
          default-Ends channel _ _ world,
          default-Ends channel _ _ world,
          default-Ends channel _ _ world,
          default-Ends channel _ _ world,
          default-Ends channel _ _ world,
          default-Ends channel _ _ world,
          forgiving-Ends _ (
              timed-Ends environment channel.operation_timeout channel.context
                (next_event_with_context environment transport channel) world
                λ c deadline h. next_event_with_context-Ends channel c deadline world h),
        )
