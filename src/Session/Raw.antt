-- ===== src/Session/Raw.antt =====
-- src/core/session.rs: the requests of `SshSession` that return channels of `russh`, each one call of
-- the connection's handle under a context.
pub mod Laws
use xssh_rust_lib.Base.{ℕ, Text, codes, Option}
use xssh_rust_lib.Base.Async.{Async, fail_with, ◌>>=◌}
use xssh_rust_lib.Error
use xssh_rust_lib.Error.{SshError}
use xssh_rust_lib.Error.Kind.{ErrorKind}
use xssh_rust_lib.Config.{SshConfig}
use xssh_rust_lib.Operation.{OperationContext}
use xssh_rust_lib.Operation.Within.{Environment, run_in, timed}
use xssh_rust_lib.Session.Transport.{Transport}

-- The part of `SshSession` beside its handle and the receivers of forwarded connections.
pub record SshSession : Type 0 where
  pub config : SshConfig
  pub operation_context : OperationContext

abbrev pub base_context : SshSession → OperationContext
base_context session = session.operation_context

-- `SshError::from_source(ErrorKind::Channel, error.to_string(), error)`
abbrev pub channel_error : Text → SshError
channel_error shown = Error.from_source ErrorKind.channel shown shown

module _ {World : Type 0} (environment : Environment World) where
  -- A call of the crate under a context, its error as one of a channel.
  unfoldable pub remote_call :
      {A : Type 0} → OperationContext → Text → Async World Text A → Async World SshError A
  remote_call context operation code =
      run_in environment context operation (fail_with channel_error code)

  -- `run_with_timeout`
  abbrev pub run_with_timeout :
      {A : Type 0} → OperationContext → Text → ℕ → Async World SshError A → Async World SshError A
  run_with_timeout context operation timeout code = do
    limited ← timed environment timeout context
    run_in environment limited operation code

  -- `operation_context`, which `base_context` with the time for an operation is, too
  abbrev pub operation_context : SshSession → Async World SshError OperationContext
  operation_context session =
      timed environment session.config.operation_timeout session.operation_context

  module _ (transport : Transport World) where
    open transport use {Channel}

    unfoldable pub open_raw_session_channel_with_context :
        SshSession → OperationContext → Async World SshError Channel
    open_raw_session_channel_with_context session context =
        run_with_timeout context (codes "open SSH session channel") session.config.operation_timeout
          (fail_with channel_error transport.channel_open_session)

    unfoldable pub disconnect_with_context : OperationContext → Async World SshError (Unit {0})
    unfolding remote_call
    disconnect_with_context context =
        remote_call context (codes "disconnect SSH session")
          (transport.disconnect_by_application (codes "client closed session") (codes ""))

    unfoldable pub disconnect : SshSession → Async World SshError (Unit {0})
    unfolding disconnect_with_context
    disconnect session = do context ← operation_context session; disconnect_with_context context

    unfoldable pub open_raw_direct_tcpip_with_context :
        Text → ℕ → Text → ℕ → OperationContext → Async World SshError Channel
    unfolding remote_call
    open_raw_direct_tcpip_with_context target_host target_port originator_address originator_port
          context =
        remote_call context (codes "open direct-tcpip channel") (
          transport.channel_open_direct_tcpip target_host target_port originator_address
            originator_port)

    unfoldable pub open_raw_direct_streamlocal_with_context :
        Text → OperationContext → Async World SshError Channel
    unfolding remote_call
    open_raw_direct_streamlocal_with_context socket_path context =
        remote_call context (codes "open direct-streamlocal channel")
          (transport.channel_open_direct_streamlocal socket_path)

    unfoldable pub request_raw_tcpip_forward_with_context :
        Text → ℕ → OperationContext → Async World SshError ℕ
    unfolding remote_call
    request_raw_tcpip_forward_with_context address port context =
        remote_call context (codes "request remote tcpip forward")
          (transport.tcpip_forward address port)

    unfoldable pub cancel_raw_tcpip_forward_with_context :
        Text → ℕ → OperationContext → Async World SshError (Unit {0})
    unfolding remote_call
    cancel_raw_tcpip_forward_with_context address port context =
        remote_call context (codes "cancel remote tcpip forward")
          (transport.cancel_tcpip_forward address port)

    unfoldable pub request_raw_streamlocal_forward_with_context :
        Text → OperationContext → Async World SshError (Unit {0})
    unfolding remote_call
    request_raw_streamlocal_forward_with_context socket_path context =
        remote_call context (codes "request remote streamlocal forward")
          (transport.streamlocal_forward socket_path)

    unfoldable pub cancel_raw_streamlocal_forward_with_context :
        Text → OperationContext → Async World SshError (Unit {0})
    unfolding remote_call
    cancel_raw_streamlocal_forward_with_context socket_path context =
        remote_call context (codes "cancel remote streamlocal forward")
          (transport.cancel_streamlocal_forward socket_path)
