-- ===== src/Channel/Open.antt =====
-- src/core/channel.rs: the channels that `SshSession` opens.
use xssh_rust_lib.Base.{ℕ, Text, codes}
use xssh_rust_lib.Base.Async.{Async, pure, lift, ◌>>=◌, ◌>>◌}
use xssh_rust_lib.Error.{SshError}
use xssh_rust_lib.Operation.{OperationContext}
use xssh_rust_lib.Operation.Within.{Environment, timed}
use xssh_rust_lib.Session.Transport.{Transport}
use xssh_rust_lib.Session.Raw.{
  SshSession, base_context, open_raw_session_channel_with_context,
  open_raw_direct_tcpip_with_context, open_raw_direct_streamlocal_with_context,
}
use xssh_rust_lib.Channel.Calls.{SshChannel, from_inner}
use xssh_rust_lib.Channel.Inputs.{validate_streamlocal_path, validate_direct_tcpip}

module _ {World : Type 0} (environment : Environment World) (transport : Transport World)
    (session : SshSession) where
  open transport use {Channel}

  -- `self.base_context().with_timeout_from_now(self.config().operation_timeout)`
  abbrev pub default_context : Async World SshError OperationContext
  default_context = timed environment session.config.operation_timeout (base_context session)

  unfoldable pub open_direct_tcpip_from_with_context :
      Text → ℕ → Text → ℕ → OperationContext → Async World SshError (SshChannel Channel)
  unfolding validate_direct_tcpip open_raw_direct_tcpip_with_context
  open_direct_tcpip_from_with_context target_host target_port originator_address originator_port
        context =
      do
        lift (validate_direct_tcpip target_host target_port originator_address)
        channel ←
            open_raw_direct_tcpip_with_context environment transport target_host target_port
              originator_address originator_port context
        pure (from_inner channel context session.config.operation_timeout)

  unfoldable pub open_direct_tcpip_from :
      Text → ℕ → Text → ℕ → Async World SshError (SshChannel Channel)
  unfolding open_direct_tcpip_from_with_context
  open_direct_tcpip_from target_host target_port originator_address originator_port = do
    context ← default_context
    open_direct_tcpip_from_with_context target_host target_port originator_address originator_port
        context

  unfoldable pub open_direct_tcpip_with_context :
      Text → ℕ → OperationContext → Async World SshError (SshChannel Channel)
  unfolding open_direct_tcpip_from_with_context
  open_direct_tcpip_with_context target_host target_port context =
      open_direct_tcpip_from_with_context target_host target_port (codes "127.0.0.1") 0 context

  unfoldable pub open_direct_tcpip : Text → ℕ → Async World SshError (SshChannel Channel)
  unfolding open_direct_tcpip_from_with_context
  open_direct_tcpip target_host target_port = do
    context ← default_context
    open_direct_tcpip_from_with_context target_host target_port (codes "127.0.0.1") 0 context

  unfoldable pub open_direct_streamlocal_with_context :
      Text → OperationContext → Async World SshError (SshChannel Channel)
  unfolding validate_streamlocal_path open_raw_direct_streamlocal_with_context
  open_direct_streamlocal_with_context socket_path context = do
    path ← lift (validate_streamlocal_path socket_path)
    channel ← open_raw_direct_streamlocal_with_context environment transport path context
    pure (from_inner channel context session.config.operation_timeout)

  unfoldable pub open_direct_streamlocal : Text → Async World SshError (SshChannel Channel)
  unfolding open_direct_streamlocal_with_context
  open_direct_streamlocal socket_path = do
    context ← default_context
    open_direct_streamlocal_with_context socket_path context

  unfoldable pub open_session_channel_with_context :
      OperationContext → Async World SshError (SshChannel Channel)
  unfolding open_raw_session_channel_with_context
  open_session_channel_with_context context = do
    channel ← open_raw_session_channel_with_context environment transport session context
    pure (from_inner channel context session.config.operation_timeout)

  unfoldable pub open_session_channel : Async World SshError (SshChannel Channel)
  unfolding open_session_channel_with_context
  open_session_channel = open_session_channel_with_context (base_context session)
