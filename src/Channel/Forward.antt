-- ===== src/Channel/Forward.antt =====
-- src/core/channel.rs: the listeners that a session asks the server for, and their connections.
-- The queue from which connections come is given by what waiting for the next one does.
pub mod Ports
use xssh_rust_lib.Base.{
  ℕ, ◌^◌, Text, codes, Bool, true, false, ◌++◌, Option, none, some, Result, ok, err, ltb, ◌==◌,
  nat_eq, if◌then◌else◌,
}
use xssh_rust_lib.Base.Async.{Async, pure, raise, lift, ◌>>=◌, ◌>>◌}
use xssh_rust_lib.Base.Str.Decimal.{to_decimal}
use xssh_rust_lib.Error
use xssh_rust_lib.Error.{SshError}
use xssh_rust_lib.Error.Kind.{ErrorKind}
use xssh_rust_lib.Operation.{OperationContext}
use xssh_rust_lib.Operation.Within.{Environment, run_in}
use xssh_rust_lib.Session.Transport.{Transport}
use xssh_rust_lib.Session.Raw.{
  SshSession, base_context, request_raw_tcpip_forward_with_context,
  cancel_raw_tcpip_forward_with_context, request_raw_streamlocal_forward_with_context,
  cancel_raw_streamlocal_forward_with_context,
}
use xssh_rust_lib.Channel.Calls.{SshChannel, from_inner}
use xssh_rust_lib.Channel.Inputs.{validate_streamlocal_path}
use xssh_rust_lib.Channel.Open.{default_context}

pub record SshRemoteTcpipForward : Type 0 where
  pub address : Text
  pub port : ℕ

pub record SshRemoteStreamlocalForward : Type 0 where
  pub socket_path : Text

pub record PendingForwardedTcpip (Inner : Type 0) : Type 0 where
  pub channel : Inner
  pub connected_address : Text
  pub connected_port : ℕ
  pub originator_address : Text
  pub originator_port : ℕ

pub record PendingForwardedStreamlocal (Inner : Type 0) : Type 0 where
  pub channel : Inner
  pub socket_path : Text

pub record SshForwardedTcpipChannel (Inner : Type 0) : Type 0 where
  pub connected_address : Text
  pub connected_port : ℕ
  pub originator_address : Text
  pub originator_port : ℕ
  pub channel : SshChannel Inner

pub record SshForwardedStreamlocalChannel (Inner : Type 0) : Type 0 where
  pub socket_path : Text
  pub channel : SshChannel Inner

-- `u16::try_from` of a port as the protocol sends it
unfoldable pub port_or : SshError → ℕ → Result SshError ℕ
port_or error port = if ltb port (2 ^ 16) then ok port else err error

-- The port that a listener has, from the one that was asked for and the one that the server returned.
unfoldable pub effective_port : ℕ → ℕ → Result SshError ℕ
unfolding port_or
effective_port port returned =
    if returned == 0
    then ok port
    else port_or
        (Error.from_source ErrorKind.protocol
          (codes "SSH server returned invalid forwarded port " ++ to_decimal returned)
          (codes "forwarded port exceeds the TCP port range"))
        returned

abbrev pub port_error : Text → ℕ → SshError
port_error which port = Error.protocol (
    codes "forwarded-tcpip "
    ++ (which ++ (codes " port " ++ (to_decimal port ++ codes " is outside the TCP port range"))))

module _ {World : Type 0} (environment : Environment World) (transport : Transport World)
    (session : SshSession) where
  open transport use {Channel}

  unfoldable pub request_remote_tcpip_forward_with_context :
      Text → ℕ → OperationContext → Async World SshError SshRemoteTcpipForward
  unfolding request_raw_tcpip_forward_with_context effective_port
  request_remote_tcpip_forward_with_context address port context = do
    returned ← request_raw_tcpip_forward_with_context environment transport address port context
    effective ← lift (effective_port port returned)
    if effective == 0
        then raise
            (Error.protocol (codes "SSH server did not return a port for a dynamic remote forward"))
        else pure (record { address = address; port = effective })

  unfoldable pub request_remote_tcpip_forward :
      Text → ℕ → Async World SshError SshRemoteTcpipForward
  unfolding request_remote_tcpip_forward_with_context
  request_remote_tcpip_forward address port = do
    context ← default_context environment transport session
    request_remote_tcpip_forward_with_context address port context

  unfoldable pub cancel_remote_tcpip_forward_with_context :
      SshRemoteTcpipForward → OperationContext → Async World SshError (Unit {0})
  unfolding cancel_raw_tcpip_forward_with_context
  cancel_remote_tcpip_forward_with_context forward context =
      cancel_raw_tcpip_forward_with_context environment transport forward.address forward.port
        context

  unfoldable pub cancel_remote_tcpip_forward :
      SshRemoteTcpipForward → Async World SshError (Unit {0})
  unfolding cancel_remote_tcpip_forward_with_context
  cancel_remote_tcpip_forward forward = do
    context ← default_context environment transport session
    cancel_remote_tcpip_forward_with_context forward context

  unfoldable pub request_remote_streamlocal_forward_with_context :
      Text → OperationContext → Async World SshError SshRemoteStreamlocalForward
  unfolding request_raw_streamlocal_forward_with_context validate_streamlocal_path
  request_remote_streamlocal_forward_with_context socket_path context = do
    path ← lift (validate_streamlocal_path socket_path)
    request_raw_streamlocal_forward_with_context environment transport path context
    pure (record { socket_path = path })

  unfoldable pub request_remote_streamlocal_forward :
      Text → Async World SshError SshRemoteStreamlocalForward
  unfolding request_remote_streamlocal_forward_with_context
  request_remote_streamlocal_forward socket_path = do
    context ← default_context environment transport session
    request_remote_streamlocal_forward_with_context socket_path context

  unfoldable pub cancel_remote_streamlocal_forward_with_context :
      SshRemoteStreamlocalForward → OperationContext → Async World SshError (Unit {0})
  unfolding cancel_raw_streamlocal_forward_with_context
  cancel_remote_streamlocal_forward_with_context forward context =
      cancel_raw_streamlocal_forward_with_context environment transport forward.socket_path context

  unfoldable pub cancel_remote_streamlocal_forward :
      SshRemoteStreamlocalForward → Async World SshError (Unit {0})
  unfolding cancel_remote_streamlocal_forward_with_context
  cancel_remote_streamlocal_forward forward = do
    context ← default_context environment transport session
    cancel_remote_streamlocal_forward_with_context forward context
