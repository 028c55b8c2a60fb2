-- ===== src/Relay/Listener.antt =====
-- src/core/relay.rs: `RelayListener`, and how a relay is built around one.
pub mod Laws
use xssh_rust_lib.Base.{Text, codes, Option, none, some, Result, ok, err}
use xssh_rust_lib.Base.Fallible
use xssh_rust_lib.Base.Fallible.{map_err}
use xssh_rust_lib.Base.Async.{Async, pure, lift, fail_with, ◌>>=◌, ◌>>◌}
use xssh_rust_lib.Error
use xssh_rust_lib.Error.{SshError}
use xssh_rust_lib.Error.Kind.{ErrorKind}
use xssh_rust_lib.Relay.Policy.{IpAddr}
use xssh_rust_lib.Relay.Target.{ForwardingTarget, ForwardingRelayOptions, validate_relay_inputs}

-- The listeners of `tokio::net`; their errors are the text that they display.
pub record Net (World : Type 0) : Type 1 where
  pub TcpListener : Type 0
  pub UnixListener : Type 0
  pub Address : Type 0
  pub Io : Type 0
  pub ip : Address → IpAddr
  pub bind_tcp_listener : Text → Async World Text TcpListener
  pub bind_unix_listener : Text → Async World Text UnixListener
  pub tcp_local_addr : TcpListener → Result Text Address
  pub tcp_accept : TcpListener → Async World Text (Io × Address)
  pub unix_accept : UnixListener → Async World Text Io

-- `SshError::from_source(ErrorKind::Connection, …)`
abbrev pub connection_error : Text → Text → SshError
connection_error message shown = Error.from_source ErrorKind.connection message shown

module _ {World : Type 0} (net : Net World) where
  pub data RelayListener : Type 0 where
    tcp_listener : net.TcpListener → RelayListener
    unix_listener : net.UnixListener → Text → RelayListener

  unfoldable pub local_addr : RelayListener → Result SshError net.Address
  local_addr (tcp_listener listener) =
      map_err (connection_error (codes "failed to inspect forwarding listener address"))
        (net.tcp_local_addr listener)
  local_addr (unix_listener listener path) =
      err
        (Error.configuration (codes "Unix forwarding listener does not have an IP socket address"))

  unfoldable pub local_unix_path : RelayListener → Option Text
  local_unix_path (tcp_listener listener) = none
  local_unix_path (unix_listener listener path) = some path

  unfoldable pub accept : RelayListener → Async World SshError (net.Io × Option IpAddr)
  accept (tcp_listener listener) = do
    accepted ←
        fail_with (connection_error (codes "failed to accept forwarding TCP connection"))
          (net.tcp_accept listener)
    pure (accepted.0, some (net.ip accepted.1))
  accept (unix_listener listener path) = do
    stream ←
        fail_with (connection_error (codes "failed to accept forwarding Unix connection"))
          (net.unix_accept listener)
    pure (stream, none)

  -- `RelayRuntime` beside its session and its counters
  pub record Relay : Type 0 where
    pub listener : RelayListener
    pub target : ForwardingTarget
    pub options : ForwardingRelayOptions

  -- `RelayRuntime::new`
  unfoldable pub new_relay :
      RelayListener → ForwardingTarget → ForwardingRelayOptions → Result SshError Relay
  unfolding validate_relay_inputs
  new_relay listener target options =
      Fallible.◌>>◌ (validate_relay_inputs target options)
        (ok (record { listener = listener; target = target; options = options }))

  unfoldable pub from_tcp_listener :
      net.TcpListener → ForwardingTarget → ForwardingRelayOptions → Result SshError Relay
  unfolding new_relay
  from_tcp_listener listener target options = new_relay (tcp_listener listener) target options

  unfoldable pub bind_tcp :
      Text → ForwardingTarget → ForwardingRelayOptions → Async World SshError Relay
  unfolding from_tcp_listener validate_relay_inputs
  bind_tcp address target options = do
    lift (validate_relay_inputs target options)
    listener ←
        fail_with (connection_error (codes "failed to bind forwarding listener"))
          (net.bind_tcp_listener address)
    lift (from_tcp_listener listener target options)

  unfoldable pub from_unix_listener :
      net.UnixListener → Text → ForwardingTarget → ForwardingRelayOptions → Result SshError Relay
  unfolding new_relay
  from_unix_listener listener path target options =
      new_relay (unix_listener listener path) target options

  unfoldable pub bind_unix :
      Text → ForwardingTarget → ForwardingRelayOptions → Async World SshError Relay
  unfolding from_unix_listener validate_relay_inputs
  bind_unix path target options = do
    lift (validate_relay_inputs target options)
    listener ←
        fail_with (connection_error (codes "failed to bind Unix forwarding listener"))
          (net.bind_unix_listener path)
    lift (from_unix_listener listener path target options)
