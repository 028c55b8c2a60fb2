-- ===== src/Relay/Connection.antt =====
-- src/core/relay.rs: `open_channel` of a target, and `RelayConnection`, one relayed connection.
pub mod Opened
use xssh_rust_lib.Base.{ℕ, codes, Text}
use xssh_rust_lib.Base.Async.{Async, ◌>>=◌}
use xssh_rust_lib.Error.{SshError}
use xssh_rust_lib.Operation.{OperationContext}
use xssh_rust_lib.Operation.Within.{Environment, timed}
use xssh_rust_lib.Session.Transport.{Transport}
use xssh_rust_lib.Session.Raw.{SshSession}
use xssh_rust_lib.Channel.Calls.{SshChannel}
use xssh_rust_lib.Channel.Open.{
  open_direct_tcpip_with_context, open_direct_streamlocal_with_context,
}
use xssh_rust_lib.Channel.Stream.{SshChannelStream, into_stream}
use xssh_rust_lib.Channel.Relaying.{Relaying, RelayTexts, relay_streams}
use xssh_rust_lib.Relay.Target.{
  ForwardingTarget, tcp_target, streamlocal_target, ForwardingRelayOptions,
}

abbrev pub texts : RelayTexts
texts = record {
  operation = codes "relay forwarding connection";
  on_cancel = codes "forwarding relay was cancelled";
  on_failure = codes "forwarding relay failed";
}

module _ {World : Type 0} (environment : Environment World) (transport : Transport World)
    (session : SshSession) where
  open transport use {Channel}

  unfoldable pub open_channel :
      ForwardingTarget → OperationContext → Async World SshError (SshChannel Channel)
  unfolding open_direct_tcpip_with_context open_direct_streamlocal_with_context
  open_channel (tcp_target host port) context =
      open_direct_tcpip_with_context environment transport session host port context
  open_channel (streamlocal_target socket_path) context =
      open_direct_streamlocal_with_context environment transport session socket_path context

  -- `RelayConnection::run`; the local connection and the counters are part of the world.
  unfoldable pub run_connection :
      Relaying World (SshChannelStream transport.Stream)
      → ForwardingTarget
      → ForwardingRelayOptions
      → OperationContext
      → Async World SshError (Unit {0})
  unfolding open_channel into_stream relay_streams
  run_connection relaying target options context = do
    open_context ← timed environment options.connection_timeout context
    channel ← open_channel target open_context
    relay_streams relaying texts environment context (into_stream environment transport channel)
