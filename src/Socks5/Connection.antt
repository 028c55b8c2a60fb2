-- ===== src/Socks5/Connection.antt =====
-- src/core/socks5.rs, `handle_connection`: one client of the proxy, from its greeting to the end of its
-- connection. The state is the client's socket and the world behind the session.
pub mod Entitled
use xssh_rust_lib.Base.{
  ℕ, codes, Text, Bool, Option, Result, ok, err, not, ◌==◌, nat_eq, if◌then◌else◌,
}
use xssh_rust_lib.Base.Async.{Async, Outcome, raise, ◌>>=◌, ◌>>◌}
use xssh_rust_lib.Base.Async.Parts.{on_first, on_second, attempt, ignore}
use xssh_rust_lib.Error.{SshError}
use xssh_rust_lib.Operation.{OperationContext}
use xssh_rust_lib.Operation.Within.{Environment, timed}
use xssh_rust_lib.Session.Transport.{Transport}
use xssh_rust_lib.Session.Raw.{SshSession}
use xssh_rust_lib.Channel.Calls.{SshChannel}
use xssh_rust_lib.Channel.Open.{open_direct_tcpip_with_context}
use xssh_rust_lib.Channel.Stream.{SshChannelStream, into_stream}
use xssh_rust_lib.Channel.Relaying.{Relaying, RelayTexts, relay_streams}
use xssh_rust_lib.Socks5.Options.{Socks5ProxyOptions}
use xssh_rust_lib.Socks5.Stream.{Network, Socket}
use xssh_rust_lib.Socks5.Handshake.{
  ConnectRequest, RequestError, ReplyCode, succeeded, general_failure, command_not_supported,
  authenticate, read_connect_request, write_reply, socks5_connect,
}

abbrev pub texts : RelayTexts
texts = record {
  operation = codes "relay SOCKS5 connection";
  on_cancel = codes "SOCKS5 relay was cancelled";
  on_failure = codes "SOCKS5 relay failed";
}

-- The world's own surroundings, as they are beside a socket.
abbrev pub beside : {World : Type 0} → Environment (Socket × World) → Socket → Environment World
beside environment socket = record {
  around = λ world. environment.around (socket, world);
  abandoned = λ operation world world'.
      (environment.abandoned operation (socket, world) (socket, world')).1;
}

module _ {World : Type 0} (network : Network) where
  abbrev pub reply : OperationContext → ReplyCode → Async (Socket × World) SshError (Unit {0})
  reply limited code = on_first (write_reply network limited code)

  -- `let _ = write_reply(…).await; return Err(error);`
  abbrev pub refuse :
      {A : Type 0} → OperationContext → ReplyCode → SshError → Async (Socket × World) SshError A
  refuse limited code error = ignore (reply limited code) >> raise error

module _ {World : Type 0} (network : Network) (environment : Environment (Socket × World))
    (transport : Transport World)
    (relaying : Relaying (Socket × World) (SshChannelStream transport.Stream))
    (session : SshSession) (options : Socks5ProxyOptions) where
  open transport use {Channel}

  unfoldable pub open_target :
      OperationContext → ConnectRequest → Async (Socket × World) SshError (SshChannel Channel)
  unfolding open_direct_tcpip_with_context
  open_target limited request s =
      on_second
        (open_direct_tcpip_with_context (beside environment s.0) transport session request.host
          request.port limited)
        s

  -- A request that was read.
  unfoldable pub serve :
      OperationContext
      → OperationContext
      → ConnectRequest
      → Async (Socket × World) SshError (Unit {0})
  unfolding open_target write_reply relay_streams into_stream
  serve context limited request =
      if not (request.command == socks5_connect)
      then reply network limited command_not_supported
      else do
        channel ← attempt (open_target limited request) (refuse network limited general_failure)
        reply network limited succeeded
        λ s.
            relay_streams relaying texts environment context
              (into_stream (beside environment s.0) transport channel) s

  unfoldable pub handle_connection : OperationContext → Async (Socket × World) SshError (Unit {0})
  unfolding serve authenticate read_connect_request write_reply
  handle_connection context = do
    limited ← timed environment options.handshake_timeout context
    on_first (authenticate network limited options.authentication)
    request ←
        attempt (on_first (read_connect_request network limited))
          (λ failure. refuse network limited failure.code failure.error)
    serve context limited request
