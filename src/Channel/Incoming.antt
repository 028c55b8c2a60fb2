-- ===== src/Channel/Incoming.antt =====
-- src/core/channel.rs and src/core/session.rs: connections that come in through a remote forward. The
-- handler of the connection sends them to a queue of `tokio::sync::mpsc`, from which the session
-- takes them; what both ends of a queue do to the world is a parameter.
use xssh_rust_lib.Base.{ℕ, Text, codes, Option, none, some, Result, ok}
use xssh_rust_lib.Base.Fallible.{◌>>=◌}
use xssh_rust_lib.Base.Async
use xssh_rust_lib.Base.Async.{Async, fail_with, lift}
use xssh_rust_lib.Error
use xssh_rust_lib.Error.{SshError}
use xssh_rust_lib.Operation.{OperationContext}
use xssh_rust_lib.Operation.Within.{Environment, run_in}
use xssh_rust_lib.Session.Raw.{SshSession, base_context}
use xssh_rust_lib.Channel.Calls.{from_inner}
use xssh_rust_lib.Channel.Forward.{
  PendingForwardedTcpip, PendingForwardedStreamlocal, SshForwardedTcpipChannel,
  SshForwardedStreamlocalChannel, port_or, port_error,
}

module _ {Inner : Type 0} (session : SshSession) where
  -- What is made of a pending connection: its ports must be ports of TCP.
  unfoldable pub accept_tcpip :
      PendingForwardedTcpip Inner → Result SshError (SshForwardedTcpipChannel Inner)
  unfolding port_or
  accept_tcpip pending = do
    connected_port ←
        port_or (port_error (codes "connected") pending.connected_port) pending.connected_port
    originator_port ←
        port_or (port_error (codes "originator") pending.originator_port) pending.originator_port
    ok (record {
      connected_address = pending.connected_address;
      connected_port = connected_port;
      originator_address = pending.originator_address;
      originator_port = originator_port;
      channel = from_inner pending.channel (base_context session) session.config.operation_timeout;
    })

  unfoldable pub accept_streamlocal :
      PendingForwardedStreamlocal Inner → SshForwardedStreamlocalChannel Inner
  accept_streamlocal pending = record {
    socket_path = pending.socket_path;
    channel = from_inner pending.channel (base_context session) session.config.operation_timeout;
  }

  accept_next :
      Option (PendingForwardedTcpip Inner)
      → Result SshError (Option (SshForwardedTcpipChannel Inner))
  unfolding accept_tcpip
  accept_next none = ok none
  accept_next (some pending) = do channel ← accept_tcpip pending; ok (some channel)

  accept_next_streamlocal :
      Option (PendingForwardedStreamlocal Inner) → Option (SshForwardedStreamlocalChannel Inner)
  unfolding accept_streamlocal
  accept_next_streamlocal none = none
  accept_next_streamlocal (some pending) = some (accept_streamlocal pending)

  module _ {World : Type 0} (environment : Environment World) where
    module _ (recv : Async World ⊥ (Option (PendingForwardedTcpip Inner))) where
      unfoldable pub next_raw_forwarded_tcpip_with_context :
          OperationContext → Async World SshError (Option (PendingForwardedTcpip Inner))
      next_raw_forwarded_tcpip_with_context context =
          run_in environment context (codes "wait for forwarded-tcpip channel")
            (fail_with (λ e. absurd e) recv)

      unfoldable pub next_forwarded_tcpip_with_context :
          OperationContext → Async World SshError (Option (SshForwardedTcpipChannel Inner))
      unfolding next_raw_forwarded_tcpip_with_context accept_next
      next_forwarded_tcpip_with_context context =
          Async.◌>>=◌ (next_raw_forwarded_tcpip_with_context context)
            λ pending. lift (accept_next pending)

      unfoldable pub next_forwarded_tcpip :
          Async World SshError (Option (SshForwardedTcpipChannel Inner))
      unfolding next_forwarded_tcpip_with_context
      next_forwarded_tcpip = next_forwarded_tcpip_with_context (base_context session)

    module _ (recv : Async World ⊥ (Option (PendingForwardedStreamlocal Inner))) where
      unfoldable pub next_raw_forwarded_streamlocal_with_context :
          OperationContext → Async World SshError (Option (PendingForwardedStreamlocal Inner))
      next_raw_forwarded_streamlocal_with_context context =
          run_in environment context (codes "wait for forwarded-streamlocal channel")
            (fail_with (λ e. absurd e) recv)

      unfoldable pub next_forwarded_streamlocal_with_context :
          OperationContext → Async World SshError (Option (SshForwardedStreamlocalChannel Inner))
      unfolding next_raw_forwarded_streamlocal_with_context accept_next_streamlocal
      next_forwarded_streamlocal_with_context context =
          Async.◌>>=◌ (next_raw_forwarded_streamlocal_with_context context)
            λ pending. Async.pure (accept_next_streamlocal pending)

      unfoldable pub next_forwarded_streamlocal :
          Async World SshError (Option (SshForwardedStreamlocalChannel Inner))
      unfolding next_forwarded_streamlocal_with_context
      next_forwarded_streamlocal = next_forwarded_streamlocal_with_context (base_context session)

-- The handler's side: `send` fails when the session has dropped its end.
module _ {World Inner : Type 0} where
  unfoldable pub server_channel_open_forwarded_tcpip :
      (PendingForwardedTcpip Inner → Async World (Unit {0}) (Unit {0}))
      → Inner
      → Text
      → ℕ
      → Text
      → ℕ
      → Async World SshError (Unit {0})
  server_channel_open_forwarded_tcpip send channel connected_address connected_port
        originator_address originator_port =
      fail_with (λ _. Error.channel (codes "forwarded-tcpip channel receiver is closed"))
        (send (record {
          channel = channel;
          connected_address = connected_address;
          connected_port = connected_port;
          originator_address = originator_address;
          originator_port = originator_port;
        }))

  unfoldable pub server_channel_open_forwarded_streamlocal :
      (PendingForwardedStreamlocal Inner → Async World (Unit {0}) (Unit {0}))
      → Inner
      → Text
      → Async World SshError (Unit {0})
  server_channel_open_forwarded_streamlocal send channel socket_path =
      fail_with (λ _. Error.channel (codes "forwarded-streamlocal channel receiver is closed"))
        (send (record { channel = channel; socket_path = socket_path }))
