-- ===== src/Session/Open.antt =====
-- src/core/session.rs: how a session is set up, directly or through another one. The handle that a
-- connection gives is the one behind the `Client`; the queues of forwarded channels are not part of
-- the state.
pub mod Laws
pub mod Jump
pub mod Failure
pub mod Finish
use xssh_rust_lib.Base.{ℕ, Text, codes, Bool, true, List, Option, Result}
use xssh_rust_lib.Base.Async.{Async, pure, lift, fail_with, ◌>>=◌, ◌>>◌}
use xssh_rust_lib.Error.{SshError, with_endpoint}
use xssh_rust_lib.Config.{SshConfig, validate, socket_address}
use xssh_rust_lib.Operation.{OperationContext}
use xssh_rust_lib.Operation
use xssh_rust_lib.Operation.Within.{Environment, run_in, timed}
use xssh_rust_lib.HostKey.Tofu.{Call}
use xssh_rust_lib.HostKey.Handler.{HostKeyVerifier, check_server_key}
use xssh_rust_lib.Auth.Client.{Client, AuthMethod}
use xssh_rust_lib.Auth.Plan.{authenticate}
use xssh_rust_lib.Session.{classify_connect_error}
use xssh_rust_lib.Session.Transport.{Transport}
use xssh_rust_lib.Session.Raw.{SshSession, open_raw_direct_tcpip_with_context}

-- `check_server_key` as the crate calls it while it connects.
abbrev pub KeyCheck : Type 0 → Type 0 → Type 0
KeyCheck K World = K → World → Call (Result SshError Bool) × World

-- `client::connect` and `client::connect_stream`, with the fields of `client::Config` that are set:
-- the interval of keepalives and `nodelay`.
pub record Dialer (K World Stream : Type 0) : Type 0 where
  pub connect : Option ℕ → Bool → Text → KeyCheck K World → Async World SshError (Unit {0})
  pub connect_stream : Option ℕ → Bool → Stream → KeyCheck K World → Async World SshError (Unit {0})

-- Where the world keeps what a verifier keeps behind its `&self`.
pub record Shelf (Store World : Type 0) : Type 0 where
  pub fetch : World → Store
  pub replace : Store → World → World

module _ {K : Type 0} (verifier : HostKeyVerifier K) {World : Type 0}
    (shelf : Shelf verifier.Store World) where
  -- The handler that is made for a connection, by the host and the port of its settings.
  unfoldable pub client_handler : SshConfig → KeyCheck K World
  client_handler config key world =
      let (answer, store) =
        check_server_key verifier config.host config.port key (shelf.fetch world) in
      (answer, shelf.replace store world)

-- `map_err(|error| error.with_endpoint(host, port))`
abbrev pub at_endpoint :
    {World A : Type 0} → SshConfig → Async World SshError A → Async World SshError A
at_endpoint config code = fail_with (with_endpoint config.host config.port) code

module _ (client : Client) (rounds : ℕ) (environment : Environment client.World) where
  unfoldable pub authenticate_session :
      Text
      → SshConfig
      → List (AuthMethod client)
      → OperationContext
      → Async client.World SshError SshSession
  authenticate_session operation config plan context = do
    limited ← timed environment config.authentication_timeout context
    at_endpoint config
        (run_in environment limited operation (authenticate client rounds config.username plan))
    pure (record { config = config; operation_context = context })

  module _ (transport : Transport client.World) {K : Type 0}
      (dialer : Dialer K client.World transport.Stream) (verifier : HostKeyVerifier K)
      (shelf : Shelf verifier.Store client.World) where
    unfoldable pub connect_with_context :
        SshConfig
        → List (AuthMethod client)
        → OperationContext
        → Async client.World SshError SshSession
    unfolding authenticate_session
    connect_with_context config plan context = do
      lift (validate config)
      limited ← timed environment config.connect_timeout context
      at_endpoint config (
          run_in environment limited (codes "ssh connect and handshake") (
            fail_with classify_connect_error (
              dialer.connect config.keepalive_interval true (socket_address config)
                (client_handler verifier shelf config))))
      authenticate_session (codes "ssh authentication") config plan context

    unfoldable pub connect :
        SshConfig → List (AuthMethod client) → Async client.World SshError SshSession
    unfolding connect_with_context
    connect config plan = connect_with_context config plan Operation.new

    unfoldable pub connect_stream_with_context :
        OperationContext → transport.Stream → SshConfig → Async client.World SshError (Unit {0})
    connect_stream_with_context context stream config = at_endpoint config (
        run_in environment context (codes "ssh ProxyJump connect and handshake") (
          fail_with classify_connect_error (
            dialer.connect_stream config.keepalive_interval true stream
              (client_handler verifier shelf config))))

    -- `transport` is that of the session that is jumped through.
    unfoldable pub connect_via_jump_with_context :
        SshConfig
        → List (AuthMethod client)
        → OperationContext
        → Async client.World SshError SshSession
    unfolding authenticate_session connect_stream_with_context open_raw_direct_tcpip_with_context
    connect_via_jump_with_context config plan context = do
      lift (validate config)
      limited ← timed environment config.connect_timeout context
      channel ← at_endpoint config (
          open_raw_direct_tcpip_with_context environment transport config.host config.port
            (codes "127.0.0.1") 0 limited)
      connect_stream_with_context limited (transport.into_stream channel) config
      authenticate_session (codes "ssh authentication through ProxyJump") config plan context

    unfoldable pub connect_via_jump :
        SshConfig → List (AuthMethod client) → Async client.World SshError SshSession
    unfolding connect_via_jump_with_context
    connect_via_jump config plan = connect_via_jump_with_context config plan Operation.new
