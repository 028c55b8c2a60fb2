-- ===== src/Session/Open/Jump.antt =====
-- src/core/session.rs, `connect_via_jump_with_context`: what a session through another one has passed.
use xssh_rust_lib.Base.{ℕ, codes, Bool, true, List, Option, ok, ◌≡◌}
use xssh_rust_lib.Base.Async.{ready, lift, fail_with}
use xssh_rust_lib.Base.Async.Laws.{Ensures, >>=-Ensures, Ensures-mono}
use xssh_rust_lib.Base.Async.Failing.{fail_with-Ensures}
use xssh_rust_lib.Config.{SshConfig, validate}
use xssh_rust_lib.Operation.{OperationContext}
use xssh_rust_lib.Operation.Within.Timed.{timed-Ensures}
use xssh_rust_lib.Operation.Within.{Environment}
use xssh_rust_lib.HostKey.Handler.{HostKeyVerifier}
use xssh_rust_lib.Auth.Client.{Client, AuthMethod}
use xssh_rust_lib.Session.Transport.{Transport}
use xssh_rust_lib.Session.Raw.{
  SshSession, remote_call, channel_error, open_raw_direct_tcpip_with_context,
}
use xssh_rust_lib.Session.Open.{
  KeyCheck, Dialer, Shelf, at_endpoint, authenticate_session, connect_stream_with_context,
  connect_via_jump_with_context,
}
use xssh_rust_lib.Session.Open.Laws.{
  Passed, SetUp, step-Ensures, validate-Ensures, handshake-Ensures, finish-Ensures,
}

-- The session in between has opened a channel to the target.
abbrev pub Tunnelled : {World : Type 0} → Transport World → SshConfig → Type 0
Tunnelled {World} transport config =
    (channel : transport.Channel) × (before : World) × ((transport.channel_open_direct_tcpip
        config.host config.port (codes "127.0.0.1") 0 before).0
      ≡ ready (ok channel))

module _ (client : Client) (rounds : ℕ) (environment : Environment client.World)
    (transport : Transport client.World) {K : Type 0}
    (dialer : Dialer K client.World transport.Stream) (verifier : HostKeyVerifier K)
    (shelf : Shelf verifier.Store client.World) where
  tunnel-Ensures :
      (config : SshConfig) (context : OperationContext) (world : client.World)
      → Ensures
          (at_endpoint config
            (open_raw_direct_tcpip_with_context environment transport config.host config.port
              (codes "127.0.0.1")
              0
              context)
            world)
          (λ _ _. Tunnelled transport config)
  unfolding open_raw_direct_tcpip_with_context remote_call
  tunnel-Ensures config context world =
      let code =
        transport.channel_open_direct_tcpip config.host config.port (codes "127.0.0.1") 0 in
      step-Ensures client rounds environment config context (codes "open direct-tcpip channel")
        (fail_with channel_error code) world
        (fail_with-Ensures channel_error code world (record { ensured = λ {a} h. (a, world, h) }))

  jump-Ensures :
      ((keepalive : Option ℕ) (nodelay : Bool) (stream : transport.Stream)
          (handler : KeyCheck K client.World) (world : client.World)
        → (dialer.connect_stream keepalive nodelay stream handler world).0 ≡ ready (ok tt)
        → Passed handler)
      → (config : SshConfig) (plan : List (AuthMethod client)) (context : OperationContext)
        (world : client.World)
      → Ensures
          (connect_via_jump_with_context client rounds environment transport dialer verifier shelf
            config plan context world)
          (λ session after.
            Tunnelled transport config
            × SetUp client rounds environment verifier shelf config plan context session after)
  unfolding connect_via_jump_with_context connect_stream_with_context
  jump-Ensures checks config plan context world =
      >>=-Ensures (lift (validate config)) _ world
        (validate-Ensures client rounds environment transport dialer verifier shelf config world)
        (λ _ s usable. timed-Ensures environment config.connect_timeout context _ s λ limited.
          >>=-Ensures
            (at_endpoint config (
              open_raw_direct_tcpip_with_context environment transport config.host config.port
                (codes "127.0.0.1") 0 limited))
            _ s (tunnel-Ensures config limited s)
            (λ channel s' tunnelled.
              let stream = transport.into_stream channel in
              let dial = dialer.connect_stream config.keepalive_interval true stream in
              >>=-Ensures
                (connect_stream_with_context client rounds environment transport dialer verifier
                  shelf limited stream config)
                _ s'
                (handshake-Ensures client rounds environment transport dialer verifier shelf dial
                  (checks config.keepalive_interval true stream) config limited
                  (codes "ssh ProxyJump connect and handshake") s')
                (λ _ after verified.
                  Ensures-mono
                    (authenticate_session client rounds environment
                      (codes "ssh authentication through ProxyJump") config plan context after)
                    (finish-Ensures client rounds environment transport dialer verifier shelf
                      (codes "ssh authentication through ProxyJump") config plan context after
                      usable verified)
                    (λ session last done. (tunnelled, done)))))

  -- Let `client::connect_stream` succeed only where the handler has answered `true` for a key. If a
  -- connection through another session is set up, then its settings are usable, the session in between
  -- has opened a channel to the host and port of these settings, the verifier has answered `trusted` to
  -- a key for this host and port, the server has accepted a method of the plan for the user, after which
  -- nothing has happened to the connection, and the session has these settings and the caller's context.
  pub connect_via_jump_with_context-ok :
      ((keepalive : Option ℕ) (nodelay : Bool) (stream : transport.Stream)
          (handler : KeyCheck K client.World) (world : client.World)
        → (dialer.connect_stream keepalive nodelay stream handler world).0 ≡ ready (ok tt)
        → Passed handler)
      → (config : SshConfig) (plan : List (AuthMethod client)) (context : OperationContext)
        (world : client.World) (session : SshSession)
      → (connect_via_jump_with_context client rounds environment transport dialer verifier shelf
          config plan context world).0
        ≡ ready (ok session)
      → Tunnelled transport config
        × SetUp client rounds environment verifier shelf config plan context session
            (connect_via_jump_with_context client rounds environment transport dialer verifier shelf
              config plan context world).1
  connect_via_jump_with_context-ok checks config plan context world session h =
      (jump-Ensures checks config plan context world).ensured h
