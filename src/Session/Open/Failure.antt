-- ===== src/Session/Open/Failure.antt =====
-- src/core/session.rs: what an error of connecting tells.
use xssh_rust_lib.Base.{true, ok, ℕ, Text, codes, List, some, err, ◌≡◌, ◌⊎◌, inl, inr, refl}
use xssh_rust_lib.Base.Async.{Async, ready, fail_with, ◌>>=◌}
use xssh_rust_lib.Base.Async.Failing.{>>=-err, lift-err, fail_with-Raises}
use xssh_rust_lib.Error.{SshError, with_endpoint}
use xssh_rust_lib.Config.{socket_address, SshConfig, validate}
use xssh_rust_lib.Operation.{OperationContext, with_timeout_from_now}
use xssh_rust_lib.Operation.Within.{Environment, run_in}
use xssh_rust_lib.Operation.Within.Timed.{timed-err}
use xssh_rust_lib.Operation.Within.Laws.{run_in-names_operation}
use xssh_rust_lib.HostKey.Handler.{HostKeyVerifier}
use xssh_rust_lib.Auth.Client.{Client, AuthMethod}
use xssh_rust_lib.Auth.Plan.{authenticate}
use xssh_rust_lib.Session.Transport.{Transport}
use xssh_rust_lib.Session.Raw.{remote_call, channel_error, open_raw_direct_tcpip_with_context}
use xssh_rust_lib.Session.Open.{
  client_handler, classify_connect_error, Dialer, Shelf, at_endpoint, authenticate_session,
  connect_with_context, connect_stream_with_context, connect_via_jump_with_context,
}

-- An error names the endpoint of the settings and the operation that failed.
abbrev pub Names : SshConfig → Text → SshError → Type 0
Names config operation error =
    (error.context.host ≡ some config.host)
    × (error.context.port ≡ some config.port)
    × (error.context.operation ≡ some operation)

module _ {World : Type 0} (environment : Environment World) (config : SshConfig) where
  -- The limit of a stage that begins in this world.
  abbrev pub Limits : ℕ → OperationContext → World → OperationContext → Type 0
  Limits timeout context world limited =
      with_timeout_from_now (environment.around world) timeout context ≡ some limited

  -- A stage of connecting, by the name of its operation.
  abbrev pub stage :
      {A : Type 0} → OperationContext → Text → Async World SshError A → Async World SshError A
  stage limited operation code = at_endpoint config (run_in environment limited operation code)

  -- The stage ends with the error, and the error names it and the endpoint.
  abbrev pub Fails :
      {A : Type 0} → SshError → OperationContext → Text → Async World SshError A → World → Type 0
  Fails error limited operation code world =
      ((stage limited operation code world).0 ≡ ready (err error)) × Names config operation error

  stage-Fails :
      {A : Type 0} (limited : OperationContext) (operation : Text) (code : Async World SshError A)
      (world : World) {error : SshError}
      → (stage limited operation code world).0 ≡ ready (err error)
      → Fails error limited operation code world
  unfolding with_endpoint
  stage-Fails limited operation code world {error} h =
      let named =
        fail_with-Raises (with_endpoint config.host config.port)
          (run_in environment limited operation code) world {Q = Names config operation}
          (λ own failed. (
            refl,
            refl,
            run_in-names_operation environment limited operation code world own failed,
          )) in
      (h, named.raised h)

module _ (client : Client) (rounds : ℕ) (environment : Environment client.World)
    (config : SshConfig) (plan : List (AuthMethod client)) (context : OperationContext) where
  -- The authentication fails, with its own time limit.
  abbrev pub Unauthenticated : SshError → Text → client.World → Type 0
  Unauthenticated error operation world =
      (limited : OperationContext) × Limits environment config config.authentication_timeout context
        world limited
      × Fails environment config error limited operation
          (authenticate client rounds config.username plan) world

  authenticate_session-err :
      (operation : Text) (world : client.World) {error : SshError}
      → (authenticate_session client rounds environment operation config plan context world).0
        ≡ ready (err error)
      → Unauthenticated error operation world
  unfolding authenticate_session
  authenticate_session-err operation world h =
      let (limited, limits, failed) =
        timed-err environment config.authentication_timeout context _ world h in
      let code = authenticate client rounds config.username plan in
      elim (>>=-err (stage environment config limited operation code) _ world failed) [
        | inl own ↦
            (limited, limits, stage-Fails environment config limited operation code world own)
        | inr (_, _, other) ↦ absurd cc
      ]

  module _ (transport : Transport client.World) {K : Type 0}
      (dialer : Dialer K client.World transport.Stream) (verifier : HostKeyVerifier K)
      (shelf : Shelf verifier.Store client.World) where
    -- The handshake with the server, over a connection of its own or over a stream.
    abbrev pub handshake : Async client.World SshError (Unit {0})
    handshake = fail_with classify_connect_error (
        dialer.connect config.keepalive_interval true (socket_address config)
          (client_handler verifier shelf config))

    abbrev pub handshake_over : transport.Stream → Async client.World SshError (Unit {0})
    handshake_over stream = fail_with classify_connect_error (
        dialer.connect_stream config.keepalive_interval true stream
          (client_handler verifier shelf config))

    abbrev pub opening : Async client.World SshError transport.Channel
    opening =
        fail_with channel_error
          (transport.channel_open_direct_tcpip config.host config.port (codes "127.0.0.1") 0)

    -- How connecting fails after the settings were accepted: the handshake fails, or it succeeds and
    -- the authentication after it fails.
    abbrev pub Unconnected : SshError → OperationContext → client.World → Type 0
    Unconnected error limited world =
        let name = codes "ssh connect and handshake" in
        Fails environment config error limited name handshake world
        ⊎ (((stage environment config limited name handshake world).0 ≡ ready (ok tt))
            × Unauthenticated error (codes "ssh authentication")
                (stage environment config limited name handshake world).1)

    -- The same over a stream that another session has opened.
    abbrev pub UnconnectedOver :
        SshError → OperationContext → transport.Stream → client.World → Type 0
    UnconnectedOver error limited stream world =
        let name = codes "ssh ProxyJump connect and handshake" in
        let over = handshake_over stream in
        Fails environment config error limited name over world
        ⊎ (((stage environment config limited name over world).0 ≡ ready (ok tt))
            × Unauthenticated error (codes "ssh authentication through ProxyJump")
                (stage environment config limited name over world).1)

    -- Through another session the channel to the endpoint may not be opened, too.
    abbrev pub Unjumped : SshError → OperationContext → client.World → Type 0
    Unjumped error limited world =
        let name = codes "open direct-tcpip channel" in
        Fails environment config error limited name opening world
        ⊎ ((channel : transport.Channel) × ((stage environment config limited name opening world).0
              ≡ ready (ok channel))
            × UnconnectedOver error limited (transport.into_stream channel)
                (stage environment config limited name opening world).1)

    -- An error of connecting is the one with which the settings are refused, or they are accepted and
    -- it is the error of the stage that failed: of the handshake, or, after a handshake that succeeded
    -- and in the world that it left, of the authentication. Under the time limit of its stage, the error
    -- names the host and the port of the settings and the operation of this stage.
    pub connect_with_context-err :
        (world : client.World) (error : SshError)
        → (connect_with_context client rounds environment transport dialer verifier shelf config
            plan context world).0
          ≡ ready (err error)
        → (validate config ≡ err error)
          ⊎ ((validate config ≡ ok tt)
              × (limited : OperationContext) × Limits environment config config.connect_timeout
                  context world limited
              × Unconnected error limited world)
    unfolding connect_with_context
    connect_with_context-err world error h = elim (lift-err (validate config) _ world h) [
      | inl refused ↦ inl refused
      | inr (_, accepted, rest) ↦
          let (limited, limits, failed) =
            timed-err environment config.connect_timeout context _ world rest in
          let name = codes "ssh connect and handshake" in
          inr (
            accepted,
            limited,
            limits,
            elim (>>=-err (stage environment config limited name handshake) _ world failed) [
              | inl own ↦ inl (stage-Fails environment config limited name handshake world own)
              | inr (_, done, last) ↦
                  inr (done, authenticate_session-err (codes "ssh authentication") _ last)
            ],
          )
    ]

    over-err :
        (limited : OperationContext) (stream : transport.Stream) (world : client.World)
        {error : SshError}
        → ((connect_stream_with_context client rounds environment transport dialer verifier shelf
                limited stream config
              >>= λ _.
                  authenticate_session client rounds environment
                    (codes "ssh authentication through ProxyJump")
                    config
                    plan
                    context)
            world).0
          ≡ ready (err error)
        → UnconnectedOver error limited stream world
    unfolding connect_stream_with_context
    over-err limited stream world h =
        let name = codes "ssh ProxyJump connect and handshake" in
        let over = handshake_over stream in
        elim (>>=-err (stage environment config limited name over) _ world h) [
          | inl own ↦ inl (stage-Fails environment config limited name over world own)
          | inr (_, done, last) ↦
              inr (
                done,
                authenticate_session-err (codes "ssh authentication through ProxyJump") _ last,
              )
        ]

    -- An error of connecting through another session is the one with which the settings are refused, or
    -- they are accepted and it is the error of the stage that failed: of the opening of the channel to
    -- the host and the port of the settings, of the handshake over the channel that was opened, or, after
    -- a handshake that succeeded, of the authentication, each in the world that the stage before has
    -- left. The error names this host and port and the operation of the stage.
    pub connect_via_jump_with_context-err :
        (world : client.World) (error : SshError)
        → (connect_via_jump_with_context client rounds environment transport dialer verifier shelf
            config plan context world).0
          ≡ ready (err error)
        → (validate config ≡ err error)
          ⊎ ((validate config ≡ ok tt)
              × (limited : OperationContext) × Limits environment config config.connect_timeout
                  context world limited
              × Unjumped error limited world)
    unfolding connect_via_jump_with_context open_raw_direct_tcpip_with_context remote_call
    connect_via_jump_with_context-err world error h = elim (lift-err (validate config) _ world h) [
      | inl refused ↦ inl refused
      | inr (_, accepted, rest) ↦
          let (limited, limits, failed) =
            timed-err environment config.connect_timeout context _ world rest in
          let name = codes "open direct-tcpip channel" in
          inr (
            accepted,
            limited,
            limits,
            elim (>>=-err (stage environment config limited name opening) _ world failed) [
              | inl own ↦ inl (stage-Fails environment config limited name opening world own)
              | inr (channel, done, last) ↦
                  inr (channel, done, over-err limited (transport.into_stream channel) _ last)
            ],
          )
    ]
