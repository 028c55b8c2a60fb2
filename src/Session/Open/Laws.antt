-- ===== src/Session/Open/Laws.antt =====
-- src/core/session.rs: what a session that was set up has passed, directly or through a jump.
use xssh_rust_lib.Base.{ℕ, Text, codes, Bool, true, List, ◌∷◌, ◌++◌, Option, ok, ◌≡◌, refl}
use xssh_rust_lib.Base.Async.{Async, ready, lift, fail_with}
use xssh_rust_lib.Base.Async.Laws.{Ensures, >>=-Ensures, pure-Ensures, Ensures-mono}
use xssh_rust_lib.Base.Async.Failing.{lift-Ensures, fail_with-Ensures}
use xssh_rust_lib.Error.{SshError, with_endpoint}
use xssh_rust_lib.Config.{SshConfig, validate, socket_address}
use xssh_rust_lib.Config.Laws.{IsUsable, validate_iff}
use xssh_rust_lib.Operation.{OperationContext}
use xssh_rust_lib.Operation.Within.{Environment, run_in}
use xssh_rust_lib.Operation.Within.Laws.{run_in-Ensures}
use xssh_rust_lib.Operation.Within.Timed.{timed-Ensures}
use xssh_rust_lib.HostKey.Types.{trusted}
use xssh_rust_lib.HostKey.Tofu.{returned}
use xssh_rust_lib.HostKey.Handler.{HostKeyVerifier}
use xssh_rust_lib.HostKey.Handler.Laws.{check_server_key-ok}
use xssh_rust_lib.Auth.Client.{Client, AuthMethod}
use xssh_rust_lib.Auth.Method.{AuthOutcome, authenticate_method}
use xssh_rust_lib.Auth.Plan.{authenticate}
use xssh_rust_lib.Auth.Plan.Order.{authenticate-ok}
use xssh_rust_lib.Session.{classify_connect_error}
use xssh_rust_lib.Session.Transport.{Transport}
use xssh_rust_lib.Session.Raw.{SshSession}
use xssh_rust_lib.Session.Open.{
  KeyCheck, Dialer, Shelf, client_handler, at_endpoint, authenticate_session, connect_with_context,
}

-- The handler has let the handshake go on, for some key of the server.
abbrev pub Passed : {K World : Type 0} → KeyCheck K World → Type 0
Passed {K} {World} handler =
    (key : K) × (seen : World) × ((handler key seen).0 ≡ returned (ok true))

module _ {K : Type 0} (verifier : HostKeyVerifier K) {World : Type 0}
    (shelf : Shelf verifier.Store World) where
  -- The verifier has answered that the key of the server is trusted, for the host and the port.
  abbrev pub Verified : SshConfig → Type 0
  Verified config =
      (key : K) × (seen : World) × ((verifier.verify config.host config.port key
          (shelf.fetch seen)).0
        ≡ returned (ok trusted))

  Passed-Verified :
      (config : SshConfig) → Passed (client_handler verifier shelf config) → Verified config
  unfolding client_handler
  Passed-Verified config (key, seen, h) =
      (key, seen, (check_server_key-ok verifier config.host config.port key (shelf.fetch seen) h).0)

module _ (client : Client) (rounds : ℕ) (environment : Environment client.World) where
  -- The server has accepted a method of the plan for the user, and the world is the one that it left.
  abbrev pub Accepted : SshConfig → List (AuthMethod client) → client.World → Type 0
  Accepted config plan world =
      (tried : List (AuthMethod client)) × (method : AuthMethod client) × (untried : List
        (AuthMethod client))
      × (before : client.World) × (outcome : AuthOutcome) × (plan ≡ tried ++ method ∷ untried)
      × (outcome.accepted ≡ true)
      × (authenticate_method client rounds config.username method before
          ≡ (ready (ok outcome), world))

  authenticate-Ensures :
      (config : SshConfig) (plan : List (AuthMethod client)) (world : client.World)
      → Ensures
          (authenticate client rounds config.username plan world)
          (λ _ after. Accepted config plan after)
  authenticate-Ensures config plan world = record {
    ensured = λ h. authenticate-ok client rounds config.username plan world h;
  }

  -- The session that results keeps its settings and its context.
  abbrev pub Session :
      SshConfig → List (AuthMethod client) → OperationContext → SshSession → client.World → Type 0
  Session config plan context session world =
      (session.config ≡ config) × (session.operation_context ≡ context) × Accepted config plan world

  -- A call under a context whose errors name the endpoint.
  pub step-Ensures :
      {A : Type 0} (config : SshConfig) (context : OperationContext) (operation : Text)
      (code : Async client.World SshError A) (world : client.World) {P : A → client.World → Type 0}
      → Ensures (code world) P
      → Ensures (at_endpoint config (run_in environment context operation code) world) P
  step-Ensures config context operation code world inner =
      fail_with-Ensures (with_endpoint config.host config.port)
        (run_in environment context operation code) world
        (run_in-Ensures environment context operation code world inner)

  authenticate_session-Ensures :
      (operation : Text) (config : SshConfig) (plan : List (AuthMethod client))
      (context : OperationContext) (world : client.World)
      → Ensures
          (authenticate_session client rounds environment operation config plan context world)
          (Session config plan context)
  unfolding authenticate_session
  authenticate_session-Ensures operation config plan context world =
      let code = authenticate client rounds config.username plan in
      timed-Ensures environment config.authentication_timeout context _ world (λ limited.
        >>=-Ensures (at_endpoint config (run_in environment limited operation code)) _ world
          (step-Ensures config limited operation code world
            (authenticate-Ensures config plan world))
          (λ _ after accepted. pure-Ensures _ after (refl, refl, accepted)))

  -- What a connection that was set up has passed.
  abbrev pub SetUp :
      {K : Type 0} (verifier : HostKeyVerifier K) (shelf : Shelf verifier.Store client.World)
      → SshConfig
      → List (AuthMethod client)
      → OperationContext
      → SshSession
      → client.World
      → Type 0
  SetUp verifier shelf config plan context session world =
      IsUsable config × Verified verifier shelf config × Session config plan context session world

  module _ (transport : Transport client.World) {K : Type 0}
      (dialer : Dialer K client.World transport.Stream) (verifier : HostKeyVerifier K)
      (shelf : Shelf verifier.Store client.World) where
    pub validate-Ensures :
        (config : SshConfig) (world : client.World)
        → Ensures {E = SshError} (lift (validate config) world) (λ _ _. IsUsable config)
    validate-Ensures config world =
        lift-Ensures (validate config) world (λ _ h. (validate_iff config).0 h)

    pub handshake-Ensures :
        (dial : KeyCheck K client.World → Async client.World SshError (Unit {0}))
        → ((handler : KeyCheck K client.World) (world : client.World)
            → (dial handler world).0 ≡ ready (ok tt)
            → Passed handler)
        → (config : SshConfig) (context : OperationContext) (operation : Text)
          (world : client.World)
        → Ensures
            (at_endpoint config
              (run_in environment context operation
                (fail_with classify_connect_error (dial (client_handler verifier shelf config))))
              world)
            (λ _ _. Verified verifier shelf config)
    handshake-Ensures dial checks config context operation world =
        let handler = client_handler verifier shelf config in
        step-Ensures config context operation (fail_with classify_connect_error (dial handler))
          world
          (fail_with-Ensures classify_connect_error (dial handler) world (record {
            ensured = λ h. Passed-Verified verifier shelf config (checks handler world h);
          }))

    -- Authentication after a handshake that has verified the server.
    pub finish-Ensures :
        (operation : Text) (config : SshConfig) (plan : List (AuthMethod client))
        (context : OperationContext) (world : client.World)
        → IsUsable config
        → Verified verifier shelf config
        → Ensures
            (authenticate_session client rounds environment operation config plan context world)
            (SetUp verifier shelf config plan context)
    finish-Ensures operation config plan context world usable verified =
        Ensures-mono
          (authenticate_session client rounds environment operation config plan context world)
          (authenticate_session-Ensures operation config plan context world)
          (λ session s done. (usable, verified, done))

    connect-Ensures :
        ((keepalive : Option ℕ) (nodelay : Bool) (address : Text)
            (handler : KeyCheck K client.World) (world : client.World)
          → (dialer.connect keepalive nodelay address handler world).0 ≡ ready (ok tt)
          → Passed handler)
        → (config : SshConfig) (plan : List (AuthMethod client)) (context : OperationContext)
          (world : client.World)
        → Ensures
            (connect_with_context client rounds environment transport dialer verifier shelf config
              plan context world)
            (SetUp verifier shelf config plan context)
    unfolding connect_with_context
    connect-Ensures checks config plan context world =
        let dial = dialer.connect config.keepalive_interval true (socket_address config) in
        >>=-Ensures (lift (validate config)) _ world (validate-Ensures config world) (λ _ s usable.
          timed-Ensures environment config.connect_timeout context _ s λ limited.
            >>=-Ensures
              (at_endpoint config (
                run_in environment limited (codes "ssh connect and handshake")
                  (fail_with classify_connect_error (dial (client_handler verifier shelf config)))))
              _ s
              (handshake-Ensures dial
                (checks config.keepalive_interval true (socket_address config)) config limited
                (codes "ssh connect and handshake") s)
              (λ _ after verified.
                finish-Ensures (codes "ssh authentication") config plan context after usable
                  verified))

    -- Let `client::connect` succeed only where the handler has answered `true` for a key. If a
    -- connection is set up, then its settings are usable, the verifier has answered `trusted` to a key
    -- for their host and port, the server has accepted a method of the plan for their user, after which
    -- nothing has happened to the connection, and the session has these settings and the caller's
    -- context.
    pub connect_with_context-ok :
        ((keepalive : Option ℕ) (nodelay : Bool) (address : Text)
            (handler : KeyCheck K client.World) (world : client.World)
          → (dialer.connect keepalive nodelay address handler world).0 ≡ ready (ok tt)
          → Passed handler)
        → (config : SshConfig) (plan : List (AuthMethod client)) (context : OperationContext)
          (world : client.World) (session : SshSession)
        → (connect_with_context client rounds environment transport dialer verifier shelf config
            plan context world).0
          ≡ ready (ok session)
        → SetUp verifier shelf config plan context session
            (connect_with_context client rounds environment transport dialer verifier shelf config
              plan context world).1
    connect_with_context-ok checks config plan context world session h =
        (connect-Ensures checks config plan context world).ensured h
