-- ===== src/Session/Open/Finish.antt =====
-- src/core/session.rs: connecting comes to an end.
use xssh_rust_lib.Base.{ℕ, Text, codes, List, some, ◌≡◌}
use xssh_rust_lib.Base.Async.{Async, lift, fail_with}
use xssh_rust_lib.Base.Async.Failing.{Ends, >>=-Ends, lift-Ends, fail_with-Ends}
use xssh_rust_lib.Error.{SshError, with_endpoint}
use xssh_rust_lib.Config.{SshConfig, validate}
use xssh_rust_lib.Operation.{OperationContext}
use xssh_rust_lib.Operation.Within.{Environment, run_in}
use xssh_rust_lib.Operation.Within.Timed.{timed-Ends}
use xssh_rust_lib.Operation.Within.Laws.{run_in-ne-pending}
use xssh_rust_lib.HostKey.Handler.{HostKeyVerifier}
use xssh_rust_lib.Auth.Client.{Client, AuthMethod}
use xssh_rust_lib.Auth.Plan.{authenticate}
use xssh_rust_lib.Session.Transport.{Transport}
use xssh_rust_lib.Session.Raw.{remote_call, channel_error, open_raw_direct_tcpip_with_context}
use xssh_rust_lib.Session.Open.{
  Dialer, Shelf, at_endpoint, authenticate_session, connect_with_context,
  connect_stream_with_context, connect_via_jump_with_context,
}

module _ {World : Type 0} (environment : Environment World) (config : SshConfig) where
  step-Ends :
      {A : Type 0} (context : OperationContext) (operation : Text) (code : Async World SshError A)
      (deadline : ℕ) (world : World)
      → context.deadline ≡ some deadline
      → Ends (at_endpoint config (run_in environment context operation code) world)
  step-Ends context operation code deadline world h =
      fail_with-Ends (with_endpoint config.host config.port)
        (run_in environment context operation code) world
        (run_in-ne-pending environment context operation code world deadline h)

module _ (client : Client) (rounds : ℕ) (environment : Environment client.World) where
  authenticate_session-Ends :
      (operation : Text) (config : SshConfig) (plan : List (AuthMethod client))
      (context : OperationContext) (world : client.World)
      → Ends (authenticate_session client rounds environment operation config plan context world)
  unfolding authenticate_session
  authenticate_session-Ends operation config plan context world =
      let code = authenticate client rounds config.username plan in
      timed-Ends environment config.authentication_timeout context _ world (λ limited deadline set.
        >>=-Ends (at_endpoint config (run_in environment limited operation code)) _ world
          (step-Ends environment config limited operation code deadline world set) (λ _ s h. cc))

  module _ (transport : Transport client.World) {K : Type 0}
      (dialer : Dialer K client.World transport.Stream) (verifier : HostKeyVerifier K)
      (shelf : Shelf verifier.Store client.World) (config : SshConfig)
      (plan : List (AuthMethod client)) (context : OperationContext) (world : client.World) where
    connect-Ends : Ends (
        connect_with_context client rounds environment transport dialer verifier shelf config plan
          context world)
    unfolding connect_with_context
    connect-Ends =
        >>=-Ends (lift (validate config)) _ world (lift-Ends (validate config) world) (λ _ s.
          timed-Ends environment config.connect_timeout context _ s λ limited deadline set.
            >>=-Ends
              (at_endpoint config (run_in environment _ (codes "ssh connect and handshake") _)) _ s
              (step-Ends environment config _ (codes "ssh connect and handshake") _ deadline s set)
              (λ _ s'.
                authenticate_session-Ends (codes "ssh authentication") config plan context s'))

    jump-Ends : Ends (
        connect_via_jump_with_context client rounds environment transport dialer verifier shelf
          config plan context world)
    unfolding connect_via_jump_with_context connect_stream_with_context
        open_raw_direct_tcpip_with_context remote_call
    jump-Ends =
        >>=-Ends (lift (validate config)) _ world (lift-Ends (validate config) world) (λ _ s.
          let opened =
            transport.channel_open_direct_tcpip config.host config.port (codes "127.0.0.1") 0 in
          timed-Ends environment config.connect_timeout context _ s λ limited deadline set.
            >>=-Ends
              (at_endpoint config (
                run_in environment limited (codes "open direct-tcpip channel")
                  (fail_with channel_error opened)))
              _ s
              (step-Ends environment config limited (codes "open direct-tcpip channel")
                (fail_with channel_error opened) deadline s set)
              (λ channel s'.
                >>=-Ends
                  (connect_stream_with_context client rounds environment transport dialer verifier
                    shelf limited (transport.into_stream channel) config)
                  _ s'
                  (step-Ends environment config limited
                    (codes "ssh ProxyJump connect and handshake") _ deadline s' set)
                  (λ _ s''.
                    authenticate_session-Ends (codes "ssh authentication through ProxyJump") config
                      plan context s'')))

    -- Connecting comes to an end, directly and through another session, whatever the settings and the
    -- context, even where the server, the session in between or a method of the plan never answers: it
    -- succeeds, fails or panics, and does not wait for ever.
    pub connects-Ends :
        Ends (
          connect_with_context client rounds environment transport dialer verifier shelf config plan
            context world)
        × Ends (
            connect_via_jump_with_context client rounds environment transport dialer verifier shelf
              config plan context world)
    connects-Ends = (connect-Ends, jump-Ends)
