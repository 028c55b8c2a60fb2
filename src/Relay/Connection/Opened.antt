-- ===== src/Relay/Connection/Opened.antt =====
-- src/core/relay.rs, `open_channel`: the channel of a target.
use xssh_rust_lib.Base.{
  codes, Text, Option, none, some, Result, ok, err, nat_eq, ◌≡◌, refl, sym, ap, subst, arith,
}
use xssh_rust_lib.Base.Async.{Async, ready, pure, lift, fail_with, ◌>>=◌}
use xssh_rust_lib.Base.Async.Laws.{Ensures, >>=-Ensures, Ensures-mono, pure-Ensures, raise-Ensures}
use xssh_rust_lib.Base.Async.Failing.{lift-Ensures, fail_with-Ensures}
use xssh_rust_lib.Base.Async.Parts.{ignore}
use xssh_rust_lib.Base.Async.Parts.Laws.{ignore-raise}
use xssh_rust_lib.Operation.{OperationContext}
use xssh_rust_lib.Operation.Within.Timed.{timed-Ensures}
use xssh_rust_lib.Operation.Within.{Environment}
use xssh_rust_lib.Operation.Within.Laws.{run_in-Ensures}
use xssh_rust_lib.Session.Transport.{Transport}
use xssh_rust_lib.Session.Raw.{
  SshSession, remote_call, open_raw_direct_tcpip_with_context,
  open_raw_direct_streamlocal_with_context,
}
use xssh_rust_lib.Session.Raw.Laws.{remote_call-Ensures}
use xssh_rust_lib.Channel.Calls.{SshChannel, from_inner}
use xssh_rust_lib.Channel.Inputs.{validate_streamlocal_path, validate_direct_tcpip}
use xssh_rust_lib.Channel.Open.{
  open_direct_tcpip_with_context, open_direct_tcpip_from_with_context,
  open_direct_streamlocal_with_context,
}
use xssh_rust_lib.Channel.Stream.{SshChannelStream, into_stream}
use xssh_rust_lib.Channel.Relaying.{Relaying, after_copy, relay_streams}
use xssh_rust_lib.Relay.Target.{
  ForwardingTarget, ForwardingRelayOptions, tcp_target, streamlocal_target,
}
use xssh_rust_lib.Relay.Connection.{open_channel, run_connection, texts}

-- A path that is accepted stays as it is.
streamlocal_path_same :
    (socket_path : Text) {path : Text}
    → validate_streamlocal_path socket_path ≡ ok path
    → path ≡ socket_path
unfolding validate_streamlocal_path
streamlocal_path_same socket_path h = ground arith

-- What the server has been asked for a target, and has opened.
abbrev pub OpenedFor :
    {World : Type 0} (transport : Transport World)
    → ForwardingTarget
    → World
    → transport.Channel
    → World
    → Type 0
OpenedFor transport (tcp_target host port) world channel after =
    transport.channel_open_direct_tcpip host port (codes "127.0.0.1") 0 world
    ≡ (ready (ok channel), after)
OpenedFor transport (streamlocal_target socket_path) world channel after =
    transport.channel_open_direct_streamlocal socket_path world ≡ (ready (ok channel), after)

module _ {World : Type 0} (environment : Environment World) (transport : Transport World)
    (session : SshSession) where
  open transport use {Channel}

  opened-Ensures :
      (target : ForwardingTarget) (context : OperationContext) (operation : Text)
      (code : Async World Text Channel) (world s : World)
      → ((channel : Channel) (after : World)
          → code s ≡ (ready (ok channel), after)
          → OpenedFor transport target world channel after)
      → Ensures
          ((remote_call environment context operation code >>= λ channel.
              pure (from_inner channel context session.config.operation_timeout))
            s)
          (λ channel after.
            OpenedFor transport target world channel.inner after × (channel.context ≡ context))
  opened-Ensures target context operation code world s opened =
      >>=-Ensures (remote_call environment context operation code) _ s
        (remote_call-Ensures environment context operation code s)
        (λ channel after h. pure-Ensures _ after (opened channel after h, refl))

  pub open_channel-Ensures :
      (target : ForwardingTarget) (context : OperationContext) (world : World)
      → Ensures (open_channel environment transport session target context world) (λ channel after.
        OpenedFor transport target world channel.inner after × (channel.context ≡ context))
  unfolding open_channel open_direct_tcpip_with_context open_direct_tcpip_from_with_context
      open_raw_direct_tcpip_with_context open_direct_streamlocal_with_context
      open_raw_direct_streamlocal_with_context
  open_channel-Ensures (tcp_target host port) context world =
      >>=-Ensures (lift (validate_direct_tcpip host port (codes "127.0.0.1"))) _ world
        {P = λ _ s. s ≡ world}
        (lift-Ensures (validate_direct_tcpip host port (codes "127.0.0.1")) world (λ _ h. refl))
        (λ _ s same.
          opened-Ensures (tcp_target host port) context (codes "open direct-tcpip channel")
            (transport.channel_open_direct_tcpip host port (codes "127.0.0.1") 0) world s
            (λ channel after h.
              subst
                (λ w.
                  transport.channel_open_direct_tcpip host port (codes "127.0.0.1") 0 w
                  ≡ (ready (ok channel), after))
                same h))
  open_channel-Ensures (streamlocal_target socket_path) context world =
      >>=-Ensures (lift (validate_streamlocal_path socket_path)) _ world
        {P = λ path s. (path ≡ socket_path) × (s ≡ world)}
        (lift-Ensures (validate_streamlocal_path socket_path) world
          (λ path h. (streamlocal_path_same socket_path h, refl)))
        (λ path s (same_path, same).
          opened-Ensures (streamlocal_target socket_path) context
            (codes "open direct-streamlocal channel")
            (transport.channel_open_direct_streamlocal path) world s
            (λ channel after h.
              subst
                (λ w.
                  transport.channel_open_direct_streamlocal socket_path w
                  ≡ (ready (ok channel), after))
                same
                (subst
                  (λ p. transport.channel_open_direct_streamlocal p s ≡ (ready (ok channel), after))
                  same_path h)))

  module _ (relaying : Relaying World (SshChannelStream transport.Stream)) where
    copied-ok :
        (stream : SshChannelStream transport.Stream) (finished : Option (Result Text (Unit {0})))
        (s : World)
        → Ensures
            (after_copy relaying texts stream finished s)
            (λ _ s'. (finished ≡ some (ok tt)) × (s' ≡ s))
    unfolding after_copy
    copied-ok stream none s =
        >>=-Ensures (ignore relaying.shutdown_local) _ s {P = λ _ _. Unit}
          (record { ensured = λ h. tt })
          (λ _ s' _. record {
            ensured = λ h. absurd (ignore-raise (relaying.shutdown_remote stream) _ s' _ h);
          })
    copied-ok stream (some (ok done)) s = pure-Ensures done s (refl, refl)
    copied-ok stream (some (err shown)) s = raise-Ensures _ s

    relay-Ensures :
        (context : OperationContext) (stream : SshChannelStream transport.Stream) (world : World)
        → Ensures (relay_streams relaying texts environment context stream world) (λ _ after.
          relaying.copy_until_cancelled stream world ≡ (ready (ok (some (ok tt))), after))
    unfolding relay_streams
    relay-Ensures context stream world =
        let copy = fail_with (λ e. absurd e) (relaying.copy_until_cancelled stream) in
        run_in-Ensures environment context texts.operation
          (copy >>= after_copy relaying texts stream) world
          (>>=-Ensures copy (after_copy relaying texts stream) world
            (fail_with-Ensures (λ e. absurd e) (relaying.copy_until_cancelled stream) world
              {Q = λ finished after.
                relaying.copy_until_cancelled stream world ≡ (ready (ok finished), after)}
              (record {
                ensured = λ h. ap (λ o. (o, (relaying.copy_until_cancelled stream world).1)) h;
              }))
            (λ finished s done.
              Ensures-mono (after_copy relaying texts stream finished s)
                (copied-ok stream finished s)
                (λ _ s' (success, same).
                  subst (λ f. relaying.copy_until_cancelled stream world ≡ (ready (ok f), s'))
                    success
                    (subst
                      (λ w. relaying.copy_until_cancelled stream world ≡ (ready (ok finished), w))
                      (sym same) done))))

    -- If a relayed connection ends well, then the server has opened a channel for the target, and
    -- directly after that the bytes were copied over its stream until both sides were at their end,
    -- without a cancellation; nothing has happened since.
    pub run_connection-ok :
        (target : ForwardingTarget) (options : ForwardingRelayOptions) (context : OperationContext)
        (world : World)
        → (run_connection environment transport session relaying target options context world).0
          ≡ ready (ok tt)
        → (channel : SshChannel Channel) × (opened : World) × OpenedFor transport target world
            channel.inner opened
          × (relaying.copy_until_cancelled (into_stream environment transport channel) opened ≡ (
            ready (ok (some (ok tt))),
            (run_connection environment transport session relaying target options context world).1,
          ))
    unfolding run_connection
    run_connection-ok target options context world h =
        let run = timed-Ensures environment options.connection_timeout context _ world λ limited.
          >>=-Ensures (open_channel environment transport session target limited) _ world
            {Q = λ _ after.
              (channel : SshChannel Channel) × (opened : World) × OpenedFor transport target world
                channel.inner opened
              × (relaying.copy_until_cancelled (into_stream environment transport channel) opened
                  ≡ (ready (ok (some (ok tt))), after))}
            (open_channel-Ensures target limited world)
            (λ channel s (opened, _).
              Ensures-mono
                (relay_streams relaying texts environment context
                  (into_stream environment transport channel) s)
                (relay-Ensures context (into_stream environment transport channel) s)
                (λ _ after copied. (channel, s, opened, copied))) in
        run.ensured h
