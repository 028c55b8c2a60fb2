-- ===== src/Tests/Sessions.antt =====
-- The setting up of sessions in src/core/session.rs at concrete inputs.
use xssh_rust_lib.Base.{
  ◌⊎◌, ℕ, Text, codes, Bool, true, false, [], ◌∷◌, none, Result, ok, err, ◌==◌, nat_eq,
  if◌then◌else◌, list_beq, ◌≡◌, ◌≢◌, refl,
}
use xssh_rust_lib.Base.Str.{trim}
use xssh_rust_lib.Base.Async.{Async, Outcome, ready, panics, pending}
use xssh_rust_lib.Error
use xssh_rust_lib.Error.{SshError}
use xssh_rust_lib.Config.{SshConfig, default_config, validate}
use xssh_rust_lib.Operation.Within.{or_panics}
use xssh_rust_lib.Operation.{OperationContext, run, with_timeout_from_now, timeout_deadline}
use xssh_rust_lib.Operation.Within.{Environment, run_in, settles}
use xssh_rust_lib.HostKey.Types.{trusted, unknown}
use xssh_rust_lib.HostKey.Tofu.{Call, returned, panicked}
use xssh_rust_lib.HostKey.Handler.{HostKeyVerifier, check_server_key, decide}
use xssh_rust_lib.Auth.Method.{authenticate_method, auth_outcome}
use xssh_rust_lib.Auth.Plan.{authenticate, try_methods}
use xssh_rust_lib.Session.Transport.{Transport}
use xssh_rust_lib.Session.Raw.{SshSession, remote_call, open_raw_direct_tcpip_with_context}
use xssh_rust_lib.Session.Open.{
  KeyCheck, Dialer, Shelf, client_handler, authenticate_session, connect_with_context,
  connect_stream_with_context, connect_via_jump_with_context,
}
use xssh_rust_lib.Session.Open.Laws.{Passed, SetUp, connect_with_context-ok}
use xssh_rust_lib.Session.Open.Jump.{Tunnelled, connect_via_jump_with_context-ok}
use xssh_rust_lib.Session.Open.Failure.{
  Limits, Unconnected, Unjumped, connect_with_context-err, connect_via_jump_with_context-err,
}
use xssh_rust_lib.Session.Open.Finish.{connects-Ends}
use xssh_rust_lib.Tests.Plans.{server, wrong, right}

-- The world is a number, which is the clock too; nothing is cancelled.
abbrev pub environment : Environment ℕ
environment = record {
  around = λ world. record {
    latest = 18446744073709551615;
    now = world;
    cancelled_at = none;
    cancel_first = false;
  };
  abandoned = λ operation world world'. world';
}

abbrev done : {A : Type 0} → A → Async ℕ Text A
done a world = (ready (ok a), world)

-- A server that grants everything, and whose channels are numbers.
abbrev pub transport : Transport ℕ
transport = record {
  Channel = ℕ;
  Stream = ℕ;
  Pty = ℕ;
  into_stream = λ channel. channel;
  is_closed = λ world. false;
  channel_open_session = done 1;
  channel_open_direct_tcpip = λ host port originator_address originator_port. done 2;
  channel_open_direct_streamlocal = λ path. done 3;
  tcpip_forward = λ address port. done 4022;
  cancel_tcpip_forward = λ address port. done tt;
  streamlocal_forward = λ path. done tt;
  cancel_streamlocal_forward = λ path. done tt;
  disconnect_by_application = λ reason language. done tt;
  request_pty = λ channel want_reply term size modes. done tt;
  request_shell = λ channel want_reply. done tt;
  exec = λ channel want_reply command. done tt;
  request_subsystem = λ channel want_reply name. done tt;
  send_data = λ channel bytes. done tt;
  send_eof = λ channel. done tt;
  window_change = λ channel size. done tt;
  close_channel = λ channel. done tt;
  wait_message = λ channel world. (ready (ok none), world);
  read_stream = λ stream size. done [];
  write_stream = λ stream bytes. done tt;
  flush_stream = λ stream. done tt;
}

-- A connection is made if the handler lets the key 7 pass.
abbrev answered : Call (Result SshError Bool) → Outcome SshError (Unit {0})
answered (returned (ok true)) = ready (ok tt)
answered (returned (ok false)) = ready (err (Error.channel (codes "unknown key")))
answered (returned (err error)) = ready (err error)
answered panicked = panics

abbrev dial : KeyCheck ℕ ℕ → Async ℕ SshError (Unit {0})
dial handler world = let (answer, world') = handler 7 world in (answered answer, world')

answered-ok :
    (answer : Call (Result SshError Bool))
    → answered answer ≡ ready (ok tt)
    → answer ≡ returned (ok true)
answered-ok (returned (ok true)) h = refl
answered-ok (returned (ok false)) h = absurd cc
answered-ok (returned (err error)) h = absurd cc
answered-ok panicked h = absurd cc

dial-Passed :
    (handler : KeyCheck ℕ ℕ) (world : ℕ) → (dial handler world).0 ≡ ready (ok tt) → Passed handler
dial-Passed handler world h = (7, world, answered-ok (handler 7 world).0 h)

abbrev dialer : Dialer ℕ ℕ ℕ
dialer = record {
  connect = λ keepalive nodelay address. dial;
  connect_stream = λ keepalive nodelay stream. dial;
}

-- A verifier that trusts the key 7.
abbrev verifier : HostKeyVerifier ℕ
verifier = record {
  Store = ℕ;
  verify = λ host port key store. (returned (ok (if key == 7 then trusted else unknown)), store);
  check = λ host port key store. (returned (err (Error.host_key (codes "not seen"))), store);
}

abbrev shelf : Shelf ℕ ℕ
shelf = record { fetch = λ world. world; replace = λ store world. store }

abbrev settings : SshConfig
settings = default_config (codes "server") (codes "user")

abbrev unlimited : OperationContext
unlimited = record { deadline = none }

abbrev pub session : SshSession
session = record { config = settings; operation_context = unlimited }

connected :
    (connect_with_context server 1 environment transport dialer verifier shelf settings
      (wrong ∷ right ∷ [])
      unlimited
      0).0
    ≡ ready (ok session)
unfolding connect_with_context authenticate_session client_handler check_server_key decide run_in
    settles run with_timeout_from_now timeout_deadline or_panics validate trim authenticate
    try_methods authenticate_method auth_outcome list_beq codes
connected = refl

connect_with_context-ok_example :
    SetUp server 1 environment verifier shelf settings
      (wrong ∷ right ∷ [])
      unlimited
      session
      (connect_with_context server 1 environment transport dialer verifier shelf settings
        (wrong ∷ right ∷ [])
        unlimited
        0).1
connect_with_context-ok_example =
    connect_with_context-ok server 1 environment transport dialer verifier shelf
      (λ keepalive nodelay address. dial-Passed) settings (wrong ∷ right ∷ []) unlimited 0 session
      connected

jumped :
    (connect_via_jump_with_context server 1 environment transport dialer verifier shelf settings
      (wrong ∷ right ∷ [])
      unlimited
      0).0
    ≡ ready (ok session)
unfolding connect_via_jump_with_context connect_stream_with_context
    open_raw_direct_tcpip_with_context remote_call authenticate_session client_handler
    check_server_key decide run_in settles run with_timeout_from_now timeout_deadline or_panics
    validate trim authenticate try_methods authenticate_method auth_outcome list_beq codes
jumped = refl

connect_via_jump_with_context-ok_example :
    Tunnelled transport settings
    × SetUp server 1 environment verifier shelf settings
        (wrong ∷ right ∷ [])
        unlimited
        session
        (connect_via_jump_with_context server 1 environment transport dialer verifier shelf settings
          (wrong ∷ right ∷ [])
          unlimited
          0).1
connect_via_jump_with_context-ok_example =
    connect_via_jump_with_context-ok server 1 environment transport dialer verifier shelf
      (λ keepalive nodelay stream. dial-Passed) settings (wrong ∷ right ∷ []) unlimited 0 session
      jumped

-- The error of an outcome, or another one.
abbrev error_of : {A : Type 0} → Outcome SshError A → SshError
error_of (ready (err error)) = error
error_of _ = Error.channel []

abbrev refusal : SshError
refusal =
    error_of
      (connect_with_context server 1 environment transport dialer verifier shelf settings
        (wrong ∷ []) unlimited 0).0

refused :
    (connect_with_context server 1 environment transport dialer verifier shelf settings
      (wrong ∷ [])
      unlimited
      0).0
    ≡ ready (err refusal)
unfolding connect_with_context authenticate_session client_handler check_server_key decide run_in
    settles run with_timeout_from_now timeout_deadline or_panics validate trim authenticate
    try_methods authenticate_method auth_outcome list_beq codes
refused = refl

connect_with_context-err_example :
    (validate settings ≡ err refusal)
    ⊎ ((validate settings ≡ ok tt)
        × (limited : OperationContext) × Limits environment settings settings.connect_timeout
            unlimited 0 limited
        × Unconnected server 1 environment settings
            (wrong ∷ [])
            unlimited
            transport
            dialer
            verifier
            shelf
            refusal
            limited
            0)
connect_with_context-err_example =
    connect_with_context-err server 1 environment settings (wrong ∷ []) unlimited transport dialer
      verifier shelf 0 refusal refused

abbrev jump_refusal : SshError
jump_refusal =
    error_of
      (connect_via_jump_with_context server 1 environment transport dialer verifier shelf settings
        (wrong ∷ []) unlimited 0).0

jump_refused :
    (connect_via_jump_with_context server 1 environment transport dialer verifier shelf settings
      (wrong ∷ [])
      unlimited
      0).0
    ≡ ready (err jump_refusal)
unfolding connect_via_jump_with_context connect_stream_with_context
    open_raw_direct_tcpip_with_context remote_call authenticate_session client_handler
    check_server_key decide run_in settles run with_timeout_from_now timeout_deadline or_panics
    validate trim authenticate try_methods authenticate_method auth_outcome list_beq codes
jump_refused = refl

connect_via_jump_with_context-err_example :
    (validate settings ≡ err jump_refusal)
    ⊎ ((validate settings ≡ ok tt)
        × (limited : OperationContext) × Limits environment settings settings.connect_timeout
            unlimited 0 limited
        × Unjumped server 1 environment settings
            (wrong ∷ [])
            unlimited
            transport
            dialer
            verifier
            shelf
            jump_refusal
            limited
            0)
connect_via_jump_with_context-err_example =
    connect_via_jump_with_context-err server 1 environment settings (wrong ∷ []) unlimited transport
      dialer verifier shelf 0 jump_refusal jump_refused

connects-Ends_example :
    ((connect_with_context server 1 environment transport dialer verifier shelf settings []
        unlimited 0).0
      ≢ pending)
    × ((connect_via_jump_with_context server 1 environment transport dialer verifier shelf settings
          [] unlimited 0).0
        ≢ pending)
connects-Ends_example =
    connects-Ends server 1 environment transport dialer verifier shelf settings [] unlimited 0
