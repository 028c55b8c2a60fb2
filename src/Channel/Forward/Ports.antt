-- ===== src/Channel/Forward/Ports.antt =====
-- src/core/channel.rs: the port of a remote forward.
use xssh_rust_lib.Base.{ℕ, ◌^◌, ◌<◌, Text, codes, ok, ◌==◌, nat_eq, ◌≡◌, ◌⊎◌, refl, ap, arith}
use xssh_rust_lib.Base.Async.{ready, lift}
use xssh_rust_lib.Base.Async.Laws.{Ensures, Ensures-mono, >>=-Ensures, guard-Ensures, pure-Ensures}
use xssh_rust_lib.Base.Async.Failing.{lift-Ensures}
use xssh_rust_lib.Operation.{OperationContext}
use xssh_rust_lib.Operation.Within.{Environment}
use xssh_rust_lib.Session.Transport.{Transport}
use xssh_rust_lib.Session.Raw.{SshSession, request_raw_tcpip_forward_with_context}
use xssh_rust_lib.Session.Raw.Laws.{remote_call-Ensures}
use xssh_rust_lib.Channel.Forward.{
  SshRemoteTcpipForward, effective_port, port_or, request_remote_tcpip_forward_with_context,
}

-- The port is the server's choice, or the one that was asked for if the server names none.
abbrev pub IsEffective : ℕ → ℕ → ℕ → Type 0
IsEffective port returned effective =
    (effective < 2 ^ 16) × (((returned ≡ 0) × (effective ≡ port)) ⊎ (effective ≡ returned))

effective_port-ok :
    (port returned : ℕ) {effective : ℕ}
    → port < 2 ^ 16
    → effective_port port returned ≡ ok effective
    → IsEffective port returned effective
unfolding effective_port port_or
effective_port-ok port returned valid h = ground arith

-- A listener was confirmed by the server with the port that it returned.
abbrev pub Confirmed :
    {World : Type 0} → Transport World → Text → ℕ → World → SshRemoteTcpipForward → Type 0
Confirmed transport address port world forward =
    (returned : ℕ) × ((transport.tcpip_forward address port world).0 ≡ ready (ok returned))
    × (forward.address ≡ address)
    × (0 < forward.port)
    × IsEffective port returned forward.port

module _ {World : Type 0} (environment : Environment World) (transport : Transport World)
    (session : SshSession) where
  requested-Ensures :
      (address : Text) (port : ℕ) (context : OperationContext) (world : World)
      → Ensures
          (request_raw_tcpip_forward_with_context environment transport address port context world)
          (λ returned _. (transport.tcpip_forward address port world).0 ≡ ready (ok returned))
  unfolding request_raw_tcpip_forward_with_context
  requested-Ensures address port context world =
      Ensures-mono
        (request_raw_tcpip_forward_with_context environment transport address port context world)
        (remote_call-Ensures environment context (codes "request remote tcpip forward")
          (transport.tcpip_forward address port) world)
        (λ returned after h. ap (λ r. r.0) h)

  request-Ensures :
      (address : Text) (port : ℕ) (context : OperationContext) (world : World)
      → port < 2 ^ 16
      → Ensures
          (request_remote_tcpip_forward_with_context environment transport session address port
            context world)
          (λ forward _. Confirmed transport address port world forward)
  unfolding request_remote_tcpip_forward_with_context
  request-Ensures address port context world valid =
      >>=-Ensures
        (request_raw_tcpip_forward_with_context environment transport address port context) _ world
        (requested-Ensures address port context world)
        (λ returned s done.
          >>=-Ensures (lift (effective_port port returned)) _ s
            {P = λ effective _. effective_port port returned ≡ ok effective}
            (lift-Ensures (effective_port port returned) s (λ effective h. h))
            (λ effective s' h. guard-Ensures (effective == 0) _ _ s' (λ nonzero.
              pure-Ensures _ s'
                (returned, done, refl, (ground arith), effective_port-ok port returned valid h))))

  -- Let the port that is asked for be a TCP port. If a remote forward is granted, then the server has
  -- confirmed the request for this address and port, the forward has the address that was asked for,
  -- and its port is positive and below 65536: the one that the server returned, or the one that was
  -- asked for if the server returned 0.
  pub request_remote_tcpip_forward_with_context-ok :
      (address : Text) (port : ℕ) (context : OperationContext) (world : World)
      (forward : SshRemoteTcpipForward)
      → port < 2 ^ 16
      → (request_remote_tcpip_forward_with_context environment transport session address port
          context world).0
        ≡ ready (ok forward)
      → Confirmed transport address port world forward
  request_remote_tcpip_forward_with_context-ok address port context world forward valid h =
      (request-Ensures address port context world valid).ensured h
