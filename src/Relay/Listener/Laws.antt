-- ===== src/Relay/Listener/Laws.antt =====
-- src/core/relay.rs: when `RelayRuntime::new` makes a relay.
use xssh_rust_lib.Base.{◌<◌, Result, ok, err, ◌≡◌, ◌↔◌, refl}
use xssh_rust_lib.Base.Fallible
use xssh_rust_lib.Error.{SshError}
use xssh_rust_lib.Relay.Target.{ForwardingTarget, ForwardingRelayOptions, validate_relay_inputs}
use xssh_rust_lib.Relay.Target.Laws.{IsReachable, validate_relay_inputs_iff}
use xssh_rust_lib.Relay.Listener.{Net, RelayListener, Relay, new_relay}

after_check :
    {A : Type 0} (checked : Result SshError (Unit {0})) (a : A)
    → (Fallible.◌>>◌ checked (ok a) ≡ ok a) ↔ (checked ≡ ok tt)
after_check (ok done) a = (λ h. refl, λ h. refl)
after_check (err e) a = (λ h. absurd cc, λ h. absurd cc)

module _ {World : Type 0} (net : Net World) where
  -- A relay is made from a listener exactly for a target that names something, with room for one
  -- connection at least and time to open it; it keeps the listener, the target and the options.
  pub new_relay_iff :
      (listener : RelayListener net) (target : ForwardingTarget) (options : ForwardingRelayOptions)
      → (new_relay net listener target options
          ≡ ok (record { listener = listener; target = target; options = options }))
        ↔ ((0 < options.max_connections) × (0 < options.connection_timeout) × IsReachable target)
  unfolding new_relay
  new_relay_iff listener target options =
      let relay : Relay net = record { listener = listener; target = target; options = options } in
      let made = after_check (validate_relay_inputs target options) relay in
      let valid = validate_relay_inputs_iff target options in
      (λ h. valid.0 (made.0 h), λ h. made.1 (valid.1 h))
