-- ===== src/Relay/Target/Laws.antt =====
-- src/core/relay.rs: which targets and options are accepted.
use xssh_rust_lib.Base.{◌<◌, false, ok, contains, nat_eq, ◌≡◌, ◌↔◌, arith}
use xssh_rust_lib.Base.Str.Blank.{is_blank, is_empty-trim}
use xssh_rust_lib.Relay.Target.{
  ForwardingTarget, tcp_target, streamlocal_target, ForwardingRelayOptions, validate_relay_inputs,
}

abbrev pub IsReachable : ForwardingTarget → Type 0
IsReachable (tcp_target host port) = (is_blank host ≡ false) × (0 < port)
IsReachable (streamlocal_target path) = (is_blank path ≡ false) × (contains path 0 ≡ false)

-- Inputs are accepted exactly for a target that names something, with room for one connection at
-- least and time to open it.
pub validate_relay_inputs_iff :
    (target : ForwardingTarget) (options : ForwardingRelayOptions)
    → (validate_relay_inputs target options ≡ ok tt)
      ↔ ((0 < options.max_connections) × (0 < options.connection_timeout) × IsReachable target)
unfolding validate_relay_inputs
validate_relay_inputs_iff (tcp_target host port) options = ground (arith, is_empty-trim host)
validate_relay_inputs_iff (streamlocal_target path) options = ground (arith, is_empty-trim path)
