-- ===== src/Relay/Target.antt =====
-- src/core/relay.rs: `ForwardingTarget`, `ForwardingRelayOptions` and the checks of both.
pub mod Laws
use xssh_rust_lib.Base.{
  ℕ, zero, ◌*◌, Text, codes, Bool, true, false, List, [], ◌∷◌, Result, ok, err, is_empty, contains,
  ◌==◌, nat_eq,
}
use xssh_rust_lib.Base.Fallible.{◌>>=◌, ◌>>◌, reject_if}
use xssh_rust_lib.Base.Str.{trim}
use xssh_rust_lib.Error
use xssh_rust_lib.Error.{SshError}
use xssh_rust_lib.Relay.Policy.{ForwardingAccessPolicy, allow_all}

pub data ForwardingTarget : Type 0 where
  tcp_target : Text → ℕ → ForwardingTarget
  streamlocal_target : Text → ForwardingTarget

unfoldable pub validate_socket_path : Text → Result SshError (Unit {0})
unfolding contains
validate_socket_path socket_path = do
  reject_if (is_empty (trim socket_path))
      (Error.configuration (codes "forwarding streamlocal socket path must not be empty"))
  reject_if (contains socket_path 0)
      (Error.configuration (codes "forwarding streamlocal socket path must not contain NUL"))
  ok tt

unfoldable pub validate_tcp : Text → ℕ → Result SshError (Unit {0})
validate_tcp host port = do
  reject_if (is_empty (trim host))
      (Error.configuration (codes "forwarding target host must not be empty"))
  reject_if (port == 0)
      (Error.configuration (codes "forwarding target port must be greater than zero"))
  ok tt

-- `ForwardingTarget::tcp`
unfoldable pub tcp : Text → ℕ → Result SshError ForwardingTarget
unfolding validate_tcp
tcp host port = do validate_tcp host port; ok (tcp_target host port)

-- `ForwardingTarget::streamlocal`
unfoldable pub streamlocal : Text → Result SshError ForwardingTarget
unfolding validate_socket_path
streamlocal socket_path = do validate_socket_path socket_path; ok (streamlocal_target socket_path)

unfoldable pub validate_target : ForwardingTarget → Result SshError (Unit {0})
unfolding validate_tcp validate_socket_path
validate_target (tcp_target host port) = validate_tcp host port
validate_target (streamlocal_target socket_path) = validate_socket_path socket_path

pub record ForwardingRelayOptions : Type 0 where
  pub max_connections : ℕ
  pub connection_timeout : ℕ
  pub access_policy : ForwardingAccessPolicy

abbrev pub default_options : ForwardingRelayOptions
default_options = record {
  max_connections = 128;
  connection_timeout = 15 * 1000000000;
  access_policy = allow_all;
}

unfoldable pub validate_options : ForwardingRelayOptions → Result SshError (Unit {0})
validate_options options = do
  reject_if (options.max_connections == 0)
      (Error.configuration (codes "forwarding max_connections must be greater than zero"))
  reject_if (options.connection_timeout == 0)
      (Error.configuration (codes "forwarding connection_timeout must be greater than zero"))
  ok tt

unfoldable pub validate_relay_inputs :
    ForwardingTarget → ForwardingRelayOptions → Result SshError (Unit {0})
unfolding validate_options validate_target
validate_relay_inputs target options = do validate_options options; validate_target target
