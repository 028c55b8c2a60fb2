-- ===== src/Config.antt =====
-- src/core/config.rs: the settings of a connection. Durations are numbers of nanoseconds.
pub mod Laws
use xssh_rust_lib.Base.{
  ℕ, ◌*◌, Text, codes, Bool, true, false, ◌&&◌, not, List, [], ◌∷◌, ◌++◌, Option, none, some,
  Result, ok, err, is_empty, contains, is_some_and, ◌==◌, nat_eq, if◌then◌else◌,
}
use xssh_rust_lib.Base.Fallible.{◌>>=◌, ◌>>◌, reject_if}
use xssh_rust_lib.Base.Str.{trim, starts_with}
use xssh_rust_lib.Base.Str.Decimal.{to_decimal}
use xssh_rust_lib.Error
use xssh_rust_lib.Error.{SshError}

pub record SshConfig : Type 0 where
  pub host : Text
  pub port : ℕ
  pub username : Text
  pub connect_timeout : ℕ
  pub authentication_timeout : ℕ
  pub operation_timeout : ℕ
  pub keepalive_interval : Option ℕ

-- `Duration::is_zero`
abbrev pub is_zero : ℕ → Bool
is_zero duration = duration == 0

-- `Duration::from_secs`
abbrev pub from_secs : ℕ → ℕ
from_secs seconds = seconds * 1000000000

unfoldable pub validate : SshConfig → Result SshError (Unit {0})
validate config = do
  reject_if (is_empty (trim config.host)) (Error.configuration (codes "SSH host must not be empty"))
  reject_if (is_empty (trim config.username))
      (Error.configuration (codes "SSH username must not be empty"))
  reject_if (config.port == 0) (Error.configuration (codes "SSH port must be between 1 and 65535"))
  reject_if (is_zero config.connect_timeout)
      (Error.configuration (codes "SSH connect timeout must be positive"))
  reject_if (is_zero config.authentication_timeout)
      (Error.configuration (codes "SSH authentication timeout must be positive"))
  reject_if (is_zero config.operation_timeout)
      (Error.configuration (codes "SSH operation timeout must be positive"))
  reject_if (is_some_and is_zero config.keepalive_interval)
      (Error.configuration (codes "SSH keepalive interval must be positive when configured"))
  ok tt

abbrev pub default_config : Text → Text → SshConfig
default_config host username = record {
  host = host;
  port = 22;
  username = username;
  connect_timeout = from_secs 15;
  authentication_timeout = from_secs 15;
  operation_timeout = from_secs 30;
  keepalive_interval = some (from_secs 30);
}

unfoldable pub new : Text → Text → Result SshError SshConfig
unfolding validate
new host username = do let config = default_config host username; validate config; ok config

unfoldable pub socket_address : SshConfig → Text
unfolding contains starts_with
socket_address config =
    if contains config.host b':' && not (starts_with b'[' config.host)
    then b'[' ∷ config.host ++ (b']' ∷ b':' ∷ to_decimal config.port)
    else config.host ++ (b':' ∷ to_decimal config.port)
