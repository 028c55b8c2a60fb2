-- ===== src/Socks5/Options.antt =====
-- src/core/socks5.rs: the limits and the authentication of a proxy.
use xssh_rust_lib.Base.{ℕ, ◌*◌, Text, codes, ◌||◌, Result, ok, is_empty, length, ltb, ◌==◌, nat_eq}
use xssh_rust_lib.Base.Fallible.{◌>>◌, reject_if}
use xssh_rust_lib.Base.Str.Utf8.{as_bytes}
use xssh_rust_lib.Error
use xssh_rust_lib.Error.{SshError}

pub data Socks5Authentication : Type 0 where
  no_auth : Socks5Authentication
  username_password : Text → Text → Socks5Authentication

pub record Socks5ProxyOptions : Type 0 where
  pub max_connections : ℕ
  pub handshake_timeout : ℕ
  pub authentication : Socks5Authentication

abbrev pub default_options : Socks5ProxyOptions
default_options = record {
  max_connections = 128;
  handshake_timeout = 30 * 1000000000;
  authentication = no_auth;
}

validate_authentication : Socks5Authentication → Result SshError (Unit {0})
validate_authentication no_auth = ok tt
validate_authentication (username_password username password) = do
  reject_if (is_empty (as_bytes username) || ltb 255 (length (as_bytes username)))
      (Error.configuration (codes "SOCKS5 username must contain between 1 and 255 bytes"))
  reject_if (ltb 255 (length (as_bytes password)))
      (Error.configuration (codes "SOCKS5 password must contain at most 255 bytes"))
  ok tt

unfoldable pub validate : Socks5ProxyOptions → Result SshError (Unit {0})
unfolding validate_authentication
validate options = do
  reject_if (options.max_connections == 0)
      (Error.configuration (codes "SOCKS5 max_connections must be greater than zero"))
  reject_if (options.handshake_timeout == 0)
      (Error.configuration (codes "SOCKS5 handshake_timeout must be greater than zero"))
  validate_authentication options.authentication
