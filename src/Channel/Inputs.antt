-- ===== src/Channel/Inputs.antt =====
-- src/core/channel.rs: the checks of what a channel is asked to reach.
use xssh_rust_lib.Base.{ℕ, Text, codes, is_empty, contains, Result, ok, ◌==◌, nat_eq}
use xssh_rust_lib.Base.Str.{trim}
use xssh_rust_lib.Base.Fallible.{◌>>◌, reject_if}
use xssh_rust_lib.Error
use xssh_rust_lib.Error.{SshError}

unfoldable pub validate_streamlocal_path : Text → Result SshError Text
unfolding contains
validate_streamlocal_path socket_path = do
  reject_if (is_empty (trim socket_path))
      (Error.configuration (codes "streamlocal socket path must not be empty"))
  reject_if (contains socket_path 0)
      (Error.configuration (codes "streamlocal socket path must not contain NUL"))
  ok socket_path

-- The guards of `open_direct_tcpip_from_with_context`.
unfoldable pub validate_direct_tcpip : Text → ℕ → Text → Result SshError (Unit {0})
validate_direct_tcpip target_host target_port originator_address = do
  reject_if (is_empty (trim target_host))
      (Error.configuration (codes "direct-tcpip target host must not be empty"))
  reject_if (target_port == 0)
      (Error.configuration (codes "direct-tcpip target port must be greater than zero"))
  reject_if (is_empty (trim originator_address))
      (Error.configuration (codes "direct-tcpip originator address must not be empty"))
  ok tt
