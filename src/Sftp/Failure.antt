-- ===== src/Sftp/Failure.antt =====
-- src/sftp/error.rs: the errors of SFTP. Those of the crate `russh_sftp` are the text they display.
use xssh_rust_lib.Base.{Text, codes, Bool, false, ◌++◌, Option, none, some}
use xssh_rust_lib.Error
use xssh_rust_lib.Error.{SshError, display}
use xssh_rust_lib.Error.Kind.{ErrorKind}

pub data SftpError : Type 0 where
  core : SshError → SftpError
  protocol : Text → SftpError

-- `impl fmt::Display for SftpError`
unfoldable pub display_sftp : SftpError → Text
display_sftp (SftpError.core error) = codes "SSH core: " ++ display error
display_sftp (SftpError.protocol message) = codes "SFTP: " ++ message

-- `impl From<russh_sftp::client::error::Error> for SftpError`
unfoldable pub from_russh_sftp : Text → SftpError
from_russh_sftp shown = SftpError.core (Error.from_source ErrorKind.protocol shown shown)

unfoldable pub kind : SftpError → Option ErrorKind
kind (SftpError.core error) = some error.kind
kind (SftpError.protocol _) = none

unfoldable pub is_retryable : SftpError → Bool
is_retryable (SftpError.core error) = error.retryable
is_retryable (SftpError.protocol _) = false

unfoldable pub operation : SftpError → Option Text
operation (SftpError.core error) = error.context.operation
operation (SftpError.protocol _) = none

unfoldable pub path : SftpError → Option Text
path (SftpError.core error) = error.context.path
path (SftpError.protocol _) = none

unfoldable pub with_path : Text → SftpError → SftpError
with_path path (SftpError.core error) = SftpError.core (Error.with_path path error)
with_path path (SftpError.protocol message) = SftpError.protocol message
