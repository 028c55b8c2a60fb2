-- ===== src/Session.antt =====
-- src/core/session.rs: the phase to which an error of connecting is assigned.
pub mod Connect
pub mod Transport
pub mod Raw
pub mod Open
use xssh_rust_lib.Base.{codes, Bool, true, false, ◌||◌, Text, if◌then◌else◌}
use xssh_rust_lib.Base.Str.{contains_text, to_ascii_lowercase}
use xssh_rust_lib.Error.{SshError, reclassify}
use xssh_rust_lib.Error.Kind.{ErrorKind}

-- The guard of the second arm.
unfoldable pub tells_of_handshake : Text → Bool
tells_of_handshake message =
    contains_text (codes "key exchange") (to_ascii_lowercase message)
    || contains_text (codes "ssh id") (to_ascii_lowercase message)

unfoldable pub reassign : ErrorKind → SshError → SshError
reassign ErrorKind.host_key error = error
reassign ErrorKind.timeout error = error
reassign _ error =
    if tells_of_handshake error.message
    then reclassify ErrorKind.handshake error
    else reclassify ErrorKind.connection error

unfoldable pub classify_connect_error : SshError → SshError
unfolding reassign
classify_connect_error error = reassign error.kind error
