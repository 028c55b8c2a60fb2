-- ===== src/Error.antt =====
-- src/core/error.rs: the error of the SSH core, how it is built and what is attached to it.
-- The source of an error, an opaque object of another crate, is kept as the text that it displays.
pub mod Kind
use xssh_rust_lib.Base.{ℕ, Text, Bool, Option, none, some, List, [], ◌++◌, codes, ◌≡◌}
use xssh_rust_lib.Base.Str.Decimal.{to_decimal}
use xssh_rust_lib.HostKey.Types.{HostKeyObservation}
use xssh_rust_lib.Auth.Types.{AuthenticationObservation}
use Kind.{ErrorKind, is_retryable_kind}

pub record ErrorContext : Type 0 where
  pub operation : Option Text
  pub host : Option Text
  pub port : Option ℕ
  pub path : Option Text
  pub host_key_observation : Option HostKeyObservation
  pub authentication_observation : Option AuthenticationObservation

abbrev pub empty_context : ErrorContext
empty_context = record {
  operation = none;
  host = none;
  port = none;
  path = none;
  host_key_observation = none;
  authentication_observation = none;
}

pub record SshError : Type 0 where
  pub kind : ErrorKind
  pub message : Text
  pub context : ErrorContext
  pub retryable : Bool
  pub source : Option Text

unfoldable pub new : ErrorKind → Text → SshError
unfolding is_retryable_kind
new kind message = record {
  kind = kind;
  message = message;
  context = empty_context;
  retryable = is_retryable_kind kind;
  source = none;
}

unfoldable pub reclassify : ErrorKind → SshError → SshError
unfolding is_retryable_kind
reclassify kind error = record error { kind = kind; retryable = is_retryable_kind kind }

unfoldable pub configuration : Text → SshError
unfolding new
configuration message = new ErrorKind.configuration message

unfoldable pub host_key : Text → SshError
unfolding new
host_key message = new ErrorKind.host_key message

unfoldable pub authentication : Text → SshError
unfolding new
authentication message = new ErrorKind.authentication message

unfoldable pub protocol : Text → SshError
unfolding new
protocol message = new ErrorKind.protocol message

unfoldable pub channel : Text → SshError
unfolding new
channel message = new ErrorKind.channel message

unfoldable pub timeout : Text → SshError
unfolding new
timeout message = new ErrorKind.timeout message

unfoldable pub cancelled : Text → SshError
unfolding new
cancelled message = new ErrorKind.cancelled message

unfoldable pub from_source : ErrorKind → Text → Text → SshError
unfolding new
from_source kind message source = record (new kind message) { source = some source }

unfoldable pub with_operation : Text → SshError → SshError
with_operation operation error = record error {
  context = record error.context { operation = some operation };
}

unfoldable pub with_endpoint : Text → ℕ → SshError → SshError
with_endpoint host port error = record error {
  context = record error.context { host = some host; port = some port };
}

unfoldable pub with_path : Text → SshError → SshError
with_path path error = record error { context = record error.context { path = some path } }

unfoldable pub with_host_key_observation : HostKeyObservation → SshError → SshError
with_host_key_observation observation error = record error {
  context = record error.context { host_key_observation = some observation };
}

unfoldable pub with_authentication_observation : AuthenticationObservation → SshError → SshError
with_authentication_observation observation error = record error {
  context = record error.context { authentication_observation = some observation };
}

unfoldable pub with_retryable : Bool → SshError → SshError
with_retryable retryable error = record error { retryable = retryable }

-- `{:?}` of an `ErrorKind`
unfoldable pub debug_kind : ErrorKind → Text
debug_kind ErrorKind.configuration = codes "Configuration"
debug_kind ErrorKind.connection = codes "Connection"
debug_kind ErrorKind.handshake = codes "Handshake"
debug_kind ErrorKind.host_key = codes "HostKey"
debug_kind ErrorKind.authentication = codes "Authentication"
debug_kind ErrorKind.channel = codes "Channel"
debug_kind ErrorKind.protocol = codes "Protocol"
debug_kind ErrorKind.timeout = codes "Timeout"
debug_kind ErrorKind.cancelled = codes "Cancelled"
debug_kind ErrorKind.internal = codes "Internal"

abbrev pub get_or : Option ℕ → ℕ → ℕ
get_or none n = n
get_or (some m) n = m

operation_part : Option Text → Text
operation_part none = []
operation_part (some operation) = codes " (operation: " ++ (operation ++ codes ")")

endpoint_part : Option Text → Option ℕ → Text
endpoint_part none port = []
endpoint_part (some host) port =
    codes " [" ++ (host ++ (codes ":" ++ (to_decimal (get_or port 22) ++ codes "]")))

path_part : Option Text → Text
path_part none = []
path_part (some path) = codes " [path: " ++ (path ++ codes "]")

-- `Display`
unfoldable pub display : SshError → Text
unfolding operation_part endpoint_part path_part
display e =
    debug_kind e.kind
    ++ (codes ": "
        ++ (e.message
            ++ (operation_part e.context.operation
                ++ (endpoint_part e.context.host e.context.port ++ path_part e.context.path))))

-- `From<russh::Error>`
unfoldable pub from_russh : Text → SshError
unfolding from_source
from_russh shown = from_source ErrorKind.internal shown shown

-- `From<russh::keys::ssh_key::Error>`
unfoldable pub from_ssh_key : Text → SshError
unfolding from_source
from_ssh_key shown = from_source ErrorKind.configuration (codes "invalid SSH key: " ++ shown) shown
