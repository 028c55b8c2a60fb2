-- ===== src/Auth/Client.antt =====
-- What authentication needs of the crate `russh`, as an interface, and the methods of
-- src/core/auth.rs over it. The errors of the crate are the text that they display.
use xssh_rust_lib.Base.{List, Text, Bool, Option, Result}
use xssh_rust_lib.Base.Async.{Async}
use xssh_rust_lib.Error.{SshError}
use xssh_rust_lib.Auth.Types.{AuthMethodKind}

pub data HashAlg : Type 0 where
  sha256 sha512 : HashAlg

-- `russh::MethodKind`
pub data MethodKind : Type 0 where
  none password public_key host_based keyboard_interactive : MethodKind

pub data AuthResult : Type 0 where
  success : AuthResult
  failure : List MethodKind → Bool → AuthResult

pub record KeyboardInteractivePrompt : Type 0 where
  pub text : Text
  pub echo : Bool

pub record KeyboardInteractiveChallenge : Type 0 where
  pub name : Text
  pub instructions : Text
  pub prompts : List KeyboardInteractivePrompt

-- `KeyboardInteractiveAuthResponse`
pub data KeyboardResponse : Type 0 where
  success : KeyboardResponse
  failure : List MethodKind → Bool → KeyboardResponse
  info_request : Text → Text → List KeyboardInteractivePrompt → KeyboardResponse

-- The connection's handle, the keys and the agents of the crate. `World` is all that they change.
pub record Client : Type 1 where
  pub World : Type 0
  pub PrivateKey : Type 0
  pub PublicKey : Type 0
  pub Certificate : Type 0
  pub Agent : Type 0
  pub is_closed : World → Bool
  pub is_encrypted : PrivateKey → Bool
  pub decrypt : PrivateKey → Text → Result Text PrivateKey
  pub is_rsa : PrivateKey → Bool
  pub is_rsa_public : PublicKey → Bool
  pub is_user : Certificate → Bool
  pub certifies : Certificate → PrivateKey → Bool
  pub authenticate_password : Text → Text → Async World Text AuthResult
  pub authenticate_publickey : Text → PrivateKey → Option HashAlg → Async World Text AuthResult
  pub authenticate_openssh_cert : Text → PrivateKey → Certificate → Async World Text AuthResult
  pub authenticate_publickey_with :
      Text → PublicKey → Option HashAlg → Agent → Async World Text AuthResult
  pub keyboard_interactive_start : Text → Option Text → Async World Text KeyboardResponse
  pub keyboard_interactive_respond : List Text → Async World Text KeyboardResponse
  pub best_supported_rsa_hash : Async World Text (Option (Option HashAlg))
  pub connect_uds : Text → Async World Text Agent
  pub connect_env : Async World Text Agent
  pub request_identities : Agent → Async World Text (List PublicKey)

pub data RsaHashAlgorithm : Type 0 where
  auto sha256 sha512 legacy_sha1 : RsaHashAlgorithm

pub data AuthMethod (client : Client) : Type 0 where
  password : Text → AuthMethod client
  private_key : client.PrivateKey → Option Text → RsaHashAlgorithm → AuthMethod client
  openssh_certificate : client.PrivateKey → client.Certificate → Option Text → AuthMethod client
  keyboard_interactive :
      Option Text
      → (KeyboardInteractiveChallenge → Async client.World SshError (List Text))
      → AuthMethod client
  agent : Option Text → RsaHashAlgorithm → AuthMethod client

unfoldable pub kind : {client : Client} → AuthMethod client → AuthMethodKind
kind (password _) = AuthMethodKind.password
kind (private_key _ _ _) = AuthMethodKind.private_key
kind (openssh_certificate _ _ _) = AuthMethodKind.openssh_certificate
kind (keyboard_interactive _ _) = AuthMethodKind.keyboard_interactive
kind (agent _ _) = AuthMethodKind.agent
