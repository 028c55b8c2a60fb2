-- ===== src/Auth/Builders.antt =====
-- src/core/auth.rs: how methods and plans are built. A plan is the list of its methods, and a secret
-- its text.
use xssh_rust_lib.Base.{Text, List, [], ◌∷◌, ◌++◌, Option, none, some}
use xssh_rust_lib.Base.Async.{Async}
use xssh_rust_lib.Error.{SshError}
use xssh_rust_lib.Auth.Client.{Client, AuthMethod, KeyboardInteractiveChallenge, RsaHashAlgorithm}

module _ (client : Client) where
  open client use {World, PrivateKey, Certificate}

  abbrev pub password : Text → AuthMethod client
  password secret = AuthMethod.password secret

  abbrev pub private_key : PrivateKey → AuthMethod client
  private_key key = AuthMethod.private_key key none RsaHashAlgorithm.auto

  abbrev pub with_key_options : PrivateKey → Option Text → RsaHashAlgorithm → AuthMethod client
  with_key_options key passphrase rsa_hash = AuthMethod.private_key key passphrase rsa_hash

  abbrev pub private_key_with_passphrase : PrivateKey → Text → AuthMethod client
  private_key_with_passphrase key passphrase =
      with_key_options key (some passphrase) RsaHashAlgorithm.auto

  abbrev pub private_key_with_rsa_hash : PrivateKey → RsaHashAlgorithm → AuthMethod client
  private_key_with_rsa_hash key rsa_hash = with_key_options key none rsa_hash

  abbrev pub private_key_with_passphrase_and_rsa_hash :
      PrivateKey → Text → RsaHashAlgorithm → AuthMethod client
  private_key_with_passphrase_and_rsa_hash key passphrase rsa_hash =
      with_key_options key (some passphrase) rsa_hash

  abbrev pub openssh_certificate : PrivateKey → Certificate → AuthMethod client
  openssh_certificate key certificate = AuthMethod.openssh_certificate key certificate none

  abbrev pub openssh_certificate_with_passphrase :
      PrivateKey → Certificate → Text → AuthMethod client
  openssh_certificate_with_passphrase key certificate passphrase =
      AuthMethod.openssh_certificate key certificate (some passphrase)

  -- `keyboard_interactive` and `keyboard_interactive_handler`
  abbrev pub keyboard_interactive :
      (KeyboardInteractiveChallenge → Async World SshError (List Text)) → AuthMethod client
  keyboard_interactive handler = AuthMethod.keyboard_interactive none handler

  abbrev pub keyboard_interactive_with_submethods :
      Text → (KeyboardInteractiveChallenge → Async World SshError (List Text)) → AuthMethod client
  keyboard_interactive_with_submethods submethods handler =
      AuthMethod.keyboard_interactive (some submethods) handler

  abbrev pub agent : AuthMethod client
  agent = AuthMethod.agent none RsaHashAlgorithm.auto

  abbrev pub agent_from_socket : Text → AuthMethod client
  agent_from_socket path = AuthMethod.agent (some path) RsaHashAlgorithm.auto

  abbrev pub agent_with_rsa_hash : RsaHashAlgorithm → AuthMethod client
  agent_with_rsa_hash rsa_hash = AuthMethod.agent none rsa_hash

  -- `AuthenticationPlan::single` and `From<AuthMethod> for AuthenticationPlan`
  abbrev pub single : AuthMethod client → List (AuthMethod client)
  single method = method ∷ []

  abbrev pub push : AuthMethod client → List (AuthMethod client) → List (AuthMethod client)
  push method methods = methods ++ method ∷ []
