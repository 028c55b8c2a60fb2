-- ===== src/Auth/Method.antt =====
-- src/core/session.rs, `authenticate_method` and what it calls: one method of a plan.
pub mod Rounds
use xssh_rust_lib.Base.{
  ℕ, zero, suc, Text, codes, Bool, true, false, not, List, [], ◌∷◌, ◌++◌, Option, none, some,
  Result, ok, err, length, map, ◌!=◌, nat_eq, if◌then◌else◌,
}
use xssh_rust_lib.Base.Async.{Async, pending, pure, raise, lift, fail_with, ◌>>=◌}
use xssh_rust_lib.Base.Str.Decimal.{to_decimal}
use xssh_rust_lib.Error
use xssh_rust_lib.Error.{SshError}
use xssh_rust_lib.Error.Kind.{ErrorKind}
use xssh_rust_lib.Auth.Types.{ServerAuthMethod}
use xssh_rust_lib.Auth.Client.{
  Client, HashAlg, MethodKind, AuthResult, KeyboardResponse, KeyboardInteractiveChallenge,
  RsaHashAlgorithm, AuthMethod,
}

pub record AuthOutcome : Type 0 where
  pub accepted : Bool
  pub remaining_methods : List ServerAuthMethod
  pub partial_success : Bool

-- `AuthOutcome::default`
abbrev pub no_outcome : AuthOutcome
no_outcome = record { accepted = false; remaining_methods = []; partial_success = false }

unfoldable pub server_auth_method : MethodKind → ServerAuthMethod
server_auth_method MethodKind.none = ServerAuthMethod.none
server_auth_method MethodKind.password = ServerAuthMethod.password
server_auth_method MethodKind.public_key = ServerAuthMethod.public_key
server_auth_method MethodKind.host_based = ServerAuthMethod.host_based
server_auth_method MethodKind.keyboard_interactive = ServerAuthMethod.keyboard_interactive

unfoldable pub server_auth_methods : List MethodKind → List ServerAuthMethod
server_auth_methods methods = map server_auth_method methods

unfoldable pub auth_outcome : AuthResult → AuthOutcome
auth_outcome AuthResult.success = record no_outcome { accepted = true }
auth_outcome (AuthResult.failure remaining partial_success) = record no_outcome {
  remaining_methods = server_auth_methods remaining;
  partial_success = partial_success;
}

unfoldable pub authentication_source_error : Text → SshError
authentication_source_error shown = Error.from_source ErrorKind.authentication shown shown

module _ (client : Client) where
  -- A call of the crate, its error as one of authentication.
  abbrev pub call : {A : Type 0} → Async client.World Text A → Async client.World SshError A
  call m = fail_with authentication_source_error m

  unfoldable pub decrypt_private_key :
      client.PrivateKey → Option Text → Result SshError client.PrivateKey
  decrypt_private_key key passphrase =
      if not (client.is_encrypted key) then ok key else elim passphrase [
        | none ↦ err (Error.configuration (codes "encrypted private key requires a passphrase"))
        | some secret ↦ elim (client.decrypt key secret) [
          | ok plain ↦ ok plain
          | err shown ↦ err (
              Error.from_source ErrorKind.configuration
                (codes "failed to decrypt private key: " ++ shown) shown)
        ]
      ]

  candidates : Option (Option HashAlg) → List (Option HashAlg)
  candidates (some (some hash)) = some hash ∷ []
  candidates (some none) = none ∷ []
  candidates none = some HashAlg.sha512 ∷ some HashAlg.sha256 ∷ []

  by_selection : RsaHashAlgorithm → Async client.World SshError (List (Option HashAlg))
  unfolding candidates
  by_selection RsaHashAlgorithm.sha256 = pure (some HashAlg.sha256 ∷ [])
  by_selection RsaHashAlgorithm.sha512 = pure (some HashAlg.sha512 ∷ [])
  by_selection RsaHashAlgorithm.legacy_sha1 = pure (none ∷ [])
  by_selection RsaHashAlgorithm.auto = do
    supported ← call client.best_supported_rsa_hash
    pure (candidates supported)

  unfoldable pub rsa_hash_candidates :
      Bool → RsaHashAlgorithm → Async client.World SshError (List (Option HashAlg))
  unfolding by_selection
  rsa_hash_candidates is_rsa selection =
      if not is_rsa then pure (none ∷ []) else by_selection selection

  -- The loop over the hash algorithms; `attempt` is the request to the server.
  unfoldable pub try_hashes :
      (Option HashAlg → Async client.World Text AuthResult)
      → List (Option HashAlg)
      → AuthOutcome
      → Async client.World SshError AuthOutcome
  try_hashes attempt [] last_outcome = pure last_outcome
  try_hashes attempt (hash ∷ hashes) last_outcome = do
    result ← call (attempt hash)
    let outcome = auth_outcome result
    let rest = try_hashes attempt hashes outcome
    if outcome.accepted then pure outcome else rest

  unfoldable pub authenticate_private_key :
      Text
      → client.PrivateKey
      → Option Text
      → RsaHashAlgorithm
      → Async client.World SshError AuthOutcome
  authenticate_private_key username key passphrase rsa_hash = do
    plain ← lift (decrypt_private_key key passphrase)
    hashes ← rsa_hash_candidates (client.is_rsa plain) rsa_hash
    try_hashes (client.authenticate_publickey username plain) hashes no_outcome

  unfoldable pub authenticate_certificate :
      Text
      → client.PrivateKey
      → client.Certificate
      → Option Text
      → Async client.World SshError AuthOutcome
  authenticate_certificate username key certificate passphrase = do
    plain ← lift (decrypt_private_key key passphrase)
    if not (client.is_user certificate)
        then raise
            (Error.configuration (codes "OpenSSH authentication requires a user certificate"))
        else if not (client.certifies certificate plain)
        then raise
            (Error.configuration (codes "OpenSSH certificate does not match the private key"))
        else do
          result ← call (client.authenticate_openssh_cert username plain certificate)
          pure (auth_outcome result)

  -- The loop over the identities of an agent.
  unfoldable pub try_identities :
      Text
      → RsaHashAlgorithm
      → client.Agent
      → List client.PublicKey
      → AuthOutcome
      → Async client.World SshError AuthOutcome
  try_identities username rsa_hash agent [] last_outcome = pure last_outcome
  try_identities username rsa_hash agent (key ∷ keys) last_outcome = do
    hashes ← rsa_hash_candidates (client.is_rsa_public key) rsa_hash
    outcome ←
        try_hashes (λ hash. client.authenticate_publickey_with username key hash agent) hashes
          last_outcome
    let rest = try_identities username rsa_hash agent keys outcome
    if outcome.accepted then pure outcome else rest

  -- On Unix.
  unfoldable pub connect_agent : Option Text → Async client.World SshError client.Agent
  connect_agent (some path) = call (client.connect_uds path)
  connect_agent none = call client.connect_env

  unfoldable pub authenticate_agent :
      Text → Option Text → RsaHashAlgorithm → Async client.World SshError AuthOutcome
  authenticate_agent username socket rsa_hash = do
    agent ← connect_agent socket
    identities ← call (client.request_identities agent)
    try_identities username rsa_hash agent identities no_outcome

  unfoldable pub too_few : ℕ → ℕ → SshError
  too_few given asked = Error.configuration (
      codes "keyboard-interactive handler returned "
      ++ (to_decimal given ++ (codes " responses for " ++ (to_decimal asked ++ codes " prompts"))))

  -- The `loop`: `rounds` bounds the challenges that are followed, and a longer exchange waits.
  unfoldable pub converse :
      (KeyboardInteractiveChallenge → Async client.World SshError (List Text))
      → ℕ
      → KeyboardResponse
      → Async client.World SshError AuthOutcome
  unfolding too_few
  converse respond rounds KeyboardResponse.success = pure (record no_outcome { accepted = true })
  converse respond rounds (KeyboardResponse.failure remaining partial_success) =
      pure (record no_outcome {
        remaining_methods = server_auth_methods remaining;
        partial_success = partial_success;
      })
  converse respond zero (KeyboardResponse.info_request name instructions prompts) =
      λ world. (pending, world)
  converse respond (suc rounds) (KeyboardResponse.info_request name instructions prompts) = do
    responses ← respond (record { name = name; instructions = instructions; prompts = prompts })
    if length responses != length prompts
        then raise (too_few (length responses) (length prompts))
        else do
          response ← call (client.keyboard_interactive_respond responses)
          converse respond rounds response

  unfoldable pub authenticate_keyboard_interactive :
      ℕ
      → Text
      → Option Text
      → (KeyboardInteractiveChallenge → Async client.World SshError (List Text))
      → Async client.World SshError AuthOutcome
  authenticate_keyboard_interactive rounds username submethods respond = do
    response ← call (client.keyboard_interactive_start username submethods)
    converse respond rounds response

  unfoldable pub authenticate_method :
      ℕ → Text → AuthMethod client → Async client.World SshError AuthOutcome
  authenticate_method rounds username (AuthMethod.password secret) = do
    result ← call (client.authenticate_password username secret)
    pure (auth_outcome result)
  authenticate_method rounds username (AuthMethod.private_key key passphrase rsa_hash) =
      authenticate_private_key username key passphrase rsa_hash
  authenticate_method rounds username (AuthMethod.openssh_certificate key certificate passphrase) =
      authenticate_certificate username key certificate passphrase
  authenticate_method rounds username (AuthMethod.keyboard_interactive submethods respond) =
      authenticate_keyboard_interactive rounds username submethods respond
  authenticate_method rounds username (AuthMethod.agent socket rsa_hash) =
      authenticate_agent username socket rsa_hash
