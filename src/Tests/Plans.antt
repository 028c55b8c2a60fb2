-- ===== src/Tests/Plans.antt =====
-- The authentication of src/core/session.rs at concrete inputs.
use xssh_rust_lib.Base.{
  ℕ, ◌+◌, Text, codes, true, false, List, [], ◌∷◌, ◌++◌, some, ok, err, map, ◌==◌, list_eq, nat_eq,
  list_beq, if◌then◌else◌, ◌≡◌, ◌⊎◌, refl,
}
use xssh_rust_lib.Base.Async.{Async, Outcome, ready}
use xssh_rust_lib.Error.{SshError}
use xssh_rust_lib.Auth.Types.{AuthenticationObservation}
use xssh_rust_lib.Auth.Client.{
  Client, AuthMethod, AuthResult, KeyboardInteractiveChallenge, KeyboardResponse, MethodKind, kind,
}
use xssh_rust_lib.Auth.Method.{
  AuthOutcome, authenticate_method, authentication_source_error, auth_outcome,
}
use xssh_rust_lib.Auth.Method.{converse, no_outcome}
use xssh_rust_lib.Auth.Plan.{authenticate, try_methods}
use xssh_rust_lib.Auth.Plan.Laws.{methods_of, was_accepted, Ran}
use xssh_rust_lib.Auth.Plan.Order.{authenticate-err, authenticate-ok}

-- A server that knows one password; the world counts the requests, and it hangs up after three.
abbrev offline : {A : Type 0} → Async ℕ Text A
offline world = (ready (err (codes "offline")), world)

abbrev check_password : Text → Text → Async ℕ Text AuthResult
check_password username secret world = (
  ready (
      ok (
        if secret == codes "open"
        then AuthResult.success
        else AuthResult.failure (MethodKind.password ∷ []) false)),
  world + 1,
)

abbrev pub server : Client
server = record {
  World = ℕ;
  PrivateKey = ℕ;
  PublicKey = ℕ;
  Certificate = ℕ;
  Agent = ℕ;
  is_closed = λ world. world == 3;
  is_encrypted = λ key. false;
  decrypt = λ key secret. ok key;
  is_rsa = λ key. false;
  is_rsa_public = λ key. false;
  is_user = λ certificate. true;
  certifies = λ certificate key. true;
  authenticate_password = check_password;
  authenticate_publickey = λ username key hash. offline;
  authenticate_openssh_cert = λ username key certificate. offline;
  authenticate_publickey_with = λ username key hash agent. offline;
  keyboard_interactive_start = λ username submethods. offline;
  keyboard_interactive_respond =
      λ responses world. (ready (ok KeyboardResponse.success), world + 1);
  best_supported_rsa_hash = offline;
  connect_uds = λ path. offline;
  connect_env = offline;
  request_identities = λ agent. offline;
}

-- A user who answers nothing, asked for nothing.
abbrev silent : KeyboardInteractiveChallenge → Async ℕ SshError (List Text)
silent challenge world = (ready (ok []), world)

abbrev empty_challenge : KeyboardResponse
empty_challenge = KeyboardResponse.info_request (codes "banner") [] []

agreed :
    (converse server silent 1 empty_challenge 0).0
    ≡ ready (ok (record no_outcome { accepted = true }))
unfolding converse
agreed = refl

abbrev user : Text
user = codes "user"

abbrev pub wrong : AuthMethod server
wrong = AuthMethod.password (codes "shut")

abbrev pub right : AuthMethod server
right = AuthMethod.password (codes "open")

-- The error of an outcome, or another one.
abbrev authenticate_failure : Outcome SshError (Unit {0}) → SshError
authenticate_failure (ready (err e)) = e
authenticate_failure _ = authentication_source_error []

abbrev refusal : SshError
refusal = (authenticate_failure (authenticate server 1 user (wrong ∷ wrong ∷ []) 0).0)

opened : (authenticate server 1 user (wrong ∷ right ∷ []) 0).0 ≡ ready (ok tt)
unfolding authenticate try_methods authenticate_method auth_outcome list_beq codes
opened = refl

authenticate-ok_example :
    (tried : List (AuthMethod server)) × (method : AuthMethod server) × (untried : List
      (AuthMethod server))
    × (world' : ℕ) × (outcome : AuthOutcome) × (wrong ∷ right ∷ [] ≡ tried ++ method ∷ untried)
    × (outcome.accepted ≡ true)
    × (authenticate_method server 1 user method world'
        ≡ (ready (ok outcome), (authenticate server 1 user (wrong ∷ right ∷ []) 0).1))
authenticate-ok_example = authenticate-ok server 1 user (wrong ∷ right ∷ []) 0 opened

shut : (authenticate server 1 user (wrong ∷ wrong ∷ []) 0).0 ≡ ready (err refusal)
unfolding authenticate try_methods authenticate_method auth_outcome list_beq codes
shut = refl

authenticate-err_example :
    (tried untried : List (AuthMethod server)) × (observation : AuthenticationObservation) × (wrong
        ∷ wrong ∷ []
      ≡ tried ++ untried)
    × Ran server 1 user tried 0 observation.attempts
        (authenticate server 1 user (wrong ∷ wrong ∷ []) 0).1
    × (refusal.context.authentication_observation ≡ some observation)
    × (methods_of observation ≡ map kind tried)
    × (was_accepted observation ≡ false)
    × ((untried ≡ [])
        ⊎ (server.is_closed (authenticate server 1 user (wrong ∷ wrong ∷ []) 0).1 ≡ true))
authenticate-err_example = authenticate-err server 1 user wrong (wrong ∷ []) 0 shut
