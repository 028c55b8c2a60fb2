-- ===== src/Auth/Plan.antt =====
-- src/core/session.rs, `authenticate`: the methods of a plan, tried in their order.
pub mod Laws
pub mod Loop
pub mod Order
use xssh_rust_lib.Base.{
  ℕ, Text, codes, Bool, true, false, List, [], ◌∷◌, ◌++◌, Option, none, some, Result, ok, err,
  is_empty, if◌then◌else◌,
}
use xssh_rust_lib.Base.Async.{Async, Outcome, ready, panics, pending}
use xssh_rust_lib.Error
use xssh_rust_lib.Error.{SshError}
use xssh_rust_lib.Auth.Types.{
  AuthenticationObservation, AuthenticationAttempt, AuthMethodKind, ServerAuthMethod,
  no_observation,
}
use xssh_rust_lib.Auth.Client.{Client, AuthMethod, kind}
use xssh_rust_lib.Auth.Method.{AuthOutcome, authenticate_method}

unfoldable pub record_failure :
    AuthMethodKind
    → List ServerAuthMethod
    → Bool
    → AuthenticationObservation
    → AuthenticationObservation
record_failure method remaining_methods partial_success observation = record {
  attempts =
      observation.attempts
      ++ (record {
        method = method;
        accepted = false;
        partial_success = partial_success;
        remaining_methods = remaining_methods;
        error = none;
      }
          ∷ []);
  remaining_methods = remaining_methods;
  partial_success = partial_success;
}

unfoldable pub record_error :
    AuthMethodKind → SshError → AuthenticationObservation → AuthenticationObservation
record_error method error observation = record observation {
  attempts =
      observation.attempts
      ++ (record {
        method = method;
        accepted = false;
        partial_success = false;
        remaining_methods = [];
        error = some error.message;
      }
          ∷ []);
}

abbrev pub error_or : Option SshError → SshError → SshError
error_or none other = other
error_or (some error) other = error

-- What is returned when no method is left.
unfoldable pub give_up : AuthenticationObservation → Option SshError → SshError
give_up observation last_error =
    Error.with_authentication_observation observation
      (error_or last_error (Error.authentication (codes "SSH authentication failed")))

module _ (client : Client) (rounds : ℕ) (username : Text) where
  -- What follows the outcome of one method, `rest` being the rest of the plan.
  unfoldable pub after_attempt :
      AuthMethod client
      → (AuthenticationObservation → Option SshError → Async client.World SshError (Unit {0}))
      → AuthenticationObservation
      → Outcome SshError AuthOutcome
      → Async client.World SshError (Unit {0})
  after_attempt method rest observation (ready (ok outcome)) world =
      let failed =
        rest
          (record_failure (kind method) outcome.remaining_methods outcome.partial_success
            observation)
          none world in
      if outcome.accepted then (ready (ok tt), world) else failed
  after_attempt method rest observation (ready (err error)) world =
      let observation' = record_error (kind method) error observation in
      let next = rest observation' (some error) world in
      if client.is_closed world
      then (ready (err (give_up observation' (some error))), world)
      else next
  after_attempt method rest observation panics world = (panics, world)
  after_attempt method rest observation pending world = (pending, world)

  -- The `for` loop. The rest of the plan runs in the world that the method leaves.
  unfoldable pub try_methods :
      List (AuthMethod client)
      → AuthenticationObservation
      → Option SshError
      → Async client.World SshError (Unit {0})
  unfolding after_attempt
  try_methods [] observation last_error world =
      (ready (err (give_up observation last_error)), world)
  try_methods (method ∷ methods) observation last_error world =
      let (outcome, world') = authenticate_method client rounds username method world in
      after_attempt method (try_methods methods) observation outcome world'

  unfoldable pub authenticate : List (AuthMethod client) → Async client.World SshError (Unit {0})
  authenticate plan world =
      let run = try_methods plan no_observation none world in
      if is_empty plan
      then (
        ready (
            err (
              Error.configuration
                (codes "SSH authentication plan must contain at least one method"))),
        world,
      )
      else run
