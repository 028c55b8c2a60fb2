-- ===== src/Operation/Within.antt =====
-- src/core/operation.rs: `run` and `run_with` around code that acts on the world outside, which has
-- the clock and the token in it. Code that is interrupted leaves a world of its own behind.
pub mod Laws
pub mod Interrupted
pub mod Timed
use xssh_rust_lib.Base.{
  ℕ, [], Text, Bool, true, false, Option, none, some, Result, ok, err, if◌then◌else◌,
}
use xssh_rust_lib.Base.Async.{Async, Outcome, ready, panics, pending}
use xssh_rust_lib.Error
use xssh_rust_lib.Error.{SshError}
use xssh_rust_lib.Operation.{
  OperationContext, Surroundings, Future, with_timeout_from_now, run, run_with,
}

-- `abandoned` takes the name of the operation, the world in which it began and the one in which it
-- would have ended.
pub record Environment (World : Type 0) : Type 0 where
  pub around : World → Surroundings
  pub abandoned : Text → World → World → World

-- The code as a future, ready at the instant that its last world shows. One that panics or waits for
-- ever has no output, and `unused` is never returned.
abbrev pub future_of {ℓ κ} : {E : Type κ} {A : Type ℓ} → E → ℕ → Outcome E A → Future E A
future_of unused now (ready result) = record { ready_at = some now; output = result }
future_of unused now panics = record { ready_at = some now; output = err unused }
future_of unused now pending = record { ready_at = none; output = err unused }

-- Whether a call polls the future to its end.
unfoldable pub settles : Surroundings → OperationContext → Option ℕ → Bool
unfolding run
settles around context ready_at =
    elim (run around context [] (record { ready_at = ready_at; output = ok (tt {0}) })) [
      | ready (ok _) ↦ true
      | _ ↦ false
    ]

-- A panic of code that the call polls to its end is one of the call.
unfoldable pub or_panics : {E F A : Type 0} → Bool → Outcome E A → Outcome F A → Outcome F A
or_panics true panics result = panics
or_panics done outcome result = result

abbrev pub limited_or_panics : {E : Type 0} → Option OperationContext → Outcome E OperationContext
limited_or_panics none = panics
limited_or_panics (some limited) = ready (ok limited)

module _ {World : Type 0} (environment : Environment World) where
  open environment use {around, abandoned}

  -- `context.clone().with_timeout_from_now(timeout)`
  abbrev pub timed : {E : Type 0} → ℕ → OperationContext → Async World E OperationContext
  timed timeout context world =
      (limited_or_panics (with_timeout_from_now (around world) timeout context), world)

  -- The world that the call leaves.
  abbrev left_by : Bool → Text → World → World → World
  left_by done operation world world' = if done then world' else abandoned operation world world'

  module _ {A : Type 0} (context : OperationContext) (operation : Text) where
    unfoldable pub run_in : Async World SshError A → Async World SshError A
    run_in code world =
        let (outcome, world') = code world in
        let future = future_of (Error.cancelled operation) (around world').now outcome in
        let done = settles (around world) context future.ready_at in
        (
          or_panics done outcome (run (around world) context operation future),
          left_by done operation world world',
        )

    unfoldable pub run_with_in : {E : Type 0} → (SshError → E) → Async World E A → Async World E A
    run_with_in from code world =
        let (outcome, world') = code world in
        let future = future_of (from (Error.cancelled operation)) (around world').now outcome in
        let done = settles (around world) context future.ready_at in
        (
          or_panics done outcome (run_with from (around world) context operation future),
          left_by done operation world world',
        )
