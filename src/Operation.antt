-- ===== src/Operation.antt =====
-- src/core/operation.rs: deadlines and cancellation of asynchronous operations.
-- Instants and durations are numbers of one unit. A future is what becomes of it if it is polled:
-- the instant at which it is ready, if ever, and its output; code that panics is in Within. The
-- environment of a call is the latest instant that the clock can tell, the instant at which the call
-- starts, the instant at which its token is cancelled, if ever, and which branch `select!` polls
-- first, since it chooses at random between branches that are ready at once.
pub mod Token
pub mod Laws
pub mod Within
use xssh_rust_lib.Base.{
  ℕ, ◌+◌, ◌-◌, Text, codes, Bool, true, false, List, [], ◌∷◌, ◌++◌, Option, none, some, Result, ok,
  err, min, max, ltb, leb, if◌then◌else◌,
}
use xssh_rust_lib.Base.Fallible.{map_err}
use xssh_rust_lib.Base.Async.{Outcome, ready, panics, pending}
use xssh_rust_lib.Error
use xssh_rust_lib.Error.{SshError}

pub record OperationContext : Type 0 where
  pub deadline : Option ℕ

-- What happens around one call.
pub record Surroundings : Type 0 where
  pub latest : ℕ
  pub now : ℕ
  pub cancelled_at : Option ℕ
  pub cancel_first : Bool

pub record Future {ℓ κ} (E : Type κ) (A : Type ℓ) : Type (ℓ ⊔ κ) where
  pub ready_at : Option ℕ
  pub output : Result E A

abbrev pub new : OperationContext
new = record { deadline = none }

abbrev pub with_deadline : ℕ → OperationContext
with_deadline deadline = record { deadline = some deadline }

-- `Instant::now() + timeout`, which panics past the latest instant.
unfoldable pub timeout_deadline : Surroundings → ℕ → Option ℕ
timeout_deadline around timeout =
    if ltb around.latest (around.now + timeout) then none else some (around.now + timeout)

-- Adds a timeout, and never extends an earlier deadline; `none` if it panics.
unfoldable pub with_timeout_from_now : Surroundings → ℕ → OperationContext → Option OperationContext
unfolding timeout_deadline
with_timeout_from_now around timeout context = elim (timeout_deadline around timeout) [
  | none ↦ none
  | some deadline ↦ elim context.deadline [
    | some existing ↦ some (record { deadline = some (min existing deadline) })
    | none ↦ some (record { deadline = some deadline })
  ]
]

-- `OperationContext::with_timeout`
unfoldable pub with_timeout : Surroundings → ℕ → Option OperationContext
unfolding with_timeout_from_now
with_timeout around timeout = with_timeout_from_now around timeout new

unfoldable pub is_cancelled : Surroundings → Bool
is_cancelled around = elim around.cancelled_at [ none ↦ false | some at ↦ leb at around.now ]

unfoldable pub cancelled_error : Text → SshError
cancelled_error operation =
    Error.with_operation operation (Error.cancelled (operation ++ codes " was cancelled"))

unfoldable pub timeout_error : Text → SshError
timeout_error operation =
    Error.with_operation operation
      (Error.timeout (operation ++ codes " timed out after the operation deadline"))

-- `tokio::select!` of the token's cancellation and a branch. A branch that was ready before the
-- call is ready when it is polled.
select {ℓ κ} :
    {E : Type κ} {A : Type ℓ} → Surroundings → Result E A → Option ℕ → Result E A → Outcome E A
select around on_cancel branch_at output = elim around.cancelled_at [
  | none ↦ elim branch_at [ none ↦ pending | some at ↦ ready output ]
  | some cancel ↦ elim branch_at [
    | none ↦ ready on_cancel
    | some at ↦
        let at_least = max at around.now in
        if ltb at_least cancel
        then ready output
        else if ltb cancel at_least
        then ready on_cancel
        else if around.cancel_first
        then ready on_cancel
        else ready output
  ]
]

-- The instant at which `tokio::time::timeout(deadline.saturating_duration_since(now), …)` expires.
abbrev pub expiry : ℕ → ℕ → ℕ
expiry now deadline = now + (deadline - now)

-- Whether a future is ready by then; `timeout` polls it before it looks at the clock.
unfoldable pub in_time : ℕ → ℕ → Option ℕ → Bool
in_time now expires ready_at = elim ready_at [ none ↦ false | some at ↦ leb (max at now) expires ]

module _ {ℓ κ} {E : Type κ} {A : Type ℓ} where
  -- `run_with`: errors of the future stay as they are.
  unfoldable pub run_with :
      (SshError → E) → Surroundings → OperationContext → Text → Future E A → Outcome E A
  unfolding is_cancelled cancelled_error timeout_error select in_time
  run_with from around context operation future =
      let on_cancel = err (from (cancelled_error operation)) in
      if is_cancelled around then ready on_cancel else elim context.deadline [
        | some deadline ↦
            let expires = expiry around.now deadline in
            if in_time around.now expires future.ready_at
            then select around on_cancel future.ready_at future.output
            else select around on_cancel (some expires) (err (from (timeout_error operation)))
        | none ↦ select around on_cancel future.ready_at future.output
      ]

module _ {ℓ} {A : Type ℓ} where
  -- `run`: the operation is written into the errors of the future. The other two return at once,
  -- and name it already.
  unfoldable pub run :
      Surroundings → OperationContext → Text → Future SshError A → Outcome SshError A
  unfolding is_cancelled cancelled_error timeout_error select in_time
  run around context operation future =
      let named = map_err (Error.with_operation operation) future.output in
      let on_cancel = err (cancelled_error operation) in
      if is_cancelled around then ready on_cancel else elim context.deadline [
        | some deadline ↦
            let expires = expiry around.now deadline in
            if in_time around.now expires future.ready_at
            then select around on_cancel future.ready_at named
            else select around on_cancel (some expires) (err (timeout_error operation))
        | none ↦ select around on_cancel future.ready_at named
      ]

  unfoldable pub run_with_timeout :
      Surroundings → OperationContext → Text → ℕ → Future SshError A → Outcome SshError A
  unfolding run with_timeout_from_now
  run_with_timeout around context operation timeout future =
      elim (with_timeout_from_now around timeout context) [
        | none ↦ panics
        | some limited ↦ run around limited operation future
      ]
