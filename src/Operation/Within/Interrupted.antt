-- ===== src/Operation/Within/Interrupted.antt =====
-- src/core/operation.rs, `run_with`: its errors, and that it returns.
use xssh_rust_lib.Base.{ℕ, Text, none, some, Result, err, ◌≡◌, ◌≢◌, ◌⊎◌, inl, inr, arith, ap}
use xssh_rust_lib.Base.Async.{Async, Outcome, ready, panics, pending}
use xssh_rust_lib.Error
use xssh_rust_lib.Error.{SshError}
use xssh_rust_lib.Operation.{
  OperationContext, Surroundings, Future, run, run_with, cancelled_error, timeout_error,
}
use xssh_rust_lib.Operation.Within.{Environment, future_of, settles, or_panics, run_with_in}
use xssh_rust_lib.Operation.Within.Laws.{or_panics-ready, or_panics-ne-pending}

module _ {E A : Type 0} (from : SshError → E) (around : Surroundings) (context : OperationContext)
    (name : Text) where
  -- An error is the future's own, or tells of an interruption.
  interrupted_or :
      (at : ℕ) (output : Result E A) {e : E}
      → run_with from around context name (record { ready_at = some at; output = output })
        ≡ ready (err e)
      → (output ≡ err e) ⊎ ((e ≡ from (cancelled_error name)) ⊎ (e ≡ from (timeout_error name)))
  unfolding run_with
  interrupted_or at output h = ground arith

  interrupted :
      (output : Result E A) {e : E}
      → run_with from around context name (record { ready_at = none; output = output })
        ≡ ready (err e)
      → (e ≡ from (cancelled_error name)) ⊎ (e ≡ from (timeout_error name))
  unfolding run_with
  interrupted output h = ground arith

  run_with-ne-pending :
      (future : Future E A) (deadline : ℕ)
      → context.deadline ≡ some deadline
      → run_with from around context name future ≢ pending
  unfolding run_with
  run_with-ne-pending future deadline h = ground arith

  -- A panic comes out unless the call is interrupted first.
  unsettled :
      (at : ℕ) (output : Result E A) {e : E}
      → or_panics {E = E}
          (settles around context (some at))
          panics
          (run_with from around context name (record { ready_at = some at; output = output }))
        ≡ ready (err e)
      → (e ≡ from (cancelled_error name)) ⊎ (e ≡ from (timeout_error name))
  unfolding run_with run settles or_panics
  unsettled at output h = ground arith

  future-err :
      (unused : E) (now : ℕ) (outcome : Outcome E A) {e : E}
      → or_panics
          (settles around context (future_of unused now outcome).ready_at)
          outcome
          (run_with from around context name (future_of unused now outcome))
        ≡ ready (err e)
      → (outcome ≡ ready (err e))
        ⊎ ((e ≡ from (cancelled_error name)) ⊎ (e ≡ from (timeout_error name)))
  future-err unused now (ready result) h =
      elim (interrupted_or now result (or_panics-ready _ (ready result) _ h)) [
        | inl same ↦ inl (ap ready same)
        | inr other ↦ inr other
      ]
  future-err unused now panics h = inr (unsettled now (err unused) h)
  future-err unused now pending h =
      inr (interrupted (err unused) (or_panics-ready {E = E} _ pending _ h))

module _ {World E A : Type 0} (environment : Environment World) (from : SshError → E)
    (context : OperationContext) (name : Text) (code : Async World E A) (world : World) where
  pub run_with_in-err :
      {e : E}
      → (run_with_in environment context name from code world).0 ≡ ready (err e)
      → ((code world).0 ≡ ready (err e))
        ⊎ ((e ≡ from (cancelled_error name)) ⊎ (e ≡ from (timeout_error name)))
  unfolding run_with_in
  run_with_in-err h =
      future-err from (environment.around world) context name (from (Error.cancelled name))
        (environment.around (code world).1).now (code world).0 h

  pub run_with_in-ne-pending :
      (deadline : ℕ)
      → context.deadline ≡ some deadline
      → (run_with_in environment context name from code world).0 ≢ pending
  unfolding run_with_in
  run_with_in-ne-pending deadline h =
      or_panics-ne-pending _ (code world).0 _
        (run_with-ne-pending from (environment.around world) context name _ deadline h)
