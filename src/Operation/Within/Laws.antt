-- ===== src/Operation/Within/Laws.antt =====
-- src/core/operation.rs: what code under `run` and `run_with` has done when the call returns.
use xssh_rust_lib.Base.{ℕ, Text, Bool, true, Result, some, ok, err, ◌≡◌, ◌≢◌, ap, arith}
use xssh_rust_lib.Base.Async.{Async, Outcome, ready, panics, pending}
use xssh_rust_lib.Base.Async.Laws.{Ensures}
use xssh_rust_lib.Error
use xssh_rust_lib.Error.{SshError}
use xssh_rust_lib.Operation.{OperationContext, Surroundings, Future, run, run_with}
use xssh_rust_lib.Operation.Laws.{run-ok, run-ne-pending, run-names_operation}
use xssh_rust_lib.Operation.Within.{Environment, future_of, settles, or_panics, run_in, run_with_in}

module _ {A : Type 0} (around : Surroundings) (context : OperationContext) (operation : Text) where
  settled :
      (future : Future SshError A) {a : A}
      → run around context operation future ≡ ready (ok a)
      → settles around context future.ready_at ≡ true
  unfolding run settles
  settled future h = ground arith

  settled_with :
      {E : Type 0} (from : SshError → E) (future : Future E A) {a : A}
      → run_with from around context operation future ≡ ready (ok a)
      → (future.output ≡ ok a) × (settles around context future.ready_at ≡ true)
  unfolding run_with run settles
  settled_with from future h = ground arith

future_of-ok :
    {E A : Type 0} (unused : E) (now : ℕ) (outcome : Outcome E A) {a : A}
    → (future_of unused now outcome).output ≡ ok a
    → outcome ≡ ready (ok a)
future_of-ok unused now (ready result) h = ap ready h
future_of-ok unused now panics h = absurd cc
future_of-ok unused now pending h = absurd cc

module _ {E F A : Type 0} where
  pub or_panics-ready :
      (done : Bool) (outcome : Outcome E A) (result : Outcome F A) {r : Result F A}
      → or_panics done outcome result ≡ ready r
      → result ≡ ready r
  unfolding or_panics
  or_panics-ready done outcome result h = ground arith

  pub or_panics-ne-pending :
      (done : Bool) (outcome : Outcome E A) (result : Outcome F A)
      → result ≢ pending
      → or_panics done outcome result ≢ pending
  unfolding or_panics
  or_panics-ne-pending done outcome result n = ground arith

module _ {World A : Type 0} (environment : Environment World) (context : OperationContext)
    (operation : Text) where
  open environment use {around, abandoned}

  -- A call that succeeds has run the code to its end, successfully, and has left its world.
  pub run_in-Ensures :
      (code : Async World SshError A) (world : World) {Q : A → World → Type 0}
      → Ensures (code world) Q
      → Ensures (run_in environment context operation code world) Q
  unfolding run_in
  run_in-Ensures code world {Q} inner = record {
    ensured = λ {a} h.
        let outcome = (code world).0 in
        let future = future_of (Error.cancelled operation) (around (code world).1).now outcome in
        let ran = or_panics-ready _ outcome _ h in
        let (output, _, _, _, _, _) = run-ok (around world) context operation future a ran in
        let done = settled (around world) context operation future ran in
        rw done (
          inner.ensured
            (future_of-ok (Error.cancelled operation) (around (code world).1).now outcome output));
  }

  pub run_with_in-Ensures :
      {E : Type 0} (from : SshError → E) (code : Async World E A) (world : World)
      {Q : A → World → Type 0}
      → Ensures (code world) Q
      → Ensures (run_with_in environment context operation from code world) Q
  unfolding run_with_in
  run_with_in-Ensures from code world {Q} inner = record {
    ensured = λ {a} h.
        let outcome = (code world).0 in
        let future =
          future_of (from (Error.cancelled operation)) (around (code world).1).now outcome in
        let ran = or_panics-ready _ outcome _ h in
        let (output, done) = settled_with (around world) context operation from future ran in
        rw done (
          inner.ensured (
            future_of-ok (from (Error.cancelled operation)) (around (code world).1).now outcome
              output));
  }

  pub run_in-ne-pending :
      (code : Async World SshError A) (world : World) (deadline : ℕ)
      → context.deadline ≡ some deadline
      → (run_in environment context operation code world).0 ≢ pending
  unfolding run_in
  run_in-ne-pending code world deadline h =
      or_panics-ne-pending _ (code world).0 _
        (run-ne-pending (around world) context operation _ deadline h)

  pub run_in-names_operation :
      (code : Async World SshError A) (world : World) (error : SshError)
      → (run_in environment context operation code world).0 ≡ ready (err error)
      → error.context.operation ≡ some operation
  unfolding run_in
  run_in-names_operation code world error h =
      run-names_operation (around world) context operation _ error
        (or_panics-ready _ (code world).0 _ h)
