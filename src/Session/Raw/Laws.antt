-- ===== src/Session/Raw/Laws.antt =====
-- src/core/session.rs: a call of the crate under a context, when it succeeds.
use xssh_rust_lib.Base.{Text, ok, ◌≡◌, ap}
use xssh_rust_lib.Base.Async.{Async, ready, fail_with}
use xssh_rust_lib.Base.Async.Laws.{Ensures}
use xssh_rust_lib.Base.Async.Failing.{fail_with-Ensures}
use xssh_rust_lib.Operation.{OperationContext}
use xssh_rust_lib.Operation.Within.{Environment}
use xssh_rust_lib.Operation.Within.Laws.{run_in-Ensures}
use xssh_rust_lib.Session.Raw.{remote_call, channel_error}

module _ {World : Type 0} (environment : Environment World) where
  -- A call of the crate that succeeds was answered, in the world that it leaves.
  pub remote_call-Ensures :
      {A : Type 0} (context : OperationContext) (operation : Text) (code : Async World Text A)
      (world : World)
      → Ensures
          (remote_call environment context operation code world)
          (λ a after. code world ≡ (ready (ok a), after))
  unfolding remote_call
  remote_call-Ensures context operation code world =
      run_in-Ensures environment context operation (fail_with channel_error code) world (
        fail_with-Ensures channel_error code world
          (record { ensured = λ h. ap (λ outcome. (outcome, (code world).1)) h }))
