-- ===== src/Operation/Laws.antt =====
-- src/core/operation.rs: what `run` promises its callers.
use xssh_rust_lib.Base.{
  inr, ℕ, ◌+◌, ◌≤◌, ◌<◌, Text, Option, none, some, ok, err, min, max, ◌≡◌, ◌≢◌, ◌⊎◌, inl, refl,
  arith, dec_lt, ltb, true, false,
}
use xssh_rust_lib.Base.Fallible.{map_err}
use xssh_rust_lib.Base.Async.{ready, pending}
use xssh_rust_lib.Error
use xssh_rust_lib.Error.{SshError}
use xssh_rust_lib.Operation.{
  OperationContext, Surroundings, Future, with_timeout_from_now, timeout_deadline, run,
  cancelled_error, timeout_error,
}

-- An instant is no later than one that may never come.
abbrev pub NotAfter : ℕ → Option ℕ → Type 0
NotAfter at none = Unit
NotAfter at (some limit) = at ≤ limit

abbrev pub Before : ℕ → Option ℕ → Type 0
Before at none = Unit
Before at (some limit) = at < limit

-- The context has a deadline: no later than the limit and no later than the one before, and one of
-- these two.
abbrev pub Limited : OperationContext → ℕ → Option OperationContext → Type 0
Limited context limit limited =
    (merged : ℕ) × (limited ≡ some (record { deadline = some merged }))
    × (merged ≤ limit)
    × NotAfter merged context.deadline
    × ((merged ≡ limit) ⊎ (context.deadline ≡ some merged))

limited_lem :
    (limit : ℕ) (deadline : Option ℕ)
    → Limited
        (record { deadline = deadline })
        limit
        (elim deadline [
          | some existing ↦ some (record { deadline = some (min existing limit) })
          | none ↦ some (record { deadline = some limit })
        ])
limited_lem limit none = (limit, refl, omega arith, tt, inl refl)
limited_lem limit (some old) = (min old limit, refl, omega arith, omega arith, ground arith)

-- A timeout panics exactly if its end is past the latest instant that the clock can tell. Otherwise it
-- leaves a deadline: no later than the timeout allows, no later than a deadline that was there before,
-- and one of these two.
pub with_timeout_from_now_lem :
    (around : Surroundings) (timeout : ℕ) (context : OperationContext)
    → ((around.latest < around.now + timeout)
        × (with_timeout_from_now around timeout context ≡ none))
      ⊎ ((around.now + timeout ≤ around.latest)
          × Limited context (around.now + timeout) (with_timeout_from_now around timeout context))
unfolding with_timeout_from_now timeout_deadline
with_timeout_from_now_lem around timeout context =
    let limit = around.now + timeout in
    elim (dec_lt around.latest limit) [
      | yes late ↦
          let past : ltb around.latest limit ≡ true = ground arith in
          inl (late, rw (past, with_timeout_from_now) refl)
      | no soon ↦
          let past : ltb around.latest limit ≡ false = ground arith in
          inr (omega arith, rw (past, with_timeout_from_now) (limited_lem limit context.deadline))
    ]

-- The instant at which the deadline is noticed.
abbrev pub expires_at : Surroundings → OperationContext → Option ℕ
expires_at around context = elim context.deadline [
  | none ↦ none
  | some deadline ↦ some (max around.now deadline)
]

-- The instant at which the future is found ready, by a call that begins at `now`.
abbrev pub found_at : ℕ → Option ℕ → Option ℕ
found_at now none = none
found_at now (some at) = some (max at now)

module _ {A : Type 0} (around : Surroundings) (context : OperationContext) (operation : Text)
    (future : Future SshError A) where
  pub run-ne-pending :
      (deadline : ℕ)
      → context.deadline ≡ some deadline
      → run around context operation future ≢ pending
  unfolding run
  run-ne-pending deadline h = ground arith

  -- Every error that comes out names the operation of the call.
  pub run-names_operation :
      (error : SshError)
      → run around context operation future ≡ ready (err error)
      → error.context.operation ≡ some operation
  unfolding run Error.with_operation
  run-names_operation error h = ground arith

  -- A success is the future's own, ready no later than the deadline and no later than the
  -- cancellation, which was not there when the call began.
  pub run-ok :
      (a : A)
      → run around context operation future ≡ ready (ok a)
      → (future.output ≡ ok a)
        × (at : ℕ) × (future.ready_at ≡ some at)
        × NotAfter (max at around.now) (expires_at around context)
        × NotAfter (max at around.now) around.cancelled_at
        × Before around.now around.cancelled_at
  unfolding run
  run-ok a h = ground arith

  -- A future that is ready by the deadline and before the cancellation gives its output, with the
  -- operation written into an error.
  pub run-future :
      (at : ℕ)
      → found_at around.now future.ready_at ≡ some at
      → NotAfter at (expires_at around context)
      → Before at around.cancelled_at
      → run around context operation future
        ≡ ready (map_err (Error.with_operation operation) future.output)
  unfolding run
  run-future at found by_deadline uncancelled = ground arith

  -- A deadline that passes before the future is ready and before the cancellation gives the timeout.
  pub run-timeout :
      (limit : ℕ)
      → expires_at around context ≡ some limit
      → Before limit (found_at around.now future.ready_at)
      → Before limit around.cancelled_at
      → run around context operation future ≡ ready (err (timeout_error operation))
  unfolding run
  run-timeout limit passes unready uncancelled = ground arith

  -- A cancellation before the future is ready and before the deadline, or before the call, gives the
  -- cancellation's error.
  pub run-cancelled :
      (cancel : ℕ)
      → around.cancelled_at ≡ some cancel
      → Before cancel (found_at around.now future.ready_at)
      → Before cancel (expires_at around context)
      → run around context operation future ≡ ready (err (cancelled_error operation))
  unfolding run
  run-cancelled cancel cancelled unready undue = ground arith
