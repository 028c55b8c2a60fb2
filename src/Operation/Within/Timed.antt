-- ===== src/Operation/Within/Timed.antt =====
-- src/core/operation.rs, `with_timeout_from_now`: chains that set a time limit first. They panic, or go
-- on in the same world under a context with a deadline.
use xssh_rust_lib.Base.{ℕ, Option, none, some, err, ◌≡◌, inl, inr, refl, arith, subst}
use xssh_rust_lib.Base.Async.{Async, ready, proceed, ◌>>=◌}
use xssh_rust_lib.Base.Async.Laws.{Ensures}
use xssh_rust_lib.Base.Async.Failing.{Raises, Ends}
use xssh_rust_lib.Base.Async.Parts.Laws.{Leaves}
use xssh_rust_lib.Operation.{OperationContext, with_timeout_from_now}
use xssh_rust_lib.Operation.Laws.{with_timeout_from_now_lem}
use xssh_rust_lib.Operation.Within.{Environment, limited_or_panics, timed}

module _ {World E A : Type 0} (f : OperationContext → Async World E A) (world : World) where
  limit-Ensures :
      (limited : Option OperationContext) {Q : A → World → Type 0}
      → ((c : OperationContext) → Ensures (f c world) Q)
      → Ensures (proceed (limited_or_panics {E = E} limited) f world) Q
  limit-Ensures none next = record { ensured = λ h. cc }
  limit-Ensures (some c) next = next c

  limit-Raises :
      (limited : Option OperationContext) {Q : E → Type 0}
      → ((c : OperationContext) → Raises (f c world) Q)
      → Raises (proceed (limited_or_panics {E = E} limited) f world) Q
  limit-Raises none next = record { raised = λ h. cc }
  limit-Raises (some c) next = next c

  limit-Leaves :
      (limited : Option OperationContext) {Q : World → Type 0}
      → Q world
      → ((c : OperationContext) → Leaves (f c world) Q)
      → Leaves (proceed (limited_or_panics {E = E} limited) f world) Q
  limit-Leaves none q next = record { left = q }
  limit-Leaves (some c) q next = next c

  limit-Ends :
      (limited : Option OperationContext)
      → ((c : OperationContext) → limited ≡ some c → Ends (f c world))
      → Ends (proceed (limited_or_panics {E = E} limited) f world)
  limit-Ends none next = λ h. cc
  limit-Ends (some c) next = next c refl

  limit-err :
      (limited : Option OperationContext) {e : E}
      → (proceed (limited_or_panics {E = E} limited) f world).0 ≡ ready (err e)
      → (c : OperationContext) × (limited ≡ some c) × ((f c world).0 ≡ ready (err e))
  limit-err none h = absurd cc
  limit-err (some c) h = (c, refl, h)

module _ {World E A : Type 0} (environment : Environment World) (timeout : ℕ)
    (context : OperationContext) (f : OperationContext → Async World E A) (world : World) where
  pub timed-Ensures :
      {Q : A → World → Type 0}
      → ((limited : OperationContext) → Ensures (f limited world) Q)
      → Ensures ((timed environment timeout context >>= f) world) Q
  timed-Ensures next =
      limit-Ensures f world (with_timeout_from_now (environment.around world) timeout context) next

  pub timed-Raises :
      {Q : E → Type 0}
      → ((limited : OperationContext) → Raises (f limited world) Q)
      → Raises ((timed environment timeout context >>= f) world) Q
  timed-Raises next =
      limit-Raises f world (with_timeout_from_now (environment.around world) timeout context) next

  pub timed-Leaves :
      {Q : World → Type 0}
      → Q world
      → ((limited : OperationContext) → Leaves (f limited world) Q)
      → Leaves ((timed environment timeout context >>= f) world) Q
  timed-Leaves q next =
      limit-Leaves f world (with_timeout_from_now (environment.around world) timeout context) q next

  -- A chain that fails had its limit.
  pub timed-err :
      {e : E}
      → ((timed environment timeout context >>= f) world).0 ≡ ready (err e)
      → (limited : OperationContext) × (with_timeout_from_now
            (environment.around world)
            timeout
            context
          ≡ some limited)
        × ((f limited world).0 ≡ ready (err e))
  timed-err h =
      limit-err f world (with_timeout_from_now (environment.around world) timeout context) h

  -- What a limit leaves has a deadline.
  limited_deadline :
      (limited : OperationContext)
      → with_timeout_from_now (environment.around world) timeout context ≡ some limited
      → (deadline : ℕ) × (limited.deadline ≡ some deadline)
  limited_deadline limited h =
      elim (with_timeout_from_now_lem (environment.around world) timeout context) [
        | inl (_, refused) ↦ absurd cc
        | inr (_, (merged, same, _, _, _)) ↦
            let own : record { deadline = some merged } ≡ limited = ground arith in
            (merged, subst (λ c. c.deadline ≡ some merged) own refl)
      ]

  pub timed-Ends :
      ((limited : OperationContext) (deadline : ℕ)
        → limited.deadline ≡ some deadline
        → Ends (f limited world))
      → Ends ((timed environment timeout context >>= f) world)
  timed-Ends next =
      limit-Ends f world (with_timeout_from_now (environment.around world) timeout context)
        (λ limited h. let (deadline, set) = limited_deadline limited h in next limited deadline set)
