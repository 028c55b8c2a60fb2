-- ===== src/Base/Async/Parts/Laws.antt =====
-- The state that asynchronous code leaves behind, whether it succeeds, fails, panics or waits for
-- ever.
use mathlib.Core.Path.{◌≡◌, refl, sym, subst}
use mathlib.Core.Logic.{◌≢◌}
use native.Mathlib.Omega.{arith}
use mathlib.Core.Bool.{Bool, true, false}
use xssh_rust_lib.Base.Tests.{if◌then◌else◌}
use xssh_rust_lib.Base.Fallible.{ok, err}
use xssh_rust_lib.Base.Async.{Async, Outcome, ready, panics, pending, raise, proceed, ◌>>=◌, ◌>>◌}
use xssh_rust_lib.Base.Async.Laws.{Ensures}
use xssh_rust_lib.Base.Async.Parts.{on_first, recover, attempt, forget, ignore}

pub record Leaves {S E A : Type 0} (r : Outcome E A × S) (Q : S → Type 0) : Type 0 where
  pub left : Q r.1

module _ {S E A B : Type 0} where
  proceed-Leaves :
      (o : Outcome E A) (f : A → Async S E B) (s : S) {Q : S → Type 0}
      → Q s
      → ((a : A) → o ≡ ready (ok a) → Leaves (f a s) Q)
      → Leaves (proceed o f s) Q
  proceed-Leaves (ready (ok a)) f s q next = next a refl
  proceed-Leaves (ready (err e)) f s q next = record { left = q }
  proceed-Leaves panics f s q next = record { left = q }
  proceed-Leaves pending f s q next = record { left = q }

  pub >>=-Leaves :
      (m : Async S E A) (f : A → Async S E B) (s : S) {P : A → S → Type 0} {Q : S → Type 0}
      → Leaves (m s) Q
      → Ensures (m s) P
      → ((a : A) (s' : S) → P a s' → Leaves (f a s') Q)
      → Leaves ((m >>= f) s) Q
  >>=-Leaves m f s leaves first next =
      proceed-Leaves (m s).0 f (m s).1 leaves.left (λ a h. next a (m s).1 (first.ensured h))

module _ {S E B : Type 0} where
  pub branch-Leaves :
      (b : Bool) (m n : Async S E B) (s : S) {Q : S → Type 0}
      → (b ≡ true → Leaves (m s) Q)
      → (b ≡ false → Leaves (n s) Q)
      → Leaves ((if b then m else n) s) Q
  branch-Leaves true m n s taken other = taken refl
  branch-Leaves false m n s other taken = taken refl

module _ {S E F A : Type 0} where
  recover-Leaves :
      (o : Outcome E A) (handler : E → Async S F A) (s : S) {Q : S → Type 0}
      → Q s
      → ((e : E) → Leaves (handler e s) Q)
      → Leaves (recover o handler s) Q
  recover-Leaves (ready (ok a)) handler s q next = record { left = q }
  recover-Leaves (ready (err e)) handler s q next = next e
  recover-Leaves panics handler s q next = record { left = q }
  recover-Leaves pending handler s q next = record { left = q }

  pub attempt-Leaves :
      (m : Async S E A) (handler : E → Async S F A) (s : S) {Q : S → Type 0}
      → Leaves (m s) Q
      → ((e : E) (s' : S) → Q s' → Leaves (handler e s') Q)
      → Leaves (attempt m handler s) Q
  attempt-Leaves m handler s leaves next =
      recover-Leaves (m s).0 handler (m s).1 leaves.left (λ e. next e (m s).1 leaves.left)

  recover-ok :
      (o : Outcome E A) (handler : E → Async S F A) (s : S) {a : A}
      → ((e : E) (b : A) → (handler e s).0 ≢ ready (ok b))
      → (recover o handler s).0 ≡ ready (ok a)
      → (o ≡ ready (ok a)) × ((recover o handler s).1 ≡ s)
  recover-ok (ready (ok b)) handler s fails h = (ground arith, refl)
  recover-ok (ready (err e)) handler s fails h = absurd (fails e _ h)
  recover-ok panics handler s fails h = absurd cc
  recover-ok pending handler s fails h = absurd cc

  -- Where the handler never succeeds, a success is that of the code.
  pub attempt-Ensures :
      (m : Async S E A) (handler : E → Async S F A) (s : S) {P : A → S → Type 0}
      → ((e : E) (s' : S) (b : A) → (handler e s').0 ≢ ready (ok b))
      → Ensures (m s) P
      → Ensures (attempt m handler s) P
  attempt-Ensures m handler s {P} fails inner = record {
    ensured = λ {a} h.
        let (done, same) = recover-ok (m s).0 handler (m s).1 (λ e. fails e (m s).1) h in
        subst (λ t. P a t) (sym same) (inner.ensured done);
  }

module _ {S T E A : Type 0} where
  pub on_first-Ensures :
      (m : Async S E A) (s : S × T) {P : A → S → Type 0}
      → Ensures (m s.0) P
      → Ensures (on_first m s) (λ a s'. P a s'.0)
  on_first-Ensures m s inner = record { ensured = λ h. inner.ensured h }

module _ {S E F A B : Type 0} where
  raise_after :
      (o : Outcome E A) (e : F) (s : S) (b : B)
      → (proceed (forget {F = F} o) (λ _. raise e) s).0 ≢ ready (ok b)
  raise_after (ready (ok a)) e s b h = cc
  raise_after (ready (err e')) e s b h = cc
  raise_after panics e s b h = cc
  raise_after pending e s b h = cc

  -- What ends in an error after a call whose result is ignored does not succeed.
  pub ignore-raise :
      (m : Async S E A) (e : F) (s : S) (b : B) → ((ignore m >> raise e) s).0 ≢ ready (ok b)
  ignore-raise m e s b h = raise_after (m s).0 e (m s).1 b h

  raise_after-Leaves :
      (o : Outcome E A) (e : F) (s : S) {Q : S → Type 0}
      → Q s
      → Leaves (proceed (forget {F = F} o) (λ _. raise {A = B} e) s) Q
  raise_after-Leaves (ready (ok a)) e s q = record { left = q }
  raise_after-Leaves (ready (err e')) e s q = record { left = q }
  raise_after-Leaves panics e s q = record { left = q }
  raise_after-Leaves pending e s q = record { left = q }

  pub ignore-Leaves :
      (m : Async S E A) (e : F) (s : S) {Q : S → Type 0}
      → Leaves (m s) Q
      → Leaves ((ignore m >> raise {A = B} e) s) Q
  ignore-Leaves m e s leaves = raise_after-Leaves (m s).0 e (m s).1 leaves.left
