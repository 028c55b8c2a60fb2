-- ===== src/Base/Async/Failing.antt =====
-- Asynchronous code that fails, and code that always comes to an end.
use mathlib.Core.Path.{◌≡◌, refl, subst}
use mathlib.Core.Logic.{◌≢◌, ◌⊎◌, inl, inr}
use native.Mathlib.Omega.{arith}
use xssh_rust_lib.Base.Fallible.{Result, ok, err}
use xssh_rust_lib.Base.Async.Laws.{Ensures, pure-Ensures, raise-Ensures}
use xssh_rust_lib.Base.Async.{
  Async, Outcome, ready, panics, pending, pure, raise, lift, proceed, ◌>>=◌, fail_with,
  fail_with_outcome,
}

-- What holds of the error, if the action fails.
pub record Raises {S E A : Type 0} (r : Outcome E A × S) (Q : E → Type 0) : Type 0 where
  pub raised : {e : E} → r.0 ≡ ready (err e) → Q e

-- The action comes to an end: it succeeds, fails or panics, and does not wait for ever.
abbrev pub Ends : {S E A : Type 0} → Outcome E A × S → Type 0
Ends r = r.0 ≢ pending

module _ {S E A B : Type 0} where
  proceed-Raises :
      (o : Outcome E A) (f : A → Async S E B) (s : S) {Q : E → Type 0}
      → ((e : E) → o ≡ ready (err e) → Q e)
      → ((a : A) → Raises (f a s) Q)
      → Raises (proceed o f s) Q
  proceed-Raises (ready (ok a)) f s first next = next a
  proceed-Raises (ready (err e)) f s {Q} first next = record {
    raised = λ {e = e'} h. let same : e ≡ e' = ground arith in subst Q same (first e refl);
  }
  proceed-Raises panics f s first next = record { raised = λ h. cc }
  proceed-Raises pending f s first next = record { raised = λ h. cc }

  -- A chain fails where one of its parts does.
  pub >>=-Raises :
      (m : Async S E A) (f : A → Async S E B) (s : S) {Q : E → Type 0}
      → Raises (m s) Q
      → ((a : A) (s' : S) → Raises (f a s') Q)
      → Raises ((m >>= f) s) Q
  >>=-Raises m f s first next =
      proceed-Raises (m s).0 f (m s).1 (λ e h. first.raised h) (λ a. next a (m s).1)

  proceed-Ends :
      (o : Outcome E A) (f : A → Async S E B) (s : S)
      → o ≢ pending
      → ((a : A) → Ends (f a s))
      → Ends (proceed o f s)
  proceed-Ends (ready (ok a)) f s first next = next a
  proceed-Ends (ready (err e)) f s first next = λ h. cc
  proceed-Ends panics f s first next = λ h. cc
  proceed-Ends pending f s first next = absurd (first refl)

  pub >>=-Ends :
      (m : Async S E A) (f : A → Async S E B) (s : S)
      → Ends (m s)
      → ((a : A) (s' : S) → Ends (f a s'))
      → Ends ((m >>= f) s)
  >>=-Ends m f s first next = proceed-Ends (m s).0 f (m s).1 first (λ a. next a (m s).1)

module _ {S E A B : Type 0} where
  proceed-err :
      (o : Outcome E A) (f : A → Async S E B) (s : S) {e : E}
      → (proceed o f s).0 ≡ ready (err e)
      → (o ≡ ready (err e)) ⊎ ((a : A) × (o ≡ ready (ok a)) × ((f a s).0 ≡ ready (err e)))
  proceed-err (ready (ok a)) f s h = inr (a, refl, h)
  proceed-err (ready (err e)) f s h = inl (ground arith)
  proceed-err panics f s h = absurd cc
  proceed-err pending f s h = absurd cc

  -- A chain that fails has failed in its first part, or after that in the rest.
  pub >>=-err :
      (m : Async S E A) (f : A → Async S E B) (s : S) {e : E}
      → ((m >>= f) s).0 ≡ ready (err e)
      → ((m s).0 ≡ ready (err e))
        ⊎ ((a : A) × ((m s).0 ≡ ready (ok a)) × ((f a (m s).1).0 ≡ ready (err e)))
  >>=-err m f s h = proceed-err (m s).0 f (m s).1 h

  pub lift-err :
      (r : Result E A) (f : A → Async S E B) (s : S) {e : E}
      → ((lift r >>= f) s).0 ≡ ready (err e)
      → (r ≡ err e) ⊎ ((a : A) × (r ≡ ok a) × ((f a s).0 ≡ ready (err e)))
  lift-err (ok a) f s h = inr (a, refl, h)
  lift-err (err e) f s h = inl (ground arith)

module _ {S E A : Type 0} where
  pub raise-Raises : (e : E) (s : S) {Q : E → Type 0} → Q e → Raises (raise {A = A} e s) Q
  raise-Raises e s {Q} q = record {
    raised = λ {e = e'} h. let same : e ≡ e' = ground arith in subst Q same q;
  }

  pub pure-Raises : (a : A) (s : S) {Q : E → Type 0} → Raises (pure {E = E} a s) Q
  pure-Raises a s = record { raised = λ h. cc }

  pub lift-Raises :
      (r : Result E A) (s : S) {Q : E → Type 0} → ((e : E) → r ≡ err e → Q e) → Raises (lift r s) Q
  lift-Raises (ok a) s q = pure-Raises a s
  lift-Raises (err e) s q = raise-Raises e s (q e refl)

  pub lift-Ends : (r : Result E A) (s : S) → Ends (lift r s)
  lift-Ends r s h = cc

  pub lift-Ensures :
      (r : Result E A) (s : S) {Q : A → S → Type 0}
      → ((a : A) → r ≡ ok a → Q a s)
      → Ensures (lift r s) Q
  lift-Ensures (ok a) s q = pure-Ensures a s (q a refl)
  lift-Ensures (err e) s q = raise-Ensures e s

  pub Raises-mono :
      (r : Outcome E A × S) {P Q : E → Type 0} → Raises r P → ((e : E) → P e → Q e) → Raises r Q
  Raises-mono r h weaken = record { raised = λ {e} done. weaken e (h.raised done) }

module _ {E F A : Type 0} where
  fail_with_outcome-Ends :
      (f : E → F) (o : Outcome E A) → o ≢ pending → fail_with_outcome f o ≢ pending
  fail_with_outcome-Ends f (ready (ok a)) n h = cc
  fail_with_outcome-Ends f (ready (err e)) n h = cc
  fail_with_outcome-Ends f panics n h = cc
  fail_with_outcome-Ends f pending n h = n refl

  pub fail_with_outcome-ok :
      (f : E → F) (o : Outcome E A) {a : A}
      → fail_with_outcome f o ≡ ready (ok a)
      → o ≡ ready (ok a)
  fail_with_outcome-ok f (ready (ok b)) h = ground arith
  fail_with_outcome-ok f (ready (err e)) h = absurd cc
  fail_with_outcome-ok f panics h = absurd cc
  fail_with_outcome-ok f pending h = absurd cc

module _ {S E F A : Type 0} where
  fail_with_outcome-Raises :
      (f : E → F) (o : Outcome E A) (s : S) {Q : F → Type 0}
      → ((e : E) → o ≡ ready (err e) → Q (f e))
      → Raises (fail_with_outcome f o, s) Q
  fail_with_outcome-Raises f (ready (ok a)) s q = record { raised = λ h. cc }
  fail_with_outcome-Raises f (ready (err e)) s {Q} q = record {
    raised = λ {e = e'} h. let same : f e ≡ e' = ground arith in subst Q same (q e refl);
  }
  fail_with_outcome-Raises f panics s q = record { raised = λ h. cc }
  fail_with_outcome-Raises f pending s q = record { raised = λ h. cc }

  -- `map_err` fails with the mapped error.
  pub fail_with-Raises :
      (f : E → F) (m : Async S E A) (s : S) {Q : F → Type 0}
      → ((e : E) → (m s).0 ≡ ready (err e) → Q (f e))
      → Raises (fail_with f m s) Q
  fail_with-Raises f m s q = fail_with_outcome-Raises f (m s).0 (m s).1 q

  pub fail_with-Ends : (f : E → F) (m : Async S E A) (s : S) → Ends (m s) → Ends (fail_with f m s)
  fail_with-Ends f m s n = fail_with_outcome-Ends f (m s).0 n

  pub fail_with-Ensures :
      (f : E → F) (m : Async S E A) (s : S) {Q : A → S → Type 0}
      → Ensures (m s) Q
      → Ensures (fail_with f m s) Q
  fail_with-Ensures f m s inner = record {
    ensured = λ h. inner.ensured (fail_with_outcome-ok f (m s).0 h);
  }
