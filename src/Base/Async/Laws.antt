-- ===== src/Base/Async/Laws.antt =====
-- Inversion of asynchronous code that has succeeded.
use mathlib.Core.Path.{◌≡◌, refl, sym, ap, ◌∙◌, subst}
use xssh_rust_lib.Base.Fallible.{Result, ok, err}
use mathlib.Core.Bool.{Bool, true, false}
use native.Mathlib.Omega.{arith}
use xssh_rust_lib.Base.Tests.{if◌then◌else◌}
use xssh_rust_lib.Base.Async.{Async, Outcome, ready, panics, pending, pure, proceed, raise, ◌>>=◌}

module _ {S E A B : Type 0} where
  proceed-ok :
      (r : Outcome E A) (f : A → Async S E B) (s : S) {b : B}
      → (proceed r f s).0 ≡ ready (ok b)
      → (a : A) × (r ≡ ready (ok a)) × (proceed r f s ≡ f a s)
  proceed-ok (ready (ok a)) f s h = (a, refl, refl)
  proceed-ok (ready (err e)) f s h = cc
  proceed-ok panics f s h = cc
  proceed-ok pending f s h = cc

  -- A chain that succeeds has succeeded in its first part, and went on from where that ended.
  pub >>=-ok :
      (m : Async S E A) (f : A → Async S E B) (s : S) {b : B}
      → ((m >>= f) s).0 ≡ ready (ok b)
      → (a : A) × ((m s).0 ≡ ready (ok a)) × ((m >>= f) s ≡ f a (m s).1)
  >>=-ok m f s h = proceed-ok (m s).0 f (m s).1 h

-- What holds of the result and the state, if the action succeeds.
pub record Ensures {S E A : Type 0} (r : Outcome E A × S) (Q : A → S → Type 0) : Type 0 where
  pub ensured : {a : A} → r.0 ≡ ready (ok a) → Q a r.1

module _ {S E A B : Type 0} where
  pub >>=-Ensures :
      (m : Async S E A) (f : A → Async S E B) (s : S) {P : A → S → Type 0} {Q : B → S → Type 0}
      → Ensures (m s) P
      → ((a : A) (s' : S) → P a s' → Ensures (f a s') Q)
      → Ensures ((m >>= f) s) Q
  >>=-Ensures m f s {P} {Q} first next = record {
    ensured = λ {a = b} h.
        let (a, done, same) = >>=-ok m f s h in
        rw same ((next a (m s).1 (first.ensured done)).ensured (sym (ap (λ t. t.0) same) ∙ h));
  }

module _ {S E B : Type 0} where
  pub guard-Ensures :
      (refused : Bool) (e : E) (m : Async S E B) (s : S) {Q : B → S → Type 0}
      → (refused ≡ false → Ensures (m s) Q)
      → Ensures ((if refused then raise e else m) s) Q
  guard-Ensures true e m s h = record { ensured = λ h. cc }
  guard-Ensures false e m s h = h refl

  pub accept-Ensures :
      (accepted : Bool) (e : E) (b : B) (s : S) {Q : B → S → Type 0}
      → (accepted ≡ true → Q b s)
      → Ensures ((if accepted then pure b else raise e) s) Q
  accept-Ensures true e b s {Q} h = record {
    ensured = λ {a} done. let same : b ≡ a = ground arith in subst (λ t. Q t s) same (h refl);
  }
  accept-Ensures false e b s h = record { ensured = λ h. cc }

  pub branch-Ensures :
      (b : Bool) (m n : Async S E B) (s : S) {Q : B → S → Type 0}
      → (b ≡ true → Ensures (m s) Q)
      → (b ≡ false → Ensures (n s) Q)
      → Ensures ((if b then m else n) s) Q
  branch-Ensures true m n s taken other = taken refl
  branch-Ensures false m n s other taken = taken refl

module _ {S E A : Type 0} where
  -- The postcondition weakened.
  pub Ensures-mono :
      (r : Outcome E A × S) {P Q : A → S → Type 0}
      → Ensures r P
      → ((a : A) (s : S) → P a s → Q a s)
      → Ensures r Q
  Ensures-mono r h weaken = record { ensured = λ {a} done. weaken a r.1 (h.ensured done) }

  pub pure-Ensures : (a : A) (s : S) {Q : A → S → Type 0} → Q a s → Ensures (pure {E = E} a s) Q
  pure-Ensures a s {Q} h = record {
    ensured = λ {a = b} done. let same : a ≡ b = ground arith in subst (λ t. Q t s) same h;
  }

  pub raise-Ensures : (e : E) (s : S) {Q : A → S → Type 0} → Ensures (raise {A = A} e s) Q
  raise-Ensures e s = record { ensured = λ h. cc }

module _ {S E A B : Type 0} where
  proceed-agree :
      (o : Outcome E A) (f g : A → Async S E B) (s : S) {r : Result E B}
      → (proceed o f s).0 ≡ ready r
      → ((a : A) (s' : S) → (f a s').0 ≡ ready r → g a s' ≡ f a s')
      → proceed o g s ≡ proceed o f s
  proceed-agree (ready (ok a)) f g s h agree = agree a s h
  proceed-agree (ready (err e)) f g s h agree = refl
  proceed-agree panics f g s h agree = refl
  proceed-agree pending f g s h agree = refl

  -- Continuations that agree where the first one returns.
  pub >>=-agree :
      (m : Async S E A) (f g : A → Async S E B) (s : S) {r : Result E B}
      → ((m >>= f) s).0 ≡ ready r
      → ((a : A) (s' : S) → (f a s').0 ≡ ready r → g a s' ≡ f a s')
      → (m >>= g) s ≡ (m >>= f) s
  >>=-agree m f g s h agree = proceed-agree (m s).0 f g (m s).1 h agree

module _ {S E B : Type 0} where
  pub if-agree :
      (b : Bool) (m f g : Async S E B) (s : S) {r : Result E B}
      → ((if b then m else f) s).0 ≡ ready r
      → ((f s).0 ≡ ready r → g s ≡ f s)
      → (if b then m else g) s ≡ (if b then m else f) s
  if-agree true m f g s h agree = refl
  if-agree false m f g s h agree = agree h
