-- ===== src/Base/Async.antt =====
-- Asynchronous code over a state `S`: it returns a result, panics, or waits for ever. What was done before
-- an error stays done, so the state comes back beside the error too.
pub mod Laws
pub mod Failing
pub mod Parts
use xssh_rust_lib.Base.Fallible.{Result, ok, err}

pub data Outcome {ℓ κ} (E : Type κ) (A : Type ℓ) : Type (ℓ ⊔ κ) where
  ready : Result E A → Outcome E A
  panics : Outcome E A
  pending : Outcome E A

abbrev pub Async {ℓ κ μ} : Type μ → Type κ → Type ℓ → Type (ℓ ⊔ κ ⊔ μ)
Async S E A = S → Outcome E A × S

module _ {ℓ κ μ} {S : Type μ} {E : Type κ} {A : Type ℓ} where
  abbrev pub pure : A → Async S E A
  pure a s = (ready (ok a), s)

  abbrev pub raise : E → Async S E A
  raise e s = (ready (err e), s)

  abbrev pub lift : Result E A → Async S E A
  lift r s = (ready r, s)

module _ {ℓ κ μ ν} {S : Type μ} {E : Type κ} {A : Type ℓ} {B : Type ν} where
  abbrev pub proceed : Outcome E A → (A → Async S E B) → Async S E B
  proceed (ready (ok a)) f s = f a s
  proceed (ready (err e)) f s = (ready (err e), s)
  proceed panics f s = (panics, s)
  proceed pending f s = (pending, s)

  infixl 5 ◌>>=◌
  abbrev pub ◌>>=◌ : Async S E A → (A → Async S E B) → Async S E B
  ◌>>=◌ m f s = let (r, s') = m s in proceed r f s'

infixl 5 ◌>>◌
abbrev pub ◌>>◌ {ℓ κ μ} :
    {S : Type μ} {E : Type κ} {B : Type ℓ} → Async S E (Unit {0}) → Async S E B → Async S E B
m >> k = m >>= λ _. k

abbrev pub fail_with_outcome {ℓ κ μ} :
    {E : Type κ} {F : Type μ} {A : Type ℓ} → (E → F) → Outcome E A → Outcome F A
fail_with_outcome f (ready (ok a)) = ready (ok a)
fail_with_outcome f (ready (err e)) = ready (err (f e))
fail_with_outcome f panics = panics
fail_with_outcome f pending = pending

-- `map_err` on the result of an asynchronous call
abbrev pub fail_with {ℓ κ μ ν} :
    {S : Type ν} {E : Type κ} {F : Type μ} {A : Type ℓ} → (E → F) → Async S E A → Async S F A
fail_with f m s = let (r, s') = m s in (fail_with_outcome f r, s')
