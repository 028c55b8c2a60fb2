-- ===== src/Base/Async/Parts.antt =====
-- Asynchronous code on a part of the state, code whose errors are matched on, and the state that code
-- leaves behind, however it ends.
pub mod Laws
use xssh_rust_lib.Base.Fallible.{Result, ok, err}
use xssh_rust_lib.Base.Async.{Async, Outcome, ready, panics, pending}

module _ {S T E A : Type 0} where
  abbrev pub on_first : Async S E A → Async (S × T) E A
  on_first code s = let (r, s') = code s.0 in (r, (s', s.1))

  abbrev pub on_second : Async T E A → Async (S × T) E A
  on_second code s = let (r, t) = code s.1 in (r, (s.0, t))

module _ {E F A : Type 0} where
  abbrev pub forget : Outcome E A → Outcome F (Unit {0})
  forget (ready result) = ready (ok tt)
  forget panics = panics
  forget pending = pending

module _ {S E F A : Type 0} where
  abbrev pub recover : Outcome E A → (E → Async S F A) → Async S F A
  recover (ready (ok a)) handler s = (ready (ok a), s)
  recover (ready (err e)) handler s = handler e s
  recover panics handler s = (panics, s)
  recover pending handler s = (pending, s)

  -- `match code.await { Ok(a) => a, Err(e) => … }`
  abbrev pub attempt : Async S E A → (E → Async S F A) → Async S F A
  attempt code handler s = let (r, s') = code s in recover r handler s'

  -- `let _ = code.await;`
  abbrev pub ignore : Async S E A → Async S F (Unit {0})
  ignore code s = let (r, s') = code s in (forget r, s')
