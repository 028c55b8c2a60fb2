-- ===== src/Channel/Relaying.antt =====
-- The relaying of a local connection over a channel, which src/core/relay.rs and src/core/socks5.rs
-- share: `tokio::select!` of the cancellation and of `tokio::io::copy_bidirectional`, which are given by
-- an interface, under a context.
use xssh_rust_lib.Base.{Text, Option, none, some, Result, ok, err}
use xssh_rust_lib.Base.Async.{Async, pure, raise, fail_with, ◌>>=◌, ◌>>◌}
use xssh_rust_lib.Base.Async.Parts.{ignore}
use xssh_rust_lib.Error
use xssh_rust_lib.Error.{SshError}
use xssh_rust_lib.Error.Kind.{ErrorKind}
use xssh_rust_lib.Operation.{OperationContext}
use xssh_rust_lib.Operation.Within.{Environment, run_in}

-- `copy_until_cancelled` gives the result of the copying, or nothing if the cancellation came first.
-- The local connection is part of the state.
pub record Relaying (State Stream : Type 0) : Type 0 where
  pub copy_until_cancelled : Stream → Async State ⊥ (Option (Result Text (Unit {0})))
  pub shutdown_local : Async State Text (Unit {0})
  pub shutdown_remote : Stream → Async State Text (Unit {0})

-- What an error of the relaying says.
pub record RelayTexts : Type 0 where
  pub operation : Text
  pub on_cancel : Text
  pub on_failure : Text

module _ {State Stream : Type 0} (relaying : Relaying State Stream) (texts : RelayTexts) where
  -- The branches of the `select!`.
  unfoldable pub after_copy :
      Stream → Option (Result Text (Unit {0})) → Async State SshError (Unit {0})
  after_copy stream none = do
    ignore relaying.shutdown_local
    ignore (relaying.shutdown_remote stream)
    raise (Error.cancelled texts.on_cancel)
  after_copy stream (some (ok _)) = pure tt
  after_copy stream (some (err shown)) =
      raise (Error.from_source ErrorKind.channel texts.on_failure shown)

  unfoldable pub relay_streams :
      Environment State → OperationContext → Stream → Async State SshError (Unit {0})
  unfolding after_copy
  relay_streams environment context stream =
      run_in environment context texts.operation
        (fail_with (λ e. absurd e) (relaying.copy_until_cancelled stream) >>= after_copy stream)
