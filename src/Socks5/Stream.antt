-- ===== src/Socks5/Stream.antt =====
-- src/core/socks5.rs, `read_exact` and `write_all`: the client's socket under a context.
-- The client is the bytes that it sends before it closes; what the network does to the socket's
-- operations, in their order, is a parameter.
pub mod Laws
use xssh_rust_lib.Base.{
  ℕ, ◌+◌, Text, codes, Bool, true, false, List, [], ◌∷◌, ◌++◌, Option, none, some, Result, ok, err,
  length, take, drop, ltb, if◌then◌else◌,
}
use xssh_rust_lib.Base.Async.{Async, Outcome, ready, pending}
use xssh_rust_lib.Error
use xssh_rust_lib.Error.{SshError}
use xssh_rust_lib.Error.Kind.{ErrorKind}
use xssh_rust_lib.Operation.{OperationContext, Surroundings, Future, run}

-- What meets one operation: the instants around it, when the socket would have finished it, an
-- error of the socket, and how many bytes of a write that fails have gone out.
pub record Event : Type 0 where
  pub around : Surroundings
  pub ready_at : Option ℕ
  pub fault : Option Text
  pub gone_out : ℕ

abbrev pub Network : Type 0
Network = ℕ → Event

pub record Socket : Type 0 where
  pub input : List ℕ
  pub output : List ℕ
  pub operations : ℕ

module _ (network : Network) where
  -- What a read of `count` bytes comes to, if it is not interrupted.
  read_result : ℕ → Event → List ℕ → Result SshError (List ℕ)
  read_result count event input = elim event.fault [
    | some error ↦
        err (Error.from_source ErrorKind.protocol (codes "invalid SOCKS5 client data") error)
    | none ↦
        if ltb (length input) count
        then err (
            Error.from_source ErrorKind.protocol (codes "invalid SOCKS5 client data")
              (codes "early eof"))
        else ok (take count input)
  ]

  after_read : ℕ → Socket → Outcome SshError (List ℕ) → Socket
  after_read count socket (ready (ok _)) = record socket {
    input = drop count socket.input;
    operations = socket.operations + 1;
  }
  after_read count socket _ = record socket { operations = socket.operations + 1 }

  unfoldable pub read_exact : ℕ → OperationContext → Text → Async Socket SshError (List ℕ)
  unfolding read_result after_read
  read_exact count context operation socket =
      let event = network socket.operations in
      let outcome =
        run event.around context operation
          (record { ready_at = event.ready_at; output = read_result count event socket.input }) in
      (outcome, after_read count socket outcome)

  write_result : Event → Result SshError (Unit {0})
  write_result event = elim event.fault [
    | some error ↦
        err (Error.from_source ErrorKind.channel (codes "failed to write SOCKS5 data") error)
    | none ↦ ok tt
  ]

  after_write : List ℕ → ℕ → Socket → Outcome SshError (Unit {0}) → Socket
  after_write bytes gone_out socket (ready (ok _)) = record socket {
    output = socket.output ++ bytes;
    operations = socket.operations + 1;
  }
  after_write bytes gone_out socket _ = record socket {
    output = socket.output ++ take gone_out bytes;
    operations = socket.operations + 1;
  }

  unfoldable pub write_all : List ℕ → OperationContext → Text → Async Socket SshError (Unit {0})
  unfolding write_result after_write
  write_all bytes context operation socket =
      let event = network socket.operations in
      let outcome =
        run event.around context operation
          (record { ready_at = event.ready_at; output = write_result event }) in
      (outcome, after_write bytes event.gone_out socket outcome)
