-- ===== src/Channel/Stream.antt =====
-- src/core/channel.rs, `SshChannelStream`: the bytes of a channel.
use xssh_rust_lib.Base.{ℕ, codes, List}
use xssh_rust_lib.Base.Async.{Async, ◌>>=◌}
use xssh_rust_lib.Error.{SshError}
use xssh_rust_lib.Operation.{OperationContext}
use xssh_rust_lib.Operation.Within.{Environment, timed}
use xssh_rust_lib.Session.Raw.{remote_call}
use xssh_rust_lib.Session.Transport.{Transport}
use xssh_rust_lib.Channel.Calls.{SshChannel}

pub record SshChannelStream (Inner : Type 0) : Type 0 where
  pub stream : Inner
  pub context : OperationContext
  pub operation_timeout : ℕ

abbrev pub with_context :
    {Inner : Type 0} → OperationContext → SshChannelStream Inner → SshChannelStream Inner
with_context context stream = record stream { context = context }

module _ {World : Type 0} (environment : Environment World) (transport : Transport World) where
  open transport use {Channel, Stream}

  -- `SshChannel::into_stream`
  unfoldable pub into_stream : SshChannel Channel → SshChannelStream Stream
  into_stream channel = record {
    stream = transport.into_stream channel.inner;
    context = channel.context;
    operation_timeout = channel.operation_timeout;
  }

  -- The bytes that are read into a buffer of `size` bytes.
  unfoldable pub read_with_context :
      SshChannelStream Stream → ℕ → OperationContext → Async World SshError (List ℕ)
  unfolding remote_call
  read_with_context stream size context =
      remote_call environment context (codes "read SSH channel stream")
        (transport.read_stream stream.stream size)

  unfoldable pub read : SshChannelStream Stream → ℕ → Async World SshError (List ℕ)
  unfolding read_with_context
  read stream size =
      timed environment stream.operation_timeout stream.context >>= read_with_context stream size

  unfoldable pub write_with_context :
      SshChannelStream Stream → List ℕ → OperationContext → Async World SshError (Unit {0})
  unfolding remote_call
  write_with_context stream bytes context =
      remote_call environment context (codes "write SSH channel stream")
        (transport.write_stream stream.stream bytes)

  unfoldable pub write : SshChannelStream Stream → List ℕ → Async World SshError (Unit {0})
  unfolding write_with_context
  write stream bytes =
      timed environment stream.operation_timeout stream.context >>= write_with_context stream bytes

  unfoldable pub flush_with_context :
      SshChannelStream Stream → OperationContext → Async World SshError (Unit {0})
  unfolding remote_call
  flush_with_context stream context =
      remote_call environment context (codes "flush SSH channel stream")
        (transport.flush_stream stream.stream)

  unfoldable pub flush : SshChannelStream Stream → Async World SshError (Unit {0})
  unfolding flush_with_context
  flush stream =
      timed environment stream.operation_timeout stream.context >>= flush_with_context stream
