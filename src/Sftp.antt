-- ===== src/Sftp.antt =====
-- src/sftp/client.rs: the SFTP client, over the crate `russh_sftp` as an interface.
pub mod Failure
pub mod Files
use xssh_rust_lib.Base.{ℕ, Text, codes, Bool, true, List}
use xssh_rust_lib.Base.Async.{Async, pure, fail_with, ◌>>=◌, ◌>>◌}
use xssh_rust_lib.Operation.{OperationContext}
use xssh_rust_lib.Operation.Within.{Environment, run_with_in, timed}
use xssh_rust_lib.Session.Transport.{Transport}
use xssh_rust_lib.Session.Raw.{SshSession, base_context}
use xssh_rust_lib.Channel.Calls.{SshChannel, request_subsystem_with_context}
use xssh_rust_lib.Channel.Open.{open_session_channel_with_context}
use xssh_rust_lib.Channel.Stream.{SshChannelStream, into_stream}
use xssh_rust_lib.Sftp.Failure.{SftpError, from_russh_sftp, with_path}

-- `SftpSession` and the types of `russh_sftp` that the client hands on. Its errors are text.
pub record SftpCrate (World Stream : Type 0) : Type 1 where
  pub Session : Type 0
  pub File : Type 0
  pub Metadata : Type 0
  pub OpenFlags : Type 0
  pub new : SshChannelStream Stream → Async World Text Session
  pub close : Session → Async World Text (Unit {0})
  pub canonicalize : Session → Text → Async World Text Text
  pub try_exists : Session → Text → Async World Text Bool
  pub read : Session → Text → Async World Text (List ℕ)
  pub write : Session → Text → List ℕ → Async World Text (Unit {0})
  pub open_file : Session → Text → Async World Text File
  pub create : Session → Text → Async World Text File
  pub open_with_flags : Session → Text → OpenFlags → Async World Text File
  pub create_dir : Session → Text → Async World Text (Unit {0})
  pub read_dir : Session → Text → Async World Text (List (Text × Metadata))
  pub metadata : Session → Text → Async World Text Metadata
  pub remove_file : Session → Text → Async World Text (Unit {0})
  pub remove_dir : Session → Text → Async World Text (Unit {0})
  pub rename : Session → Text → Text → Async World Text (Unit {0})

pub record SftpClient (Session : Type 0) : Type 0 where
  pub inner : Session
  pub context : OperationContext
  pub operation_timeout : ℕ

abbrev pub with_context :
    {Session : Type 0} → OperationContext → SftpClient Session → SftpClient Session
with_context context client = record client { context = context }

module _ {World : Type 0} (environment : Environment World) where
  -- `SftpClient::run`
  unfoldable pub run :
      {Session A : Type 0}
      → SftpClient Session
      → Text
      → Async World SftpError A
      → Async World SftpError A
  run client operation code = do
    context ← timed environment client.operation_timeout client.context
    run_with_in environment context operation SftpError.core code

  unfoldable pub run_path :
      {Session A : Type 0}
      → SftpClient Session
      → Text
      → Text
      → Async World SftpError A
      → Async World SftpError A
  unfolding run
  run_path client operation path code = fail_with (with_path path) (run client operation code)

  module _ (transport : Transport World) (sftp : SftpCrate World transport.Stream) where
    unfoldable pub connect_with_context :
        SshSession → OperationContext → Async World SftpError (SftpClient sftp.Session)
    unfolding open_session_channel_with_context request_subsystem_with_context into_stream
    connect_with_context session context = do
      setup_context ← timed environment session.config.operation_timeout context
      channel ←
          fail_with SftpError.core
            (open_session_channel_with_context environment transport session context)
      fail_with SftpError.core (
          request_subsystem_with_context environment transport channel true (codes "sftp")
            setup_context)
      inner ←
          run_with_in environment setup_context (codes "initialize SFTP subsystem") SftpError.core
            (fail_with from_russh_sftp (sftp.new (into_stream environment transport channel)))
      pure (record {
        inner = inner;
        context = context;
        operation_timeout = session.config.operation_timeout;
      })

    unfoldable pub connect : SshSession → Async World SftpError (SftpClient sftp.Session)
    unfolding connect_with_context
    connect session = connect_with_context session (base_context session)

    unfoldable pub close : SftpClient sftp.Session → Async World SftpError (Unit {0})
    unfolding run
    close client =
        run client (codes "close SFTP subsystem")
          (fail_with from_russh_sftp (sftp.close client.inner))
