-- ===== src/Tests/Files.antt =====
-- src/sftp/ at concrete inputs, and the relayed connections of src/core/relay.rs and
-- src/core/socks5.rs.
use xssh_rust_lib.Base.{
  ℕ, ◌+◌, Text, codes, false, List, [], ◌∷◌, none, some, ok, err, ◌≡◌, ◌⊎◌, refl,
}
use xssh_rust_lib.Base.Str.{trim}
use xssh_rust_lib.Base.Async.{Async, ready, fail_with}
use xssh_rust_lib.Base.Async.Failing.{Ends}
use xssh_rust_lib.Operation.Within.{or_panics}
use xssh_rust_lib.Operation.{
  OperationContext, run, run_with, with_timeout_from_now, timeout_deadline,
}
use xssh_rust_lib.Operation.Within.{Environment, run_in, run_with_in, settles}
use xssh_rust_lib.Session.Raw.{remote_call, open_raw_direct_tcpip_with_context}
use xssh_rust_lib.Channel.Inputs.{validate_direct_tcpip}
use xssh_rust_lib.Channel.Open.{open_direct_tcpip_with_context, open_direct_tcpip_from_with_context}
use xssh_rust_lib.Channel.Calls.{SshChannel}
use xssh_rust_lib.Channel.Stream.{SshChannelStream, into_stream}
use xssh_rust_lib.Channel.Relaying.{Relaying, relay_streams, after_copy}
use xssh_rust_lib.Relay.Target.{tcp_target, default_options}
use xssh_rust_lib.Relay.Connection.{open_channel, run_connection}
use xssh_rust_lib.Relay.Connection.Opened.{OpenedFor, run_connection-ok}
use xssh_rust_lib.Sftp
use xssh_rust_lib.Sftp.{SftpCrate, SftpClient, run_path}
use xssh_rust_lib.Sftp.Failure.{SftpError, from_russh_sftp, with_path}
use xssh_rust_lib.Sftp.Files.{
  canonicalize, exists, read, write, open_file, create, open_with_flags, create_dir, read_dir,
  metadata, remove_file, remove_dir, rename,
}
use xssh_rust_lib.Sftp.Files.Laws.{Reported, run_path-err, operations-Ends}
use xssh_rust_lib.Socks5.Options
use xssh_rust_lib.Socks5.Options.{Socks5ProxyOptions}
use xssh_rust_lib.Socks5.Stream.{Socket}
use xssh_rust_lib.Socks5.Connection.{handle_connection}
use xssh_rust_lib.Socks5.Connection.Entitled.{Entitled, handle_connection-Entitled}
use xssh_rust_lib.Tests.Sessions.{environment, transport, session}
use xssh_rust_lib.Tests.Proxy.{calm, login}

abbrev unlimited : OperationContext
unlimited = record { deadline = none }

-- A server without files.
abbrev missing : {A : Type 0} → Async ℕ Text A
missing world = (ready (err (codes "No such file")), world + 1)

abbrev sftp : SftpCrate ℕ ℕ
sftp = record {
  Session = ℕ;
  File = ℕ;
  Metadata = ℕ;
  OpenFlags = ℕ;
  new = λ stream. missing;
  close = λ inner. missing;
  canonicalize = λ inner path. missing;
  try_exists = λ inner path world. (ready (ok false), world);
  read = λ inner path. missing;
  write = λ inner path bytes. missing;
  open_file = λ inner path. missing;
  create = λ inner path. missing;
  open_with_flags = λ inner path flags. missing;
  create_dir = λ inner path. missing;
  read_dir = λ inner path. missing;
  metadata = λ inner path. missing;
  remove_file = λ inner path. missing;
  remove_dir = λ inner path. missing;
  rename = λ inner old_path new_path. missing;
}

abbrev files : SftpClient ℕ
files = record { inner = 1; context = unlimited; operation_timeout = 5 }

abbrev not_found : SftpError
not_found = with_path (codes "/a") (from_russh_sftp (codes "No such file"))

unread :
    (run_path environment files
      (codes "read SFTP file")
      (codes "/a")
      (fail_with from_russh_sftp (missing {A = List ℕ}))
      0).0
    ≡ ready (err not_found)
unfolding run_path Sftp.run run_with_in run_with with_timeout_from_now timeout_deadline or_panics
    settles
unread = refl

run_path-err_example :
    Reported {A = List ℕ}
      (codes "read SFTP file")
      (codes "/a")
      (ready (err (codes "No such file")))
      not_found
run_path-err_example =
    run_path-err environment files (codes "read SFTP file") (codes "/a") (missing {A = List ℕ}) 0
      not_found unread

operations-Ends_example :
    Ends (canonicalize environment sftp files (codes "/a") 0)
    × Ends (exists environment sftp files (codes "/a") 0)
    × Ends (read environment sftp files (codes "/a") 0)
    × Ends (write environment sftp files (codes "/a") [] 0)
    × Ends (open_file environment sftp files (codes "/a") 0)
    × Ends (create environment sftp files (codes "/a") 0)
    × Ends (open_with_flags environment sftp files (codes "/a") 1 0)
    × Ends (create_dir environment sftp files (codes "/a") 0)
    × Ends (read_dir environment sftp files (codes "/a") 0)
    × Ends (metadata environment sftp files (codes "/a") 0)
    × Ends (remove_file environment sftp files (codes "/a") 0)
    × Ends (remove_dir environment sftp files (codes "/a") 0)
    × Ends (rename environment sftp files (codes "/a") (codes "/b") 0)
operations-Ends_example = operations-Ends environment sftp files (codes "/a") (codes "/b") [] 1 0

abbrev copying : {State : Type 0} → Relaying State (SshChannelStream ℕ)
copying = record {
  copy_until_cancelled = λ stream s. (ready (ok (some (ok tt))), s);
  shutdown_local = λ s. (ready (ok tt), s);
  shutdown_remote = λ stream s. (ready (ok tt), s);
}

relayed :
    (run_connection environment transport session copying
      (tcp_target (codes "db") 5432)
      default_options
      unlimited
      0).0
    ≡ ready (ok tt)
unfolding run_connection open_channel open_direct_tcpip_with_context
    open_direct_tcpip_from_with_context open_raw_direct_tcpip_with_context remote_call relay_streams
    after_copy validate_direct_tcpip run_in settles run with_timeout_from_now timeout_deadline
    or_panics into_stream trim codes
relayed = refl

run_connection-ok_example :
    (channel : SshChannel ℕ) × (opened : ℕ) × OpenedFor transport
      (tcp_target (codes "db") 5432)
      0
      channel.inner
      opened
    × (copying.copy_until_cancelled (into_stream environment transport channel) opened ≡ (
      ready (ok (some (ok tt))),
      (run_connection environment transport session copying
          (tcp_target (codes "db") 5432)
          default_options
          unlimited
          0).1,
    ))
run_connection-ok_example =
    run_connection-ok environment transport session copying (tcp_target (codes "db") 5432)
      default_options unlimited 0 relayed

abbrev proxy_options : Socks5ProxyOptions
proxy_options = record Options.default_options { authentication = login }

-- A client that sends what it has to, and asks for port 443.
abbrev asking : Socket
asking = record {
  input =
      5 ∷ 2 ∷ 0 ∷ 2 ∷ 1 ∷ 1 ∷ b'u' ∷ 2 ∷ b'p' ∷ b'w' ∷ 5 ∷ 1 ∷ 0 ∷ 3 ∷ 2 ∷ b'd' ∷ b'b' ∷ 1 ∷ 187
      ∷ [];
  output = [];
  operations = 0;
}

abbrev both : Environment (Socket × ℕ)
both = record {
  around = λ s. record {
    latest = 18446744073709551615;
    now = s.1;
    cancelled_at = none;
    cancel_first = false;
  };
  abandoned = λ operation s s'. s';
}

handle_connection-Entitled_example :
    ((handle_connection calm both transport copying session proxy_options unlimited (asking, 0)).1.1
      ≡ 0)
    ⊎ Entitled login asking.input
handle_connection-Entitled_example =
    handle_connection-Entitled calm both transport copying session proxy_options unlimited asking 0
