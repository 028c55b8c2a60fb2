-- ===== src/Lib.antt =====
-- A verification library for xssh, an SSH client library over the crate `russh`.
--
-- The program's parts, and the files that model them:
--   * Error, Error/Kind (src/core/error.rs): `SshError` with its kind, context and retry flag; each
--     constructor and builder is a function of its own name. The source of an error is its text.
--   * Operation (src/core/operation.rs): `OperationContext` and its `run`, `run_with` and
--     `run_with_timeout`. A future is the instant at which it is ready and its output; the clock, the
--     instant of the cancellation and the branch that `select!` polls first are `Surroundings`, and
--     so is the latest instant that the clock can tell, past which a time limit panics.
--     Operation/Within runs code that changes a world under a context: `Environment` reads the
--     surroundings off the world, and says what is left of a world whose code was interrupted; a panic of
--     code that a call polls to its end is one of the call.
--   * Operation/Token (src/core/operation.rs): `CancellationToken`, as interleavings of single
--     accesses by a task in `cancelled` and by callers of `cancel`. `tokio::sync::Notify` is the
--     interface `Notify`.
--   * Config (src/core/config.rs): `SshConfig`, `new`, `validate`, `socket_address`.
--   * HostKey (src/core/host_key.rs): Glob is `glob_match`, row by row; Patterns the tokens and lists
--     of patterns; KnownHosts the file and its entries; Verifier `KnownHostKeyVerifier`; Tofu
--     `TofuHostKeyVerifier`, with its lock. Keys is the interface to the crate `ssh_key`, and
--     `HashedNames` of Patterns that to Base64 and HMAC.
--   * HostKey/Handler (src/core/session.rs): `check_server_key` of `ClientHandler`, which asks a
--     `HostKeyVerifier`, whose calls may change what it keeps or panic, and turns its decision into an
--     error.
--   * Auth (src/core/auth.rs, src/core/session.rs): Types and Client are the data, and `russh` as the
--     interface `Client`; Method is `authenticate_method` and what it calls; Plan is `authenticate`,
--     the loop over the methods of a plan; Builders is how methods and plans are built.
--   * Session (src/core/session.rs): `classify_connect_error`; Session/Raw is `SshSession` and its
--     requests of the connection's handle; Session/Open is `connect_with_context`,
--     `connect_via_jump_with_context` and what they call. Session/Transport is `russh` behind a
--     connection, as an interface, and `Dialer` of Session/Open its `connect`, which calls the handler.
--   * Channel (src/core/channel.rs): Calls is `SshChannel`, Stream `SshChannelStream`, Open and Forward
--     the channels and listeners that a session asks for, Incoming the connections that come in through
--     the listeners, Relaying the copying between a connection and a channel.
--   * Terminal (src/terminal) and Sftp (src/sftp): `TerminalSession` and `SftpClient` over a channel.
--     `russh_sftp` is the interface `SftpCrate`.
--   * Relay (src/core/relay.rs): Target and Policy are the inputs of a relay; Stats the counters;
--     Runtime the accept loop and its tasks, which may panic, as interleaved steps over one state;
--     Connection is
--     `RelayConnection`, and Listener `RelayListener` and how a relay is built, over `tokio::net` as
--     the interface `Net`; Serving is the accept loop under a context and the counting of bytes.
--   * Socks5 (src/core/socks5.rs): Options; Stream is `read_exact` and `write_all` under a context;
--     Address what `std::net` prints; Handshake is `authenticate`, `read_connect_request` and
--     `write_reply`; Connection is `handle_connection`, Proxy how a proxy is built, and Server its
--     accept loop, as interleaved steps.
--   * Base: names of the libraries passed on, Boolean tests, lists, strings as lists of code points
--     with what the code calls of `str`, UTF-8, fallible and asynchronous code. Base/Async/Laws has
--     `Ensures`, a postcondition for what succeeds, and the rules that follow a chain of calls;
--     Base/Async/Failing has the same for errors and for code that comes to an end, and Base/Async/Parts for
--     the state that is left, however code ends.
--   * Tests: the theorems at concrete inputs, and runs of the definitions.
--
-- Parts meet where the code's do: errors carry the observations of HostKey and Auth, the handshake of
-- Socks5 runs each of its reads and writes by Operation's `run`, and HostKey/Handler decides by
-- HostKey/Verifier. Session/Open puts Config, HostKey/Handler and Auth/Plan together; Socks5/Connection
-- and Relay/Connection open channels of Channel/Open; Terminal and Sftp ask for what they need on one.
--
-- Bounds and fuel: the counters of a relay are numbers modulo 2^64, written out. Decimal digits are
-- produced by recursion on fuel of one more than the number, and UTF-8 is decoded on fuel of the
-- number of bytes, which suffice since each step divides the number or consumes a byte.
-- `converse` of Auth/Method follows `rounds` challenges of a keyboard-interactive exchange, which the
-- code does without a bound; a longer exchange waits for ever in the model.
-- `serve` of Relay/Serving is the accept loop up to a number of turns, which the code does not bound.
--
-- Not modelled: the capacity and the order of the queues of forwarded channels (src/core/session.rs),
-- which are given by what sending and receiving do; the polling of byte streams (src/core/channel.rs,
-- src/core/relay.rs), which passes calls on to other crates, but for the counting of what is read;
-- accessors and debug output; the redaction and erasure of secrets (src/core/auth.rs);
-- `bytes_per_second`, a floating-point number. The agent is modelled as on Unix.
pub mod Base
pub mod Error
pub mod Operation
pub mod Config
pub mod Relay
pub mod Socks5
pub mod HostKey
pub mod Auth
pub mod Session
pub mod Channel
pub mod Terminal
pub mod Sftp
mod Tests
