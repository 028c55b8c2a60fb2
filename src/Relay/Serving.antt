-- ===== src/Relay/Serving.antt =====
-- src/core/relay.rs: the accept loop of `RelayRuntime::run` over a listener and under a context, and
-- the counting of the bytes that are read from a stream.
use xssh_rust_lib.Base.{ℕ, zero, suc, ◌-◌, Text, codes, ok, ◌≡◌}
use xssh_rust_lib.Base.Async.{Async, Outcome, ready, pure, ◌>>=◌}
use xssh_rust_lib.Base.Async.Laws.{Ensures, >>=-Ensures, pure-Ensures}
use xssh_rust_lib.Error.{SshError}
use xssh_rust_lib.Operation.{OperationContext}
use xssh_rust_lib.Operation.Within.{Environment, run_in}
use xssh_rust_lib.Relay.Stats.{RelayStats, CounterDirection, record_read}
use xssh_rust_lib.Relay.Listener.{Net, Relay, accept}
use xssh_rust_lib.Relay.Runtime.{Runtime, waiting, dispatch, Reach}
use xssh_rust_lib.Relay.Runtime.Invariant.{dispatch-Reach}

module _ {World : Type 0} (environment : Environment World) (net : Net World)
    (relay : Relay net) where
  -- One turn of the loop.
  unfoldable pub serve_next : OperationContext → Runtime → Async World SshError Runtime
  unfolding accept
  serve_next context runtime = do
    accepted ←
        run_in environment context (codes "accept forwarding relay connection")
          (accept net relay.listener)
    pure (dispatch relay.options accepted.1 runtime)

  -- The first turns of the loop, which only an error ends.
  unfoldable pub serve : ℕ → OperationContext → Runtime → Async World SshError Runtime
  unfolding serve_next
  serve zero context runtime = pure runtime
  serve (suc turns) context runtime = serve_next context runtime >>= serve turns context

  serve_next-Ensures :
      (context : OperationContext) (now : ℕ) (runtime : Runtime) (world : World)
      → runtime.loop ≡ waiting
      → Reach now relay.options runtime
      → Ensures
          (serve_next context runtime world)
          (λ after _. Reach now relay.options after × (after.loop ≡ waiting))
  unfolding serve_next
  serve_next-Ensures context now runtime world waits reached =
      >>=-Ensures
        (run_in environment context (codes "accept forwarding relay connection")
          (accept net relay.listener))
        _ world {P = λ _ _. Unit} (record { ensured = λ h. tt })
        (λ accepted s _.
          pure-Ensures _ s (dispatch-Reach relay.options now accepted.1 runtime waits reached))

  -- From a state that the runtime can be in, the loop leads to states that it can be in.
  serve-Ensures :
      (turns : ℕ) (context : OperationContext) (now : ℕ) (runtime : Runtime) (world : World)
      → runtime.loop ≡ waiting
      → Reach now relay.options runtime
      → Ensures
          (serve turns context runtime world)
          (λ after _. Reach now relay.options after × (after.loop ≡ waiting))
  unfolding serve
  serve-Ensures zero context now runtime world waits reached =
      pure-Ensures runtime world (reached, waits)
  serve-Ensures (suc turns) context now runtime world waits reached =
      >>=-Ensures (serve_next context runtime) (serve turns context) world
        (serve_next-Ensures context now runtime world waits reached)
        (λ after s (reached', waits'). serve-Ensures turns context now after s waits' reached')

-- What a poll of a stream has done to the counters, by the number of bytes in the buffer before it and
-- after it.
unfoldable pub add_bytes :
    CounterDirection → ℕ → ℕ → Outcome Text (Unit {0}) → RelayStats → RelayStats
add_bytes direction before after (ready (ok _)) stats = record_read direction (after - before) stats
add_bytes direction before after _ stats = stats

-- `poll_read` of a `CountingStream`, around that of the stream inside, which takes the number of bytes
-- in the buffer and gives the one that it leaves.
unfoldable pub poll_read :
    {S : Type 0}
    → (ℕ → S → Outcome Text (Unit {0}) × ℕ × S)
    → CounterDirection
    → ℕ
    → S × RelayStats
    → Outcome Text (Unit {0}) × ℕ × (S × RelayStats)
unfolding add_bytes
poll_read poll direction filled (s, stats) =
    let (outcome, filled', s') = poll filled s in
    (outcome, filled', (s', add_bytes direction filled filled' outcome stats))
