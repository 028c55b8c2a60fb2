-- ===== src/Relay/Runtime.antt =====
-- src/core/relay.rs: `RelayRuntime`, its accept loop and the tasks that it spawns, as interleaved
-- steps, one for each access to the counters and the semaphore. The loop and a task are where they
-- stand; the result of a connection is any result, and it may panic. A permit that was acquired moves
-- into the task at once.
pub mod Invariant
use xssh_rust_lib.Base.{
  ℕ, zero, suc, ◌+◌, ◌-◌, Bool, true, false, List, [], ◌∷◌, ◌++◌, Option, Result, ok, not, ◌==◌,
  nat_eq, if◌then◌else◌, ◌≡◌,
}
use xssh_rust_lib.Error.{SshError}
use xssh_rust_lib.Relay.Policy.{IpAddr, allows}
use xssh_rust_lib.Relay.Target.{ForwardingRelayOptions}
use xssh_rust_lib.Relay.Stats.{
  RelayStats, new, record_accepted, record_rejected, start_connection, drop_guard, record_completed,
  record_read, CounterDirection,
}

pub data LoopPhase : Type 0 where
  waiting : LoopPhase
  counted : Option IpAddr → LoopPhase
  refusing : LoopPhase

-- A task that has panicked is unwound: it is not counted as completed.
pub data Phase : Type 0 where
  spawned : Phase
  running : Phase
  stopped : Result SshError (Unit {0}) → Phase
  recorded : Phase
  unwound : Phase

-- `permits` are those that the semaphore still has; a task holds one until it ends. How many
-- tasks have panicked is not kept by the program.
pub record Runtime : Type 0 where
  pub stats : RelayStats
  pub permits : ℕ
  pub tasks : List Phase
  pub loop : LoopPhase
  pub unwound_tasks : ℕ

abbrev pub start : ℕ → ForwardingRelayOptions → Runtime
start now options = record {
  stats = new now;
  permits = options.max_connections;
  tasks = [];
  loop = waiting;
  unwound_tasks = 0;
}

-- The first access of `dispatch`, of a peer that was accepted.
unfoldable pub count_peer : Option IpAddr → Runtime → Runtime
unfolding record_accepted
count_peer peer_ip s = record s { stats = record_accepted s.stats; loop = counted peer_ip }

-- The policy, and `try_acquire_owned` with the task that is spawned if it succeeds.
unfoldable pub admit : ForwardingRelayOptions → Option IpAddr → Runtime → Runtime
admit options peer_ip s =
    if not (allows options.access_policy peer_ip)
    then record s { loop = refusing }
    else if s.permits == 0
    then record s { loop = refusing }
    else record s { permits = s.permits - 1; tasks = s.tasks ++ spawned ∷ []; loop = waiting }

unfoldable pub reject_peer : Runtime → Runtime
unfolding record_rejected
reject_peer s = record s { stats = record_rejected s.stats; loop = waiting }

abbrev pub finish_dispatch : LoopPhase → Runtime → Runtime
finish_dispatch refusing s = reject_peer s
finish_dispatch waiting s = s
finish_dispatch (counted peer_ip) s = s

-- The whole of it, with nothing in between.
unfoldable pub dispatch : ForwardingRelayOptions → Option IpAddr → Runtime → Runtime
unfolding count_peer admit reject_peer
dispatch options peer_ip s =
    let decided = admit options peer_ip (count_peer peer_ip s) in
    finish_dispatch decided.loop decided

-- A step of the accept loop, or of the task between `before` and `after`.
pub data Step (options : ForwardingRelayOptions) (s : Runtime) : Runtime → Type 0 where
  counts : (peer_ip : Option IpAddr) → s.loop ≡ waiting → Step options s (count_peer peer_ip s)
  decides :
      (peer_ip : Option IpAddr)
      → s.loop ≡ counted peer_ip
      → Step options s (admit options peer_ip s)
  refuses : s.loop ≡ refusing → Step options s (reject_peer s)
  starts :
      (before after : List Phase)
      → s.tasks ≡ before ++ spawned ∷ after
      → Step options s
          (record s { stats = start_connection s.stats; tasks = before ++ running ∷ after })
  reads :
      (before after : List Phase) (direction : CounterDirection) (bytes : ℕ)
      → s.tasks ≡ before ++ running ∷ after
      → Step options s (record s { stats = record_read direction bytes s.stats })
  stops :
      (before after : List Phase) (result : Result SshError (Unit {0}))
      → s.tasks ≡ before ++ running ∷ after
      → Step options s
          (record s { stats = drop_guard s.stats; tasks = before ++ stopped result ∷ after })
  unwinds :
      (before after : List Phase)
      → s.tasks ≡ before ++ running ∷ after
      → Step options s (record s {
        stats = drop_guard s.stats;
        tasks = before ++ unwound ∷ after;
        unwound_tasks = s.unwound_tasks + 1;
      })
  records :
      (before after : List Phase) (result : Result SshError (Unit {0}))
      → s.tasks ≡ before ++ stopped result ∷ after
      → Step options s
          (record s { stats = record_completed result s.stats; tasks = before ++ recorded ∷ after })
  releases :
      (before after : List Phase)
      → s.tasks ≡ before ++ recorded ∷ after
      → Step options s (record s { permits = s.permits + 1; tasks = before ++ after })
  releases_unwound :
      (before after : List Phase)
      → s.tasks ≡ before ++ unwound ∷ after
      → Step options s (record s { permits = s.permits + 1; tasks = before ++ after })

pub data Reach (now : ℕ) (options : ForwardingRelayOptions) : Runtime → Type 0 where
  begin : Reach now options (start now options)
  next : {s t : Runtime} → Reach now options s → Step options s t → Reach now options t
