-- ===== src/Relay/Stats.antt =====
-- src/core/relay.rs: `RelayStats`, counters of 64 bits that wrap round, and their snapshot.
use xssh_rust_lib.Base.{
  ℕ, ◌+◌, ◌-◌, ◌%◌, ◌^◌, Bool, false, Result, ok, err, min, ◌!=◌, if◌then◌else◌,
}
use xssh_rust_lib.Error.{SshError}
use xssh_rust_lib.Error.Kind.{ErrorKind, kind_eq}

abbrev pub u64_modulus : ℕ
u64_modulus = 2 ^ 64

-- `AtomicU64::fetch_add` and `fetch_sub`
abbrev pub fetch_add : ℕ → ℕ → ℕ
fetch_add counter n = (counter + n) % u64_modulus

abbrev pub fetch_sub : ℕ → ℕ → ℕ
fetch_sub counter n = (counter + u64_modulus - n) % u64_modulus

pub record RelayStats : Type 0 where
  pub started_at : ℕ
  pub accepted_connections : ℕ
  pub rejected_connections : ℕ
  pub active_connections : ℕ
  pub completed_connections : ℕ
  pub failed_connections : ℕ
  pub bytes_local_to_remote : ℕ
  pub bytes_remote_to_local : ℕ

abbrev pub new : ℕ → RelayStats
new now = record {
  started_at = now;
  accepted_connections = 0;
  rejected_connections = 0;
  active_connections = 0;
  completed_connections = 0;
  failed_connections = 0;
  bytes_local_to_remote = 0;
  bytes_remote_to_local = 0;
}

pub record ForwardingRelayStatsSnapshot : Type 0 where
  pub accepted_connections : ℕ
  pub rejected_connections : ℕ
  pub active_connections : ℕ
  pub completed_connections : ℕ
  pub failed_connections : ℕ
  pub bytes_local_to_remote : ℕ
  pub bytes_remote_to_local : ℕ
  pub elapsed : ℕ

unfoldable pub snapshot : ℕ → RelayStats → ForwardingRelayStatsSnapshot
snapshot now stats = record {
  accepted_connections = stats.accepted_connections;
  rejected_connections = stats.rejected_connections;
  active_connections = stats.active_connections;
  completed_connections = stats.completed_connections;
  failed_connections = stats.failed_connections;
  bytes_local_to_remote = stats.bytes_local_to_remote;
  bytes_remote_to_local = stats.bytes_remote_to_local;
  elapsed = now - stats.started_at;
}

-- `u64::saturating_add`
unfoldable pub total_bytes : ForwardingRelayStatsSnapshot → ℕ
total_bytes seen = min (u64_modulus - 1) (seen.bytes_local_to_remote + seen.bytes_remote_to_local)

unfoldable pub record_accepted : RelayStats → RelayStats
record_accepted stats = record stats {
  accepted_connections = fetch_add stats.accepted_connections 1;
}

unfoldable pub record_rejected : RelayStats → RelayStats
record_rejected stats = record stats {
  rejected_connections = fetch_add stats.rejected_connections 1;
}

unfoldable pub start_connection : RelayStats → RelayStats
start_connection stats = record stats { active_connections = fetch_add stats.active_connections 1 }

-- `Drop` of `ActiveConnectionGuard`
unfoldable pub drop_guard : RelayStats → RelayStats
drop_guard stats = record stats { active_connections = fetch_sub stats.active_connections 1 }

-- `result.as_ref().is_err_and(|error| error.kind() != ErrorKind::Cancelled)`
unfoldable pub is_failure : Result SshError (Unit {0}) → Bool
is_failure (ok _) = false
is_failure (err error) = error.kind != ErrorKind.cancelled

unfoldable pub record_completed : Result SshError (Unit {0}) → RelayStats → RelayStats
record_completed result stats = record stats {
  completed_connections = fetch_add stats.completed_connections 1;
  failed_connections =
      if is_failure result then fetch_add stats.failed_connections 1 else stats.failed_connections;
}

pub data CounterDirection : Type 0 where
  local_to_remote remote_to_local : CounterDirection

unfoldable pub record_read : CounterDirection → ℕ → RelayStats → RelayStats
record_read local_to_remote bytes stats = record stats {
  bytes_local_to_remote = fetch_add stats.bytes_local_to_remote bytes;
}
record_read remote_to_local bytes stats = record stats {
  bytes_remote_to_local = fetch_add stats.bytes_remote_to_local bytes;
}
