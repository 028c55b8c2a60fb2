-- ===== src/Tests/Relays.antt =====
-- src/core/relay.rs at concrete inputs.
use xssh_rust_lib.Base.{
  ℕ, ◌+◌, ◌%◌, ◌≤◌, ◌<◌, codes, [], ◌∷◌, some, ok, length, nat_eq, ◌≡◌, ◌↔◌, refl, arith,
}
use xssh_rust_lib.Relay.Policy.{allow_peer_ips, v4, allows}
use xssh_rust_lib.Relay.Target.{tcp_target, ForwardingRelayOptions, default_options}
use xssh_rust_lib.Relay.Target.Laws.{IsReachable}
use xssh_rust_lib.Relay.Listener.{Net, tcp_listener, new_relay}
use xssh_rust_lib.Relay.Listener.Laws.{new_relay_iff}
use xssh_rust_lib.Base.Async.{ready}
use xssh_rust_lib.Relay.Stats.{u64_modulus}
use xssh_rust_lib.Relay.Runtime.{Runtime, start, waiting, dispatch, count_peer, admit, Reach, begin}
use xssh_rust_lib.Relay.Runtime.Invariant.{count_running, dispatch-Reach, Reach-bounded, Reach-idle}

-- One connection at a time, from one address.
abbrev narrow : ForwardingRelayOptions
narrow = record default_options { max_connections = 1; access_policy = allow_peer_ips (v4 7 ∷ []) }

abbrev taken : Runtime
taken = dispatch narrow (some (v4 7)) (start 0 narrow)

-- A second peer comes while the first connection is open.
abbrev busy : Runtime
busy = dispatch narrow (some (v4 7)) taken

busy-Reach : Reach 0 narrow busy
unfolding dispatch count_peer admit allows
busy-Reach =
    (dispatch-Reach narrow 0 (some (v4 7)) taken refl
      (dispatch-Reach narrow 0 (some (v4 7)) (start 0 narrow) refl begin).0).0

-- A peer that is refused leaves nothing behind.
abbrev refused : Runtime
refused = dispatch narrow (some (v4 8)) (start 0 narrow)

refused-Reach : Reach 0 narrow refused
refused-Reach = (dispatch-Reach narrow 0 (some (v4 8)) (start 0 narrow) refl begin).0

refused_waits : refused.loop ≡ waiting
unfolding dispatch count_peer admit allows
refused_waits = refl

refused_idle : refused.tasks ≡ []
unfolding dispatch count_peer admit allows
refused_idle = refl

Reach-bounded_example :
    (busy.permits + length busy.tasks ≡ 1)
    × (busy.stats.active_connections ≡ count_running busy.tasks)
    × (busy.stats.active_connections ≤ 1)
Reach-bounded_example = Reach-bounded narrow 0 busy busy-Reach (omega arith)

Reach-idle_example :
    (refused.permits ≡ 1)
    × (refused.stats.active_connections ≡ 0)
    × (refused.stats.accepted_connections
        ≡ (refused.stats.rejected_connections + refused.stats.completed_connections
            + refused.unwound_tasks)
          % u64_modulus)
Reach-idle_example = Reach-idle narrow 0 refused refused-Reach refused_waits refused_idle

-- A crate whose listeners are numbers.
abbrev net : Net ℕ
net = record {
  TcpListener = ℕ;
  UnixListener = ℕ;
  Address = ℕ;
  Io = ℕ;
  ip = λ address. v4 address;
  bind_tcp_listener = λ address world. (ready (ok 1), world);
  bind_unix_listener = λ path world. (ready (ok 2), world);
  tcp_local_addr = λ listener. ok listener;
  tcp_accept = λ listener world. (ready (ok (world, 7)), world + 1);
  unix_accept = λ listener world. (ready (ok world), world + 1);
}

new_relay_iff_example :
    (new_relay net (tcp_listener 1) (tcp_target (codes "db") 5432) narrow
      ≡ ok (record {
        listener = tcp_listener 1;
        target = tcp_target (codes "db") 5432;
        options = narrow;
      }))
    ↔ ((0 < 1) × (0 < narrow.connection_timeout) × IsReachable (tcp_target (codes "db") 5432))
new_relay_iff_example = new_relay_iff net (tcp_listener 1) (tcp_target (codes "db") 5432) narrow
