-- ===== src/Socks5/Server.antt =====
-- src/core/socks5.rs, `run_with_context`: the accept loop and the connections that it spawns, as
-- interleaved steps.
use xssh_rust_lib.Base.{ℕ, ◌+◌, ◌-◌, ◌<◌, ◌==◌, nat_eq, if◌then◌else◌, ◌≡◌, ◌↔◌, ◌∙◌, ap, arith}
use xssh_rust_lib.Socks5.Options.{Socks5ProxyOptions}

-- The permits that the semaphore still has, and the tasks that hold one.
pub record Server : Type 0 where
  pub permits : ℕ
  pub connections : ℕ

abbrev pub start_server : Socks5ProxyOptions → Server
start_server options = record { permits = options.max_connections; connections = 0 }

-- A client that is accepted: without a permit its socket is closed.
unfoldable pub accept_client : Server → Server
accept_client s =
    if s.permits == 0
    then s
    else record { permits = s.permits - 1; connections = s.connections + 1 }

-- The loop accepts a client, or a task ends and its permit is released.
pub data Step (s : Server) : Server → Type 0 where
  accepts : Step s (accept_client s)
  ends :
      0 < s.connections
      → Step s (record { permits = s.permits + 1; connections = s.connections - 1 })

pub data Reach (options : Socks5ProxyOptions) : Server → Type 0 where
  begin : Reach options (start_server options)
  next : {s t : Server} → Reach options s → Step s t → Reach options t

Step-total : {s t : Server} → Step s t → t.permits + t.connections ≡ s.permits + s.connections
unfolding accept_client
Step-total {s} accepts = ground arith
Step-total {s} (ends running) = omega arith

Reach-total :
    {options : Socks5ProxyOptions} {s : Server}
    → Reach options s
    → s.permits + s.connections ≡ options.max_connections
Reach-total begin = omega arith
Reach-total (next r step) = Step-total step ∙ Reach-total r

-- Whatever the order of the clients and of the ends of their connections, every permit is free or held
-- by a connection, so that there are never more connections than `max_connections`, and a client is
-- turned away exactly when there are as many.
pub Reach-full :
    (options : Socks5ProxyOptions) (s : Server)
    → Reach options s
    → (s.permits + s.connections ≡ options.max_connections)
      × ((accept_client s ≡ s) ↔ (s.connections ≡ options.max_connections))
unfolding accept_client
Reach-full options s r =
    let total = Reach-total r in
    (
      total,
      (
        (λ same. let kept = ap (λ t. t.connections) same in ground (arith, total, kept)),
        (λ full. ground (arith, total, full)),
      ),
    )
