-- ===== src/Relay/Policy.antt =====
-- src/core/relay.rs: `ForwardingAccessPolicy`, which peers may connect.
use xssh_rust_lib.Base.{
  ℕ, Bool, true, false, ◌||◌, List, [], Option, is_empty, contains, is_some_and, PartialEq, ◌==◌,
  nat_eq, ◌≡◌, ◌↔◌, arith,
}

-- `std::net::IpAddr`, each address by its bits.
pub data IpAddr : Type 0 where
  v4 v6 : ℕ → IpAddr

abbrev ip_beq : IpAddr → IpAddr → Bool
ip_beq (v4 a) (v4 b) = a == b
ip_beq (v6 a) (v6 b) = a == b
ip_beq _ _ = false

pub ip_beq_iff : (a b : IpAddr) → (ip_beq a b ≡ true) ↔ (a ≡ b)
ip_beq_iff a b = ground arith

instance abbrev pub ip_eq : PartialEq IpAddr
ip_eq = record { eq = ip_beq; eq_iff = ip_beq_iff }

pub record ForwardingAccessPolicy : Type 0 where
  pub allowed_peer_ips : List IpAddr

abbrev pub allow_all : ForwardingAccessPolicy
allow_all = record { allowed_peer_ips = [] }

abbrev pub allow_peer_ips : List IpAddr → ForwardingAccessPolicy
allow_peer_ips ips = record { allowed_peer_ips = ips }

-- A peer of a Unix socket has no address.
unfoldable pub allows : ForwardingAccessPolicy → Option IpAddr → Bool
unfolding contains
allows policy peer_ip =
    is_empty policy.allowed_peer_ips
    || is_some_and (λ ip. contains policy.allowed_peer_ips ip) peer_ip
