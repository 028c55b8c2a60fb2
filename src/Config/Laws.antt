-- ===== src/Config/Laws.antt =====
-- src/core/config.rs: which settings are accepted, and what the address of a connection says.
use xssh_rust_lib.Base.{
  ap, ◌∙◌, inr, inl, Bool-cases, ℕ, ◌<◌, Text, false, [], ◌∷◌, ◌++◌, Option, none, some, ok,
  contains, ◌==◌, nat_eq, if◌then◌else◌, ◌≡◌, ◌↔◌, arith, refl, ==_refl,
}
use xssh_rust_lib.Base.Str.{split_once, starts_with}
use xssh_rust_lib.Base.Str.Blank.{is_blank, is_empty-trim}
use xssh_rust_lib.Base.Str.Decimal.{to_decimal, read_decimal, read-to_decimal}
use xssh_rust_lib.Config.{starts_with, SshConfig, validate, socket_address}

abbrev pub PositiveIfAny : Option ℕ → Type 0
PositiveIfAny none = Unit
PositiveIfAny (some interval) = 0 < interval

-- What a connection needs of its settings.
pub record IsUsable (config : SshConfig) : Type 0 where
  pub host_named : is_blank config.host ≡ false
  pub user_named : is_blank config.username ≡ false
  pub port_positive : 0 < config.port
  pub connect_positive : 0 < config.connect_timeout
  pub authentication_positive : 0 < config.authentication_timeout
  pub operation_positive : 0 < config.operation_timeout
  pub keepalive_positive : PositiveIfAny config.keepalive_interval

-- Exactly the usable settings are accepted.
pub validate_iff : (config : SshConfig) → (validate config ≡ ok tt) ↔ IsUsable config
unfolding validate
validate_iff config = (
  λ h. record {
    host_named = ground (arith, is_empty-trim config.host);
    user_named = ground (arith, is_empty-trim config.username);
    port_positive = ground arith;
    connect_positive = ground arith;
    authentication_positive = ground arith;
    operation_positive = ground arith;
    keepalive_positive = ground arith;
  },
  λ u.
      ground
        (arith, is_empty-trim config.host, is_empty-trim config.username, u.keepalive_positive),
)

split_once-first :
    (c : ℕ) (before after : Text)
    → contains before c ≡ false
    → split_once c (before ++ (c ∷ after)) ≡ some (before, after)
unfolding split_once contains
split_once-first c [] after h = ground (arith, ==_refl c)
split_once-first c (d ∷ before) after h = ground (arith, split_once-first c before after)

-- `[host]:port` with a host in brackets, or else `host:port` up to the first colon.
abbrev read_port_after : Text → Text → Option (Text × ℕ)
read_port_after host [] = none
read_port_after host (c ∷ port) = if c == b':' then some (host, read_decimal 0 port) else none

abbrev host_and_port : Option (Text × Text) → Option (Text × ℕ)
host_and_port none = none
host_and_port (some (host, port)) = some (host, read_decimal 0 port)

abbrev read_plain : Text → Option (Text × ℕ)
read_plain text = host_and_port (split_once b':' text)

abbrev host_and_rest : Option (Text × Text) → Option (Text × ℕ)
host_and_rest none = none
host_and_rest (some (host, rest)) = read_port_after host rest

abbrev read_bracketed : Text → Option (Text × ℕ)
read_bracketed text = host_and_rest (split_once b']' text)

abbrev pub read_address : Text → Option (Text × ℕ)
read_address [] = none
read_address (c ∷ text) = if c == b'[' then read_bracketed text else read_plain (c ∷ text)

read_plain-address :
    (host : Text) (port : ℕ)
    → contains host b':' ≡ false
    → read_plain (host ++ (b':' ∷ to_decimal port)) ≡ some (host, port)
read_plain-address host port h =
    ap host_and_port (split_once-first b':' host (to_decimal port) h)
    ∙ ap (λ n. some (host, n)) (read-to_decimal port)

read_bracketed-address :
    (host : Text) (port : ℕ)
    → contains host b']' ≡ false
    → read_bracketed (host ++ (b']' ∷ b':' ∷ to_decimal port)) ≡ some (host, port)
read_bracketed-address host port h =
    ap host_and_rest (split_once-first b']' host (b':' ∷ to_decimal port) h)
    ∙ ap (λ n. some (host, n)) (read-to_decimal port)

-- An address that does not begin with a bracket is read as a plain one.
read_address-plain :
    (host : Text) (port : ℕ)
    → starts_with b'[' host ≡ false
    → read_address (host ++ (b':' ∷ to_decimal port))
      ≡ read_plain (host ++ (b':' ∷ to_decimal port))
unfolding starts_with
read_address-plain [] port h = refl
read_address-plain (c ∷ host) port h = ground arith

-- The host and the port of a connection are both read back from its address, for any host that has no
-- closing bracket and does not begin with an opening one: a host with a colon from between brackets,
-- any other from in front of the first colon.
pub read_address-socket_address :
    (config : SshConfig)
    → starts_with b'[' config.host ≡ false
    → contains config.host b']' ≡ false
    → read_address (socket_address config) ≡ some (config.host, config.port)
unfolding socket_address
read_address-socket_address config open_ended closed_never =
    elim (Bool-cases (contains config.host b':')) [
      | inl colon ↦
          ground
            (arith, colon, open_ended, read_bracketed-address config.host config.port closed_never)
      | inr plain ↦ ground (
        arith,
        plain,
        read_address-plain config.host config.port open_ended,
        read_plain-address config.host config.port plain,
      )
    ]
