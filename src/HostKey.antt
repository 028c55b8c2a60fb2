-- ===== src/HostKey.antt =====
-- src/core/host_key.rs: known hosts, their patterns, and the verifiers built on them.
pub mod Types
pub mod Glob
pub mod Patterns
pub mod Keys
pub mod KnownHosts
pub mod Verifier
pub mod Tofu
pub mod Handler
