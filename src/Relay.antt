-- ===== src/Relay.antt =====
-- src/core/relay.rs: the local listener that relays its connections over SSH.
pub mod Target
pub mod Policy
pub mod Stats
pub mod Runtime
pub mod Connection
pub mod Listener
pub mod Serving
