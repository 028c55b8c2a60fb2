-- ===== src/Tests.antt =====
-- The theorems at concrete inputs, and runs of the definitions.
mod Hosts
mod Calls
mod Relays
mod Proxy
mod Plans
mod Sessions
mod Channels
mod Files
mod Saved
