-- ===== src/Socks5.antt =====
-- src/core/socks5.rs: the local SOCKS5 proxy.
pub mod Options
pub mod Stream
pub mod Address
pub mod Handshake
pub mod Connection
pub mod Proxy
pub mod Server
