-- ===== src/Auth.antt =====
-- src/core/auth.rs and the authentication part of src/core/session.rs.
pub mod Builders
pub mod Types
pub mod Client
pub mod Method
pub mod Plan
