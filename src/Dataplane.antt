-- ===== src/Dataplane.antt =====
-- The SSH data plane: internal/dataplane, less its packets, which Packet models.
pub mod Policy
pub mod Connection
pub mod Kex
pub mod Auth
pub mod Channels
pub mod Serve
pub mod Replies
pub mod Good
pub mod Login
pub mod Derive
pub mod Windows
pub mod Limiter
mod Tests
