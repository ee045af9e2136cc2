-- ===== src/Session.antt =====
-- The sessions of grants: internal/grantsession.
pub mod Match
pub mod Sole
pub mod Fields
mod Tests
