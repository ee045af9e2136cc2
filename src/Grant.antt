-- ===== src/Grant.antt =====
-- Host-authoritative authorization leases: the package internal/grant.
pub mod Status
pub mod Time
pub mod Duration
pub mod Policy
pub mod Clock
pub mod Expire
mod Tests
