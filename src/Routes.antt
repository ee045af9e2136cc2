-- ===== src/Routes.antt =====
-- The routes of a client: internal/routestate.
pub mod Store
pub mod Reserve
pub mod Ports
pub mod Owners
pub mod Uses
pub mod Tests
