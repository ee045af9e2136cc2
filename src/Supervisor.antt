-- ===== src/Supervisor.antt =====
-- The supervision of one tunnel process: internal/supervisor/supervisor.go.
pub mod Policy
pub mod Faults
pub mod Restart
pub mod Attempt
pub mod Ready
mod Tests
