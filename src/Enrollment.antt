-- ===== src/Enrollment.antt =====
-- The clients of a host: internal/enrollment/clients.go.
pub mod Texts
pub mod Client
pub mod Store
pub mod Revoke
pub mod Rotate
pub mod Expire
pub mod Reconcile
pub mod Lawful
pub mod Refused
pub mod Tests
