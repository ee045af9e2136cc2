-- ===== src/Locator.antt =====
-- The candidates of a dial: internal/locator/resolve.go.
pub mod Address
pub mod Host
pub mod Endpoint
pub mod RoundTrip
pub mod Answers
pub mod Dial
pub mod Tests
