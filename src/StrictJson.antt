-- ===== src/StrictJson.antt =====
-- The preflight of JSON documents: internal/strictjson.
pub mod Walk
pub mod Trees
pub mod Verdicts
pub mod Needs
pub mod Exact
pub mod Tests
