-- ===== src/Invitation.antt =====
-- The invitations of a host: internal/enrollment/invite.go, accept.go and client.go.
pub mod Invite
pub mod Create
pub mod Lifetimes
pub mod Store
pub mod Use
pub mod Request
pub mod Resume
pub mod Accept
pub mod Moves
pub mod Changes
pub mod Uses
pub mod Quiet
pub mod Accepted
pub mod Active
pub mod Clients
pub mod Enrolled
pub mod Authorized
pub mod Refused
pub mod Held
pub mod Runs
pub mod Tests
