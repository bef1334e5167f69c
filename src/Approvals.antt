-- ===== src/Approvals.antt =====
-- fusion_relay/approvals.py: `ApprovalManager`.
pub mod Ticket
pub mod Manager
pub mod Operations
pub mod Passing
pub mod Revoke
pub mod Revisions
pub mod Keeps
pub mod Steps
pub mod Authorized
pub mod Capacity
pub mod Revoked
mod Tests
