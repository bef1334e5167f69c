-- ===== src/Ledger.antt =====
-- fusion_relay/continuation.py: `ContinuationLedger`.
pub mod Binding
pub mod Visible
pub mod State
pub mod Reserve
pub mod Commit
pub mod Accept
pub mod Epoch
pub mod Steps
pub mod Chain
pub mod Lane
pub mod Paid
pub mod Stays
pub mod Samples
mod Tests
