-- ===== src/Journal.antt =====
-- fusion_relay/operations.py: the journal of tool operations.
pub mod Rows
pub mod Run
pub mod Delivery
mod Tests
