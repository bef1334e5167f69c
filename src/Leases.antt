-- ===== src/Leases.antt =====
-- fusion_relay/leases.py: `LeaseManager`.
pub mod State
pub mod Acquire
pub mod Act
pub mod Steps
pub mod Exclusive
pub mod Lost
pub mod Observed
pub mod Ended
mod Tests
