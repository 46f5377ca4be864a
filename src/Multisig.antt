-- ===== src/Multisig.antt =====
-- The multisig of grainlify-core/src/multisig.rs.
pub mod State
pub mod Operations
pub mod Viability
pub mod Effects
pub mod Steps
pub mod Soundness
pub mod Replay
mod Tests
