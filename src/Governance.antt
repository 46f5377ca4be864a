-- ===== src/Governance.antt =====
-- The governance contract of grainlify-core/src/governance.rs.
pub mod State
pub mod Proposals
pub mod Voting
pub mod Execution
pub mod Effects
pub mod Steps
pub mod Safety
pub mod Approval
pub mod Tallies
pub mod Histories
mod Tests
