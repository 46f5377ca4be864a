-- ===== src/Bounty.antt =====
-- The bounty escrow contract, bounty_escrow/contracts/escrow/src.
pub mod Circuit
pub mod State
pub mod AntiAbuse
pub mod Counters
pub mod Analytics
pub mod Guards
pub mod Lock
pub mod Release
pub mod Payment
pub mod Claim
pub mod Refund
pub mod Batch
pub mod Accounts
pub mod Solvency
mod Tests
pub mod Safety
pub mod Blocking
pub mod Cooldown
pub mod Admin
pub mod Queries
pub mod Statistics
pub mod CircuitAdmin
