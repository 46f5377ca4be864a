-- ===== src/Program.antt =====
-- The program escrow of program-escrow/src/lib.rs: prize pools, payouts and release schedules.
mod Tests
pub mod State
pub mod Monitoring
pub mod Guards
pub mod Admin
pub mod Disputes
pub mod RateLimit
pub mod Lock
pub mod Payout
pub mod Schedules
pub mod Queries
pub mod Ledger
pub mod Books
pub mod Quiet
pub mod Steps
pub mod WellFormed
pub mod Once
pub mod Solvency
pub mod Refinement
pub mod Safety
