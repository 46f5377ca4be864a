-- ===== src/Lib.antt =====
-- The Grainlify contracts on Stellar: a model of the bounty escrow, the program escrow, governance and
-- the multisig, with the theorems on what the escrows hold against what they owe, on votes, and on
-- approvals.
--
-- A contract is a record of its storage keys (State), and a call is a function from what the host
-- offers (Env) and the storage to an outcome: a success with a value and the new storage, an error, or
-- a panic. The host rolls back a call that fails, so only a success carries a storage. Tokens and
-- governance contracts are fields of Env: the theorems hold for every behaviour of theirs that accepts
-- or rejects a transfer without calling back, and for every balance and verdict that they report.
--
-- Base: Booleans, options, lists, maps as functions, the integers over the native numbers (Base.Int)
--   with the checked and saturating i128 operations, and the host (Base.Host).
-- Bounty.State: the storage of bounty_escrow/contracts/escrow/src/lib.rs.
-- Bounty.Lock, Release, Claim, Refund, Batch: the calls that move tokens, one function for each entry
--   point, split where the code sets its reentrancy guard.
-- Bounty.Guards, Counters, AntiAbuse, Analytics, Circuit: what these calls share, from lib.rs,
--   analytics.rs, governance_integration.rs and error_recovery.rs of the same folder.
-- Bounty.Payment and Bounty.Accounts: what a call that pays out of an escrow or opens one does to the
--   storage, what the escrows owe (owed), what the transfers leave with the contract (net), and their
--   difference (surplus).
-- Bounty.Solvency, Batch.Solvency, Refund.Solvency, Safety, Blocking: the theorems. Bounty.Tests: runs.
-- Bounty.Cooldown: the rate limit as `lock_funds` meets it (`batch_lock_funds` does not ask it).
-- Bounty.Admin: setting up, fees and pausing, with what the emergency pause stops in Admin.Pausing.
-- Bounty.Circuit.Retry and Breaker: `execute_with_retry` and the theorems on the circuit breaker;
--   Bounty.CircuitAdmin: its entry points.
-- Bounty.Queries and Statistics: the views. Queries.Pages sets them against the calls, Queries.Totals
--   against sums over the escrows. Paging: the loop of the queries, which both escrows share, with a
--   reference for it.
--
-- Program.State: the storage of program-escrow/src/lib.rs: one program with its pool of funds, its
--   release schedules and history, disputes, settings and counters.
-- Program.Guards, RateLimit, Monitoring: what its entry points share, from lib.rs, reentrancy_guard.rs,
--   governance_integration.rs and monitoring.rs. The circuit breaker is the code of the bounty escrow,
--   and its model is Bounty.Circuit, whose storage is a field of this state.
-- Program.Admin, Disputes, Lock, Payout, Schedules, Queries: its entry points. Payout.Checks, Single
--   and Moves and Schedules.Marked, Rounds, Single and Trigger say what a call that succeeds has done;
--   Disputes.Lifecycle, Queries.Pages and Monitoring.Rates have the theorems on these parts alone.
-- Program.Ledger and Refinement: the abstract view of a pool, a balance and payouts, and how the
--   payouts carry it out.
-- Program.Books and Quiet: how a call changes the balance, the schedules and the transfers together,
--   and the calls that leave them alone. Steps is the histories of calls, of
--   every entry point that writes; WellFormed, Once, Solvency
--   and Safety are the theorems over them. Program.Tests: runs.
--
-- Governance: grainlify-core/src/governance.rs. Governance.State is its storage, Proposals, Voting and
--   Execution its functions, Steps the histories of calls, and Effects, Tallies, Histories, Approval and
--   Safety the proofs.
-- Multisig: grainlify-core/src/multisig.rs, in the same way: State, Operations, Steps, and Effects,
--   Viability, Soundness and Replay for the proofs. The closure that `execute` runs is an argument.
--
-- Not modelled: the time to live of storage entries, the events' schema versions, the monitoring
-- counters of the bounty escrow, its `upgrade` and `execute_governance_proposal`, the
-- getters of both escrows that return a stored field, the fee helpers of the program escrow, which
-- nothing calls, grainlify-core/src/lib.rs (upgrade and migration), and the example contracts under
-- soroban. There is no fuel: every loop recurs on its list, or on the rounds that the code itself counts
-- (the attempts of a retry, the proposals of `is_upgrade_approved`). Numbers of the types u32 and u64 are
-- natural numbers, with the traps of checked builds written out where the code adds to them.
pub mod Base
pub mod Bounty
pub mod Governance
pub mod Multisig
pub mod Paging
pub mod Program
