-- ===== src/Program/State.antt =====
-- The storage of program-escrow/src/lib.rs: its records and enums, and one record for all the
-- contract's keys. A key that the code reads only through `unwrap_or(default)` is a plain field
-- that starts as the default. The circuit breaker of program-escrow/src/error_recovery.rs is, name
-- for name, that of the bounty escrow, with a program's identifier for a bounty's.
use grainlify_stellar_contra.Base.{ℕ, Bool, false, Option, none, List, [], Map}
use grainlify_stellar_contra.Base.Int.{ℤ}
use grainlify_stellar_contra.Base.Host.{Address, Hash, Symbol, Transfer}
use grainlify_stellar_contra.Bounty.Circuit.{Circuit, initial_circuit}
use grainlify_stellar_contra.Program.Monitoring.{Monitor, initial_monitor}

-- `enum Error`
pub data Error : Type 0 where
  governance_version_too_low invalid_threshold_bps governance_proposal_not_executable : Error
  upgrade_not_approved program_id_mismatch : Error

pub record PayoutRecord : Type 0 where
  pub recipient : Address
  pub amount : ℤ
  pub timestamp : ℕ

pub record ProgramData : Type 0 where
  pub program_id : Symbol
  pub total_funds : ℤ
  pub remaining_balance : ℤ
  pub authorized_payout_key : Address
  pub payout_history : List PayoutRecord
  pub token_address : Address

pub record PauseFlags : Type 0 where
  pub lock_paused : Bool
  pub release_paused : Bool
  pub refund_paused : Bool

pub record RateLimitConfig : Type 0 where
  pub window_size : ℕ
  pub max_operations : ℕ
  pub cooldown_period : ℕ

pub record FundCapConfig : Type 0 where
  pub max_total_funds : Option ℤ
  pub max_single_lock : Option ℤ

pub record ProgramReleaseSchedule : Type 0 where
  pub schedule_id : ℕ
  pub recipient : Address
  pub amount : ℤ
  pub release_timestamp : ℕ
  pub released : Bool
  pub released_at : Option ℕ
  pub released_by : Option Address

pub data ReleaseType : Type 0 where
  manual automatic oracle : ReleaseType

pub record ProgramReleaseHistory : Type 0 where
  pub schedule_id : ℕ
  pub recipient : Address
  pub amount : ℤ
  pub released_at : ℕ
  pub release_type : ReleaseType

pub record ProgramAggregateStats : Type 0 where
  pub total_funds : ℤ
  pub remaining_balance : ℤ
  pub total_paid_out : ℤ
  pub payout_count : ℕ
  pub scheduled_count : ℕ
  pub released_count : ℕ
  pub authorized_payout_key : Address
  pub payout_history : List PayoutRecord
  pub token_address : Address

pub data DisputeStatus : Type 0 where
  undisputed open_ resolved cancelled : DisputeStatus

pub data DisputeScope : Type 0 where
  global : DisputeScope
  of_recipient : Address → DisputeScope
  of_schedule : ℕ → DisputeScope

pub record DisputeRecord : Type 0 where
  pub opened_by : Address
  pub opened_at : ℕ
  pub reason : Symbol
  pub status : DisputeStatus
  pub resolved_by : Option Address
  pub resolved_at : Option ℕ

-- `anti_abuse::RateLimitState`
pub record RateLimitState : Type 0 where
  pub last_operation_timestamp : ℕ
  pub window_start_timestamp : ℕ
  pub operation_count : ℕ

-- The symbols that `check_paused` tells apart.
pub data Operation : Type 0 where
  lock release refund : Operation

-- What the contract publishes, less the constant version. The counts that a `batch_paid` repeats
-- for its gas estimate are left out.
pub data Event : Type 0 where
  program_initialized : (program_id : Symbol) (payout_key token : Address) → Event
  funds_locked : (program_id : Symbol) (amount remaining : ℤ) → Event
  batch_paid : (program_id : Symbol) (recipient_count : ℕ) (total remaining : ℤ) → Event
  paid : (program_id : Symbol) (recipient : Address) (amount remaining : ℤ) → Event
  aggregate_stats :
      (program_id : Symbol) (total remaining paid_out : ℤ) (payout_count scheduled_count : ℕ)
      → Event
  large_payout : (program_id : Symbol) (recipient : Address) (amount threshold : ℤ) → Event
  schedule_triggered :
      (program_id : Symbol) (schedule_id : ℕ) (recipient : Address) (amount : ℤ)
      (trigger_type : ReleaseType)
      → Event
  dispute_opened :
      (program_id : Symbol) (scope : DisputeScope) (opened_by : Address) (reason : Symbol)
      (timestamp : ℕ)
      → Event
  dispute_resolved :
      (program_id : Symbol) (scope : DisputeScope) (resolved_by : Address) (timestamp : ℕ) → Event
  dispute_cancelled :
      (program_id : Symbol) (scope : DisputeScope) (cancelled_by : Address) (timestamp : ℕ) → Event
  pause_state_changed : (operation : Operation) (is_paused : Bool) (admin : Address) → Event
  upgrade_executed : (wasm_hash : Hash) (admin : Address) → Event
  whitelist_changed : (address : Address) (is_listed : Bool) → Event
  whitelist_enforcement_changed : (is_enabled : Bool) → Event

-- The symbols, `DataKey`, `RateLimitKey`, and the keys of the modules of the contract, with the
-- token transfers made and the events published so far, newest first.
pub record State : Type 0 where
  pub program_data : Option ProgramData
  pub schedules : List ProgramReleaseSchedule
  pub release_history : List ProgramReleaseHistory
  pub next_schedule_id : ℕ
  pub admin : Option Address
  pub pending_admin : Option Address
  pub pause_flags : PauseFlags
  pub rate_limit_config : RateLimitConfig
  pub rate_limit_states : Map RateLimitState
  pub rate_limit_whitelist : Address → Bool
  pub fund_cap_config : FundCapConfig
  pub whitelist : Address → Bool
  pub whitelist_enforced : Bool
  pub dispute : Option DisputeRecord
  pub recipient_disputes : Map DisputeRecord
  pub schedule_disputes : Map DisputeRecord
  pub governance_contract : Option Address
  pub min_governance_version : ℕ
  pub reentrancy_guard : Bool
  pub large_payout_threshold_bps : ℕ
  pub circuit : Circuit
  pub monitor : Monitor
  pub installed_wasm : Option Hash
  pub transfers : List Transfer
  pub events : List Event

-- A contract whose storage is empty.
abbrev pub empty_state : State
empty_state = record {
  program_data = none;
  schedules = [];
  release_history = [];
  next_schedule_id = 1;
  admin = none;
  pending_admin = none;
  pause_flags = record { lock_paused = false; release_paused = false; refund_paused = false };
  rate_limit_config = record { window_size = 3600; max_operations = 10; cooldown_period = 60 };
  rate_limit_states = λ _. none;
  rate_limit_whitelist = λ _. false;
  fund_cap_config = record { max_total_funds = none; max_single_lock = none };
  whitelist = λ _. false;
  whitelist_enforced = false;
  dispute = none;
  recipient_disputes = λ _. none;
  schedule_disputes = λ _. none;
  governance_contract = none;
  min_governance_version = 0;
  reentrancy_guard = false;
  large_payout_threshold_bps = 1000;
  circuit = initial_circuit;
  monitor = initial_monitor;
  installed_wasm = none;
  transfers = [];
  events = [];
}
