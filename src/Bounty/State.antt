-- ===== src/Bounty/State.antt =====
-- The storage of bounty_escrow/contracts/escrow/src/lib.rs: its records and enums, and one record
-- for all the contract's keys. A key that the code reads only through `unwrap_or(default)` is a
-- plain field that starts as the default.
use grainlify_stellar_contra.Base.{ℕ, Bool, Option, List, Map}
use grainlify_stellar_contra.Base.Int.{ℤ}
use grainlify_stellar_contra.Base.Host.{Address, Transfer}
use grainlify_stellar_contra.Bounty.Circuit.{Circuit}

-- `enum Error`
pub data Error : Type 0 where
  already_initialized not_initialized bounty_exists bounty_not_found funds_not_locked : Error
  deadline_not_passed unauthorized invalid_fee_rate fee_recipient_not_set : Error
  invalid_batch_size batch_size_mismatch duplicate_bounty_id invalid_amount : Error
  invalid_deadline insufficient_funds refund_not_approved funds_paused : Error
  amount_below_minimum amount_above_maximum circuit_breaker_open claim_expired : Error
  governance_version_too_low pending_claim_exists governance_proposal_not_executable : Error
  approval_required upgrade_not_approved analytics_overflow : Error
  invalid_circuit_breaker_config claim_window_not_configured invalid_amount_range : Error

pub data EscrowStatus : Type 0 where
  locked released refunded partially_refunded : EscrowStatus

pub data RefundMode : Type 0 where
  full partial : RefundMode

pub record RefundRecord : Type 0 where
  pub amount : ℤ
  pub recipient : Address
  pub timestamp : ℕ
  pub mode : RefundMode

pub record Escrow : Type 0 where
  pub depositor : Address
  pub amount : ℤ
  pub remaining_amount : ℤ
  pub status : EscrowStatus
  pub deadline : ℕ
  pub refund_history : List RefundRecord

pub record PauseFlags : Type 0 where
  pub global_paused : Bool
  pub lock_paused : Bool
  pub release_paused : Bool
  pub refund_paused : Bool

pub record AggregateStats : Type 0 where
  pub total_locked : ℤ
  pub total_released : ℤ
  pub total_refunded : ℤ
  pub count_locked : ℕ
  pub count_released : ℕ
  pub count_refunded : ℕ

pub record FeeConfig : Type 0 where
  pub lock_fee_rate : ℤ
  pub release_fee_rate : ℤ
  pub fee_recipient : Address
  pub fee_enabled : Bool

pub record MultisigConfig : Type 0 where
  pub threshold_amount : ℤ
  pub signers : List Address
  pub required_signatures : ℕ

pub record ReleaseApproval : Type 0 where
  pub bounty_id : ℕ
  pub contributor : Address
  pub approvals : List Address

pub record ClaimRecord : Type 0 where
  pub bounty_id : ℕ
  pub recipient : Address
  pub amount : ℤ
  pub expires_at : ℕ
  pub claimed : Bool

pub record RefundApproval : Type 0 where
  pub bounty_id : ℕ
  pub amount : ℤ
  pub recipient : Address
  pub mode : RefundMode
  pub approved_by : Address
  pub approved_at : ℕ

pub record LockFundsItem : Type 0 where
  pub bounty_id : ℕ
  pub depositor : Address
  pub amount : ℤ
  pub deadline : ℕ

pub record ReleaseFundsItem : Type 0 where
  pub bounty_id : ℕ
  pub contributor : Address

-- `analytics::BountyAnalytics`
pub record BountyAnalytics : Type 0 where
  pub total_amount_locked : ℤ
  pub total_amount_released : ℤ
  pub total_amount_refunded : ℤ
  pub remaining_amount : ℤ
  pub created_at : ℕ
  pub last_updated : ℕ
  pub partial_releases_count : ℕ
  pub partial_refunds_count : ℕ

-- `analytics::ContractAnalytics`
pub record ContractAnalytics : Type 0 where
  pub active_bounty_count : ℕ
  pub released_bounty_count : ℕ
  pub refunded_bounty_count : ℕ
  pub total_locked : ℤ
  pub total_released : ℤ
  pub total_refunded : ℤ
  pub average_bounty_amount : ℤ
  pub snapshot_timestamp : ℕ

-- `anti_abuse::AntiAbuseConfig` and `AddressState`
pub record AntiAbuseConfig : Type 0 where
  pub window_size : ℕ
  pub max_operations : ℕ
  pub cooldown_period : ℕ

pub record AddressState : Type 0 where
  pub last_operation_timestamp : ℕ
  pub window_start_timestamp : ℕ
  pub operation_count : ℕ

-- The categories that `check_paused` tells apart.
pub data Operation : Type 0 where
  lock release refund : Operation

pub data DisputeOutcome : Type 0 where
  claimed cancelled expired : DisputeOutcome

-- The states that `BountyStateTransitioned` names.
pub data StateName : Type 0 where
  new locked released refunded partial_r : StateName

-- The kinds of `BountyActivityEvent`.
pub data Activity : Type 0 where
  created released refunded part_ref : Activity

-- What the contract publishes, with the payloads of events.rs and analytics.rs less their constant
-- schema version. The pause switch is `none` for the global one.
pub data Event : Type 0 where
  bounty_initialized : (admin token : Address) (timestamp : ℕ) → Event
  funds_locked : (bounty_id : ℕ) (amount : ℤ) (depositor : Address) (deadline : ℕ) → Event
  funds_released : (bounty_id : ℕ) (amount : ℤ) (recipient : Address) (timestamp : ℕ) → Event
  funds_refunded : (bounty_id : ℕ) (amount : ℤ) (refund_to : Address) (timestamp : ℕ) → Event
  bounty_expired :
      (bounty_id : ℕ) (depositor : Address) (amount : ℤ) (deadline expired_at : ℕ) → Event
  batch_funds_locked : (count : ℕ) (total_amount : ℤ) (timestamp : ℕ) → Event
  batch_funds_released : (count : ℕ) (total_amount : ℤ) (timestamp : ℕ) → Event
  approval_added : (bounty_id : ℕ) (contributor approver : Address) (timestamp : ℕ) → Event
  claim_created : (bounty_id : ℕ) (recipient : Address) (amount : ℤ) (expires_at : ℕ) → Event
  claim_executed : (bounty_id : ℕ) (recipient : Address) (amount : ℤ) (claimed_at : ℕ) → Event
  claim_cancelled :
      (bounty_id : ℕ) (recipient : Address) (amount : ℤ) (cancelled_at : ℕ) (cancelled_by : Address)
      (reason : DisputeOutcome)
      → Event
  dispute_resolved :
      (bounty_id : ℕ) (outcome : DisputeOutcome) (resolver recipient : Address) (amount : ℤ)
      (resolved_at : ℕ)
      → Event
  state_transitioned :
      (bounty_id : ℕ) (previous_state new_state : StateName) (amount : ℤ) (actor : Address)
      (timestamp : ℕ)
      → Event
  bounty_activity : (bounty_id : ℕ) (activity_type : Activity) (amount : ℤ) (timestamp : ℕ) → Event
  pause_state_changed : (operation : Option Operation) (paused : Bool) (admin : Address) → Event
  fee_config_updated : (config : FeeConfig) (timestamp : ℕ) → Event
  analytics_snapshot : (metrics : ContractAnalytics) → Event

-- `DataKey`, `AntiAbuseKey`, `AnalyticsKey`, the governance keys and the circuit breaker's keys,
-- with the token transfers made and the events published so far, newest first.
pub record State : Type 0 where
  pub admin : Option Address
  pub token : Option Address
  pub escrows : Map Escrow
  pub escrow_index : List ℕ
  pub depositor_index : Address → List ℕ
  pub fee_config : Option FeeConfig
  pub refund_approvals : Map RefundApproval
  pub reentrancy_guard : Bool
  pub multisig_config : MultisigConfig
  pub release_approvals : Map ReleaseApproval
  pub pending_claims : Map ClaimRecord
  pub claim_window : ℕ
  pub pause_flags : PauseFlags
  pub amount_policy : Option (ℤ × ℤ)
  pub counters : AggregateStats
  pub analytics : Map BountyAnalytics
  pub abuse_config : AntiAbuseConfig
  pub abuse_states : Map AddressState
  pub abuse_whitelist : Address → Bool
  pub abuse_admin : Option Address
  pub governance_contract : Option Address
  pub min_governance_version : ℕ
  pub circuit : Circuit
  pub transfers : List Transfer
  pub events : List Event
