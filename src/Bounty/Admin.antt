-- ===== src/Bounty/Admin.antt =====
-- The administration of bounty_escrow/contracts/escrow/src/lib.rs: setting up, fees, pausing, and the
-- settings of the other parts.
pub mod Pausing
use grainlify_stellar_contra.Base.{
  ℕ, ◌/◌, ◌||◌, Bool, false, not, Option, none, some, List, ◌∷◌, ltb, ◌==◌, if◌then◌else◌, is_some,
  unwrap_or, length,
}
use grainlify_stellar_contra.Base.Int.{ℤ, pos, ltb_ℤ, ◌==ℤ◌, checked_mul, quot}
use grainlify_stellar_contra.Base.Host.{
  Address, Env, ◌>>=◌, ◌>>◌, pure, gets, asks, or_fail, fail_if, modify, require_auth,
}
use grainlify_stellar_contra.Bounty.State.{
  State, already_initialized, not_initialized, unauthorized, invalid_fee_rate, invalid_amount,
  invalid_amount_range, FeeConfig, PauseFlags, Operation, lock, release, refund, Event,
}
use grainlify_stellar_contra.Bounty.Guards.{
  Call, now, emit, require_admin, check_governance_requirements,
}
use grainlify_stellar_contra.Bounty.AntiAbuse.{set_whitelist_entry}

unfoldable pub init : Address → Address → Call (Unit {0})
init admin token = do
  fail_if (is_some (← gets (λ s. s.admin))) already_initialized
  require_auth admin
  modify (λ s. record s { admin = some admin; token = some token })
  timestamp ← now
  emit (Event.bounty_initialized admin token timestamp)

abbrev pub basis_points : ℤ
basis_points = pos 10000

abbrev pub max_fee_rate : ℤ
max_fee_rate = pos 5000

unfoldable pub calculate_fee : ℤ → ℤ → ℤ
calculate_fee amount fee_rate =
    if fee_rate ==ℤ pos 0
    then pos 0
    else elim (checked_mul amount fee_rate) [ none ↦ pos 0 | some x ↦ quot x basis_points ]

abbrev pub get_fee_config_internal : Env → State → FeeConfig
get_fee_config_internal e s = unwrap_or s.fee_config (record {
  lock_fee_rate = pos 0;
  release_fee_rate = pos 0;
  fee_recipient = unwrap_or s.admin e.current_contract_address;
  fee_enabled = false;
})

-- `if let Some(rate) = .. { if rate < 0 || rate > MAX_FEE_RATE { return Err(..) } }`
abbrev pub check_fee_rate : Option ℤ → Call (Unit {0})
check_fee_rate none = pure tt
check_fee_rate (some rate) =
    fail_if (ltb_ℤ rate (pos 0) || ltb_ℤ max_fee_rate rate) invalid_fee_rate

-- The configuration with the fields that are given.
abbrev pub changed_fee_config :
    Option ℤ → Option ℤ → Option Address → Option Bool → FeeConfig → FeeConfig
changed_fee_config lock_rate release_rate recipient enabled config = record {
  lock_fee_rate = unwrap_or lock_rate config.lock_fee_rate;
  release_fee_rate = unwrap_or release_rate config.release_fee_rate;
  fee_recipient = unwrap_or recipient config.fee_recipient;
  fee_enabled = unwrap_or enabled config.fee_enabled;
}

unfoldable pub update_fee_config :
    Option ℤ → Option ℤ → Option Address → Option Bool → Call (Unit {0})
update_fee_config lock_fee_rate release_fee_rate fee_recipient fee_enabled = do
  require_admin
  check_governance_requirements
  e ← asks (λ e. e)
  current ← gets (get_fee_config_internal e)
  check_fee_rate lock_fee_rate
  check_fee_rate release_fee_rate
  let config = changed_fee_config lock_fee_rate release_fee_rate fee_recipient fee_enabled current
  modify (λ s. record s { fee_config = some config })
  emit (Event.fee_config_updated config e.timestamp)

-- One switch of `set_paused` that is given is announced.
abbrev pub announce_pause : Operation → Option Bool → Address → Call (Unit {0})
announce_pause operation none admin = pure tt
announce_pause operation (some paused) admin =
    emit (Event.pause_state_changed (some operation) paused admin)

-- The flags with the switches that are given.
abbrev pub changed_flags : Option Bool → Option Bool → Option Bool → PauseFlags → PauseFlags
changed_flags lock_ release_ refund_ flags = record flags {
  lock_paused = unwrap_or lock_ flags.lock_paused;
  release_paused = unwrap_or release_ flags.release_paused;
  refund_paused = unwrap_or refund_ flags.refund_paused;
}

unfoldable pub set_paused : Option Bool → Option Bool → Option Bool → Call (Unit {0})
set_paused lock_ release_ refund_ = do
  admin ← require_admin
  check_governance_requirements
  announce_pause lock lock_ admin
  announce_pause release release_ admin
  announce_pause refund refund_ admin
  modify (λ s. record s { pause_flags = changed_flags lock_ release_ refund_ s.pause_flags })

unfoldable pub set_emergency_pause : Bool → Call (Unit {0})
set_emergency_pause paused = do
  admin ← require_admin
  check_governance_requirements
  emit (Event.pause_state_changed none paused admin)
  modify (λ s. record s { pause_flags = record s.pause_flags { global_paused = paused } })

unfoldable pub update_multisig_config : ℤ → List Address → ℕ → Call (Unit {0})
update_multisig_config threshold_amount signers required_signatures = do
  require_admin
  fail_if (ltb (length signers) required_signatures) invalid_amount
  modify (λ s. record s {
    multisig_config = record {
      threshold_amount = threshold_amount;
      signers = signers;
      required_signatures = required_signatures;
    };
  })

unfoldable pub set_amount_policy : Address → ℤ → ℤ → Call (Unit {0})
set_amount_policy caller min_amount max_amount = do
  admin ← or_fail (← gets (λ s. s.admin)) not_initialized
  fail_if (not (caller == admin)) unauthorized
  require_auth admin
  fail_if (ltb_ℤ max_amount min_amount) invalid_amount_range
  modify (λ s. record s { amount_policy = some (min_amount, max_amount) })

unfoldable pub set_anti_abuse_admin : Address → Call (Unit {0})
set_anti_abuse_admin admin = do require_admin; modify (λ s. record s { abuse_admin = some admin })

unfoldable pub set_whitelist : Address → Bool → Call (Unit {0})
set_whitelist whitelisted_address whitelisted = do
  require_admin
  modify (set_whitelist_entry whitelisted_address whitelisted)

unfoldable pub set_governance_contract : Address → Call (Unit {0})
set_governance_contract governance_addr = do
  require_admin
  modify (λ s. record s { governance_contract = some governance_addr })

unfoldable pub set_min_governance_version : ℕ → Call (Unit {0})
set_min_governance_version min_version = do
  require_admin
  modify (λ s. record s { min_governance_version = min_version })
