-- ===== src/Bounty/Guards.antt =====
-- What the entry points of bounty_escrow/contracts/escrow/src/lib.rs share: the guards, the token
-- transfer, and the version check of governance_integration.rs.
use grainlify_stellar_contra.Base.{
  ℕ, Bool, true, false, not, Option, none, some, List, [], ◌∷◌, ltb, leb, ◌==◌, if◌then◌else◌,
  is_some, length, contains,
}
use grainlify_stellar_contra.Base.Int.{ℤ, ltb_ℤ}
use grainlify_stellar_contra.Base.Host.{
  Address, Transfer, Env, Action, ◌>>=◌, ◌>>◌, pure, gets, asks, modify, trap_if, fail_if, or_fail,
  or_trap, require_auth, unwrap_none, transfer_failed, reentrancy_detected,
}
use grainlify_stellar_contra.Bounty.Circuit.{check_and_allow}
use grainlify_stellar_contra.Bounty.State.{
  State, Error, not_initialized, funds_paused, circuit_breaker_open, governance_version_too_low,
  approval_required, amount_below_minimum, amount_above_maximum, invalid_batch_size,
  duplicate_bounty_id, Operation, lock, release, refund, PauseFlags, EscrowStatus, locked,
  partially_refunded, Event,
}

abbrev pub Call : Type 0 → Type 0
Call = Action State Error

abbrev pub now : Call ℕ
now = asks (λ e. e.timestamp)

abbrev pub emit : Event → Call (Unit {0})
emit v = modify (λ s. record s { events = v ∷ s.events })

-- `if !has(Admin) { return Err(NotInitialized) }`, then the admin
abbrev pub get_admin : Call Address
get_admin = do or_fail (← gets (λ s. s.admin)) not_initialized

-- The same with `admin.require_auth()`.
abbrev pub require_admin : Call Address
require_admin = do admin ← get_admin; require_auth admin; pure admin

unfoldable pub check_paused : PauseFlags → Operation → Bool
check_paused flags lock = if flags.global_paused then true else flags.lock_paused
check_paused flags release = if flags.global_paused then true else flags.release_paused
check_paused flags refund = if flags.global_paused then true else flags.refund_paused

-- `if let Err(_) = check_and_allow(&env) { return Err(CircuitBreakerOpen) }`
unfoldable pub check_circuit : Call (Unit {0})
unfolding check_and_allow
check_circuit = do
  e ← asks (λ e. e)
  answer ← gets (λ s. (check_and_allow e s.circuit).0)
  fail_if (is_some answer) circuit_breaker_open

-- `token::Client::transfer` of the configured token
unfoldable pub client_transfer : Address → Address → Address → ℤ → Call (Unit {0})
client_transfer token from to amount = do
  let t : Transfer = record { token = token; from = from; to = to; amount = amount }
  e ← asks (λ e. e)
  earlier ← gets (λ s. s.transfers)
  trap_if (not (e.transfer_ok earlier t)) transfer_failed
  modify (λ s. record s { transfers = t ∷ s.transfers })

unfoldable pub execute_token_transfer : Address → Address → ℤ → Operation → Call (Unit {0})
unfolding check_paused client_transfer
execute_token_transfer from to amount operation = do
  flags ← gets (λ s. s.pause_flags)
  fail_if (check_paused flags operation) funds_paused
  token ← or_trap (← gets (λ s. s.token)) unwrap_none
  client_transfer token from to amount

-- `governance_integration::check_governance_version`
unfoldable pub check_governance_version : Env → Option Address → ℕ → Bool
check_governance_version e none min_version = true
check_governance_version e (some governance) min_version =
    if ltb 0 min_version
    then leb min_version
        (if leb 10000 min_version then e.gov_version_numeric governance else e.gov_ver governance)
    else true

unfoldable pub check_governance_requirements : Call (Unit {0})
unfolding check_governance_version
check_governance_requirements = do
  e ← asks (λ e. e)
  fine ← gets (λ s. check_governance_version e s.governance_contract s.min_governance_version)
  fail_if (not fine) governance_version_too_low

unfoldable pub check_release_approval : ℕ → ℤ → Call (Unit {0})
check_release_approval bounty_id amount = do
  config ← gets (λ s. s.multisig_config)
  approval ← gets (λ s. s.release_approvals bounty_id)
  if ltb_ℤ amount config.threshold_amount then pure tt else (do
    record_ ← or_fail approval approval_required
    fail_if (ltb (length record_.approvals) config.required_signatures) approval_required)

-- The amount policy's part of `lock_funds` and of `batch_lock_funds`.
unfoldable pub check_amount_policy : ℤ → Option (ℤ × ℤ) → Call (Unit {0})
check_amount_policy amount none = pure tt
check_amount_policy amount (some (low, high)) = do
  fail_if (ltb_ℤ amount low) amount_below_minimum
  fail_if (ltb_ℤ high amount) amount_above_maximum

-- The guard's test and set, and its removal.
abbrev pub enter : Call (Unit {0})
enter = do
  trap_if (← gets (λ s. s.reentrancy_guard)) reentrancy_detected
  modify (λ s. record s { reentrancy_guard = true })

abbrev pub leave : Call (Unit {0})
leave = modify (λ s. record s { reentrancy_guard = false })

abbrev pub is_locked : EscrowStatus → Bool
is_locked locked = true
is_locked _ = false

abbrev pub is_refundable : EscrowStatus → Bool
is_refundable locked = true
is_refundable partially_refunded = true
is_refundable _ = false

abbrev pub max_batch_size : ℕ
max_batch_size = 20

-- The size check of the batch calls.
abbrev pub check_batch_size : ℕ → Call (Unit {0})
check_batch_size n = do
  fail_if (n == 0) invalid_batch_size
  fail_if (ltb max_batch_size n) invalid_batch_size

-- `validate_unique_bounty_ids`, on the identifiers seen so far
unfoldable pub has_duplicate : List ℕ → List ℕ → Bool
has_duplicate seen [] = false
has_duplicate seen (x ∷ xs) =
    let rest = has_duplicate (x ∷ seen) xs in if contains seen x then true else rest

unfoldable pub validate_unique_bounty_ids : List ℕ → Call (Unit {0})
unfolding has_duplicate
validate_unique_bounty_ids ids = fail_if (has_duplicate [] ids) duplicate_bounty_id
