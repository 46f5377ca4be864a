-- ===== src/Bounty/Release.antt =====
-- `release_funds`, `partial_release` and `approve_large_release` of
-- bounty_escrow/contracts/escrow/src/lib.rs.
pub mod Effects
use grainlify_stellar_contra.Base.{
  ℕ, ◌+◌, ◌≤◌, Bool, false, not, ◌&&◌, ◌||◌, Option, none, some, [], ◌∷◌, ◌==◌, if◌then◌else◌,
  is_some, contains, push_back, insert, remove,
}
use grainlify_stellar_contra.Base.Int.{ℤ, pos, ltb_ℤ, leb_ℤ, ◌==ℤ◌, ◌+ℤ◌, ◌-ℤ◌, checked_sub}
use grainlify_stellar_contra.Base.Host.{
  Address, ◌>>=◌, ◌>>◌, pure, gets, asks, modify, fail_if, or_fail, or_trap, require_auth, overflow,
}
use grainlify_stellar_contra.Bounty.Guards.{
  Call, now, emit, get_admin, require_admin, check_circuit, check_paused, execute_token_transfer,
  check_governance_requirements, check_release_approval, enter, leave, is_locked,
}
use grainlify_stellar_contra.Bounty.Counters.{
  change_counters, transition_locked_to_released, partial_release_from_locked,
  finalize_partial_release_to_released,
}
use grainlify_stellar_contra.Bounty.Analytics.{update_analytics_on_release}
use grainlify_stellar_contra.Bounty.State.{
  State, unauthorized, bounty_not_found, funds_not_locked, invalid_amount, insufficient_funds,
  refund_not_approved, funds_paused, Escrow, EscrowStatus, locked, Operation, ReleaseApproval,
  StateName, Activity, Event,
}

-- Consumes the approval record of a large release.
unfoldable pub consume_release_approval : ℕ → State → State
consume_release_approval bounty_id s = record s {
  release_approvals = remove bounty_id s.release_approvals;
}

-- `release_funds` up to the reentrancy guard.
unfoldable pub check_release : ℕ → Call (Address × Escrow)
check_release bounty_id = do
  check_governance_requirements
  admin ← require_admin
  fail_if (is_some (← gets (λ s. s.pending_claims bounty_id))) refund_not_approved
  escrow ← or_fail (← gets (λ s. s.escrows bounty_id)) bounty_not_found
  fail_if (not (is_locked escrow.status)) funds_not_locked
  check_release_approval bounty_id escrow.amount
  pure (admin, escrow)

-- The escrow that `release_funds` writes.
abbrev pub released_escrow : Escrow → Escrow
released_escrow escrow = record escrow { status = EscrowStatus.released; remaining_amount = pos 0 }

unfoldable pub release_funds : ℕ → Address → Call (Unit {0})
unfolding consume_release_approval
release_funds bounty_id contributor = do
  checked ← check_release bounty_id
  let admin = checked.0
  let escrow = checked.1
  enter
  let release_amount = escrow.amount
  modify (λ s. record s { escrows = insert bounty_id (released_escrow escrow) s.escrows })
  this ← asks (λ e. e.current_contract_address)
  execute_token_transfer this contributor release_amount Operation.release
  timestamp ← now
  update_analytics_on_release bounty_id release_amount timestamp
  modify (change_counters (transition_locked_to_released release_amount))
  emit (
      Event.state_transitioned bounty_id StateName.locked StateName.released release_amount admin
        timestamp)
  emit (Event.bounty_activity bounty_id Activity.released release_amount timestamp)
  emit (Event.funds_released bounty_id release_amount contributor timestamp)
  leave
  modify (consume_release_approval bounty_id)

-- `partial_release` up to the reentrancy guard.
unfoldable pub check_partial_release : ℕ → ℤ → Call Escrow
check_partial_release bounty_id payout_amount = do
  get_admin
  check_circuit
  check_governance_requirements
  require_admin
  flags ← gets (λ s. s.pause_flags)
  fail_if (check_paused flags Operation.release) funds_paused
  fail_if (is_some (← gets (λ s. s.pending_claims bounty_id))) refund_not_approved
  escrow ← or_fail (← gets (λ s. s.escrows bounty_id)) bounty_not_found
  fail_if (not (is_locked escrow.status)) funds_not_locked
  fail_if (leb_ℤ payout_amount (pos 0)) invalid_amount
  fail_if (ltb_ℤ escrow.remaining_amount payout_amount) insufficient_funds
  check_release_approval bounty_id escrow.amount
  pure escrow

-- The escrow that `partial_release` writes, of which `remaining` is still owed.
abbrev pub partly_released_escrow : Escrow → ℤ → Escrow
partly_released_escrow escrow remaining = record escrow {
  remaining_amount = remaining;
  status = if remaining ==ℤ pos 0 then EscrowStatus.released else escrow.status;
}

unfoldable pub partial_release : ℕ → Address → ℤ → Call (Unit {0})
unfolding consume_release_approval
partial_release bounty_id contributor payout_amount = do
  escrow ← check_partial_release bounty_id payout_amount
  enter
  this ← asks (λ e. e.current_contract_address)
  execute_token_transfer this contributor payout_amount Operation.release
  remaining ← or_trap (checked_sub escrow.remaining_amount payout_amount) overflow
  modify (λ s. record s {
    escrows = insert bounty_id (partly_released_escrow escrow remaining) s.escrows;
  })
  timestamp ← now
  update_analytics_on_release bounty_id payout_amount timestamp
  modify (change_counters (partial_release_from_locked payout_amount))
  modify (
      change_counters
        (λ c. if remaining ==ℤ pos 0 then finalize_partial_release_to_released c else c))
  emit (Event.funds_released bounty_id payout_amount contributor timestamp)
  leave
  modify (consume_release_approval bounty_id)

-- The approval of `approver` on a record that may not exist yet.
unfoldable pub add_approval : ℕ → Address → Address → Option ReleaseApproval → ReleaseApproval
add_approval bounty_id contributor approver none = record {
  bounty_id = bounty_id;
  contributor = contributor;
  approvals = approver ∷ [];
}
add_approval bounty_id contributor approver (some a) = record a {
  approvals = push_back a.approvals approver;
}

abbrev pub has_approved : Option ReleaseApproval → Address → Bool
has_approved none approver = false
has_approved (some a) approver = contains a.approvals approver

unfoldable pub approve_large_release : ℕ → Address → Address → Call (Unit {0})
unfolding add_approval
approve_large_release bounty_id contributor approver = do
  get_admin
  config ← gets (λ s. s.multisig_config)
  fail_if (not (contains config.signers approver)) unauthorized
  require_auth approver
  approval ← gets (λ s. s.release_approvals bounty_id)
  timestamp ← now
  if has_approved approval approver then pure tt else (do
    modify (λ s. record s {
      release_approvals =
          insert bounty_id (add_approval bounty_id contributor approver approval)
            s.release_approvals;
    })
    emit (Event.approval_added bounty_id contributor approver timestamp))
