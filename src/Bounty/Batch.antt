-- ===== src/Bounty/Batch.antt =====
-- The batch calls `batch_lock_funds` and `batch_release_funds` of
-- bounty_escrow/contracts/escrow/src/lib.rs.
pub mod Effects
pub mod Checks
pub mod Solvency
use grainlify_stellar_contra.Base.{
  ℕ, ◌+◌, ◌≤◌, not, ◌&&◌, ◌||◌, List, [], ◌∷◌, map, leb, ◌==◌, if◌then◌else◌, is_some, length,
  contains, push_back, insert,
}
use grainlify_stellar_contra.Base.Int.{ℤ, pos, leb_ℤ, ◌==ℤ◌, ◌+ℤ◌, ◌-ℤ◌, checked_add}
use grainlify_stellar_contra.Base.Host.{
  Address, ◌>>=◌, ◌>>◌, pure, gets, asks, modify, fail_if, or_fail, or_trap, require_auth,
  unwrap_none, overflow,
}
use grainlify_stellar_contra.Bounty.Guards.{
  Call, now, emit, get_admin, require_admin, check_circuit, check_paused, client_transfer,
  check_governance_requirements, check_amount_policy, is_locked, check_batch_size,
  validate_unique_bounty_ids,
}
use grainlify_stellar_contra.Bounty.Counters.{change_counters, transition_locked_to_released}
use grainlify_stellar_contra.Bounty.Analytics.{update_analytics_on_release}
use grainlify_stellar_contra.Bounty.State.{
  bounty_exists, bounty_not_found, funds_not_locked, invalid_deadline, invalid_amount,
  refund_not_approved, funds_paused, Operation, LockFundsItem, ReleaseFundsItem, Event,
}
use grainlify_stellar_contra.Bounty.Lock.{store_escrow}
use grainlify_stellar_contra.Bounty.Release.{released_escrow}

abbrev pub lock_ids : List LockFundsItem → List ℕ
lock_ids = map (λ i. i.bounty_id)

abbrev pub release_ids : List ReleaseFundsItem → List ℕ
release_ids = map (λ i. i.bounty_id)

-- The validation of one item of `batch_lock_funds`.
unfoldable pub check_lock_item : LockFundsItem → Call (Unit {0})
check_lock_item i = do
  fail_if (is_some (← gets (λ s. s.escrows i.bounty_id))) bounty_exists
  fail_if (leb_ℤ i.amount (pos 0)) invalid_amount
  check_amount_policy i.amount (← gets (λ s. s.amount_policy))
  fail_if (leb i.deadline (← now)) invalid_deadline

unfoldable pub check_lock_items : List LockFundsItem → Call (Unit {0})
check_lock_items [] = pure tt
check_lock_items (i ∷ is) = do check_lock_item i; check_lock_items is

-- `require_auth` once for each depositor, given those already asked.
unfoldable pub require_depositors : List Address → List LockFundsItem → Call (Unit {0})
require_depositors seen [] = pure tt
require_depositors seen (i ∷ is) =
    (if contains seen i.depositor then pure tt else require_auth i.depositor)
    >> require_depositors (if contains seen i.depositor then seen else push_back seen i.depositor)
        is

-- One round of the loop of `batch_lock_funds`.
unfoldable pub lock_item : Address → LockFundsItem → Call (Unit {0})
lock_item token i = do
  this ← asks (λ e. e.current_contract_address)
  timestamp ← now
  client_transfer token i.depositor this i.amount
  modify (store_escrow i.bounty_id i.depositor i.amount i.deadline timestamp)
  emit (Event.funds_locked i.bounty_id i.amount i.depositor i.deadline)

unfoldable pub lock_items : Address → List LockFundsItem → Call ℕ
lock_items token [] = pure 0
lock_items token (i ∷ is) = do lock_item token i; count ← lock_items token is; pure (count + 1)

-- `items.iter().map(|i| i.amount).sum()`, which traps on overflow
unfoldable pub sum_amounts : ℤ → List LockFundsItem → Call ℤ
sum_amounts total [] = pure total
sum_amounts total (i ∷ is) = do
  total' ← or_trap (checked_add total i.amount) overflow
  sum_amounts total' is

-- `batch_lock_funds` up to the validation of the items, with the token's address.
unfoldable pub enter_batch_lock : List LockFundsItem → Call Address
enter_batch_lock items = do
  check_circuit
  check_batch_size (length items)
  get_admin
  validate_unique_bounty_ids (lock_ids items)
  flags ← gets (λ s. s.pause_flags)
  fail_if (check_paused flags Operation.lock) funds_paused
  or_trap (← gets (λ s. s.token)) unwrap_none

-- `batch_lock_funds` up to the loop that moves tokens.
unfoldable pub check_batch_lock : List LockFundsItem → Call Address
check_batch_lock items = do
  token ← enter_batch_lock items
  check_lock_items items
  require_depositors [] items
  pure token

unfoldable pub batch_lock_funds : List LockFundsItem → Call ℕ
batch_lock_funds items = do
  token ← check_batch_lock items
  count ← lock_items token items
  total ← sum_amounts (pos 0) items
  timestamp ← now
  emit (Event.batch_funds_locked count total timestamp)
  pure count

-- The validation of one item of `batch_release_funds`, with the running total.
unfoldable pub check_release_item : ℤ → ReleaseFundsItem → Call ℤ
check_release_item total i = do
  escrow ← or_fail (← gets (λ s. s.escrows i.bounty_id)) bounty_not_found
  fail_if (not (is_locked escrow.status)) funds_not_locked
  fail_if (is_some (← gets (λ s. s.pending_claims i.bounty_id))) refund_not_approved
  or_fail (checked_add total escrow.amount) invalid_amount

unfoldable pub check_release_items : ℤ → List ReleaseFundsItem → Call ℤ
check_release_items total [] = pure total
check_release_items total (i ∷ is) = do
  total' ← check_release_item total i
  check_release_items total' is

-- One round of the loop of `batch_release_funds`.
unfoldable pub release_item : Address → ReleaseFundsItem → Call (Unit {0})
release_item token i = do
  escrow ← or_trap (← gets (λ s. s.escrows i.bounty_id)) unwrap_none
  this ← asks (λ e. e.current_contract_address)
  timestamp ← now
  client_transfer token this i.contributor escrow.amount
  modify (λ s. record s { escrows = insert i.bounty_id (released_escrow escrow) s.escrows })
  modify (change_counters (transition_locked_to_released escrow.amount))
  update_analytics_on_release i.bounty_id escrow.amount timestamp
  emit (Event.funds_released i.bounty_id escrow.amount i.contributor timestamp)

unfoldable pub release_items : Address → List ReleaseFundsItem → Call ℕ
release_items token [] = pure 0
release_items token (i ∷ is) = do
  release_item token i
  count ← release_items token is
  pure (count + 1)

-- `batch_release_funds` up to the validation of the items, with the token's address.
unfoldable pub enter_batch_release : List ReleaseFundsItem → Call Address
enter_batch_release items = do
  check_circuit
  check_governance_requirements
  check_batch_size (length items)
  require_admin
  validate_unique_bounty_ids (release_ids items)
  flags ← gets (λ s. s.pause_flags)
  fail_if (check_paused flags Operation.release) funds_paused
  or_trap (← gets (λ s. s.token)) unwrap_none

-- `batch_release_funds` up to the loop that moves tokens, with the total to be released.
unfoldable pub check_batch_release : List ReleaseFundsItem → Call (Address × ℤ)
check_batch_release items = do
  token ← enter_batch_release items
  total ← check_release_items (pos 0) items
  pure (token, total)

unfoldable pub batch_release_funds : List ReleaseFundsItem → Call ℕ
batch_release_funds items = do
  checked ← check_batch_release items
  count ← release_items checked.0 items
  timestamp ← now
  emit (Event.batch_funds_released count checked.1 timestamp)
  pure count
