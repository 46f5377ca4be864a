-- ===== src/Bounty/Refund.antt =====
-- Refunds: `approve_refund`, `refund` and `sweep_expired_refunds` of
-- bounty_escrow/contracts/escrow/src/lib.rs.
pub mod Effects
pub mod Solvency
use grainlify_stellar_contra.Base.{
  ℕ, ◌+◌, ◌≤◌, Bool, true, false, not, ◌&&◌, ◌||◌, Option, none, some, List, [], ◌∷◌, ltb, ◌==◌,
  if◌then◌else◌, is_some, length, push_back, insert, remove,
}
use grainlify_stellar_contra.Base.Int.{ℤ, pos, ltb_ℤ, leb_ℤ, ◌==ℤ◌, ◌+ℤ◌, ◌-ℤ◌, checked_sub}
use grainlify_stellar_contra.Base.Host.{
  Address, ◌>>=◌, ◌>>◌, pure, gets, asks, modify, fail_if, or_fail, or_trap, unwrap_none, overflow,
}
use grainlify_stellar_contra.Bounty.Guards.{
  Call, now, emit, require_admin, check_circuit, check_paused, execute_token_transfer,
  client_transfer, check_governance_requirements, enter, leave, is_refundable, check_batch_size,
  validate_unique_bounty_ids,
}
use grainlify_stellar_contra.Bounty.Counters.{
  change_counters, transition_locked_to_refunded, partial_refund_from_locked,
  transition_partially_refunded_to_refunded,
}
use grainlify_stellar_contra.Bounty.Analytics.{update_analytics_on_refund}
use grainlify_stellar_contra.Bounty.State.{
  AggregateStats, bounty_not_found, funds_not_locked, invalid_amount, refund_not_approved,
  funds_paused, deadline_not_passed, Escrow, EscrowStatus, locked, partially_refunded, Operation,
  RefundApproval, RefundMode, full, partial, StateName, Activity, Event,
}

unfoldable pub approve_refund : ℕ → ℤ → Address → RefundMode → Call (Unit {0})
approve_refund bounty_id amount recipient mode = do
  admin ← require_admin
  escrow ← or_fail (← gets (λ s. s.escrows bounty_id)) bounty_not_found
  fail_if (not (is_refundable escrow.status)) funds_not_locked
  fail_if (leb_ℤ amount (pos 0) || ltb_ℤ escrow.remaining_amount amount) invalid_amount
  time ← now
  modify (λ s. record s {
    refund_approvals =
        insert bounty_id
          (record {
            bounty_id = bounty_id;
            amount = amount;
            recipient = recipient;
            mode = mode;
            approved_by = admin;
            approved_at = time;
          })
          s.refund_approvals;
  })

unfoldable pub load_refundable_escrow : ℕ → Call Escrow
load_refundable_escrow bounty_id = do
  escrow ← or_fail (← gets (λ s. s.escrows bounty_id)) bounty_not_found
  fail_if (is_some (← gets (λ s. s.pending_claims bounty_id))) refund_not_approved
  fail_if (not (is_refundable escrow.status)) funds_not_locked
  pure escrow

-- What `refund` pays, to whom, and whether the refund counts as full.
pub record Plan : Type 0 where
  pub refund_amount : ℤ
  pub refund_to : Address
  pub is_full : Bool

abbrev pub is_full_mode : RefundMode → Bool
is_full_mode full = true
is_full_mode partial = false

abbrev pub plan_refund : Escrow → Option RefundApproval → Plan
plan_refund escrow none = record {
  refund_amount = escrow.remaining_amount;
  refund_to = escrow.depositor;
  is_full = true;
}
plan_refund escrow (some app) = record {
  refund_amount = app.amount;
  refund_to = app.recipient;
  is_full = is_full_mode app.mode || leb_ℤ escrow.remaining_amount app.amount;
}

-- `refund` up to the reentrancy guard.
unfoldable pub check_refund : ℕ → Call (Escrow × Plan)
unfolding load_refundable_escrow
check_refund bounty_id = do
  check_circuit
  check_governance_requirements
  escrow ← load_refundable_escrow bounty_id
  time ← now
  approval ← gets (λ s. s.refund_approvals bounty_id)
  fail_if (ltb time escrow.deadline && not (is_some approval)) deadline_not_passed
  let plan = plan_refund escrow approval
  fail_if (leb_ℤ plan.refund_amount (pos 0) || ltb_ℤ escrow.remaining_amount plan.refund_amount)
      invalid_amount
  pure (escrow, plan)

abbrev pub mode_of : Bool → RefundMode
mode_of is_full = if is_full then full else partial

-- The escrow that `refund` writes, of which `remaining` is left.
abbrev pub refunded_escrow : Escrow → Plan → ℤ → ℕ → Escrow
refunded_escrow escrow plan remaining time = record escrow {
  remaining_amount = remaining;
  status =
      if plan.is_full || remaining ==ℤ pos 0
      then EscrowStatus.refunded
      else EscrowStatus.partially_refunded;
  refund_history = push_back escrow.refund_history (record {
    amount = plan.refund_amount;
    recipient = plan.refund_to;
    timestamp = time;
    mode = mode_of plan.is_full;
  });
}

-- The `match` on the old and the new status.
unfoldable pub count_refund : EscrowStatus → EscrowStatus → ℤ → AggregateStats → AggregateStats
count_refund EscrowStatus.locked EscrowStatus.refunded a c = transition_locked_to_refunded a c
count_refund EscrowStatus.locked EscrowStatus.partially_refunded a c =
    partial_refund_from_locked a c
count_refund EscrowStatus.partially_refunded EscrowStatus.refunded a c =
    transition_partially_refunded_to_refunded a c
count_refund EscrowStatus.partially_refunded EscrowStatus.partially_refunded a c =
    partial_refund_from_locked a c
count_refund _ _ a c = c

-- `refund` from the reentrancy guard on.
unfoldable pub pay_refund : ℕ → Escrow → Plan → Call (Unit {0})
pay_refund bounty_id escrow plan = do
  enter
  this ← asks (λ e. e.current_contract_address)
  execute_token_transfer this plan.refund_to plan.refund_amount Operation.refund
  remaining ← or_trap (checked_sub escrow.remaining_amount plan.refund_amount) overflow
  time ← now
  let escrow' = refunded_escrow escrow plan remaining time
  modify (λ s. record s { escrows = insert bounty_id escrow' s.escrows })
  update_analytics_on_refund bounty_id plan.refund_amount time
  modify (change_counters (count_refund escrow.status escrow'.status plan.refund_amount))
  emit (
      Event.state_transitioned bounty_id StateName.locked
        (if plan.is_full || remaining ==ℤ pos 0 then StateName.refunded else StateName.partial_r)
        plan.refund_amount plan.refund_to time)
  emit (
      Event.bounty_activity bounty_id
        (if plan.is_full then Activity.refunded else Activity.part_ref) plan.refund_amount time)
  modify (λ s. record s { refund_approvals = remove bounty_id s.refund_approvals })
  emit (Event.funds_refunded bounty_id plan.refund_amount plan.refund_to time)
  leave

unfoldable pub refund : ℕ → Call (Unit {0})
refund bounty_id = do checked ← check_refund bounty_id; pay_refund bounty_id checked.0 checked.1

-- The validation of one bounty in `sweep_expired_refunds`.
unfoldable pub check_sweep_item : ℕ → Call (Unit {0})
unfolding load_refundable_escrow
check_sweep_item bounty_id = do
  escrow ← load_refundable_escrow bounty_id
  fail_if (ltb (← now) escrow.deadline) deadline_not_passed
  fail_if (leb_ℤ escrow.remaining_amount (pos 0)) invalid_amount

unfoldable pub check_sweep : List ℕ → Call (Unit {0})
check_sweep [] = pure tt
check_sweep (b ∷ bs) = do check_sweep_item b; check_sweep bs

-- The escrow that a sweep writes.
abbrev pub swept_escrow : Escrow → ℕ → Escrow
swept_escrow escrow time = record escrow {
  remaining_amount = pos 0;
  status = EscrowStatus.refunded;
  refund_history = push_back escrow.refund_history (record {
    amount = escrow.remaining_amount;
    recipient = escrow.depositor;
    timestamp = time;
    mode = full;
  });
}

-- The counters' part of a round, by the status before it.
unfoldable pub count_sweep : EscrowStatus → ℤ → AggregateStats → AggregateStats
count_sweep EscrowStatus.locked a c = transition_locked_to_refunded a c
count_sweep _ a c = transition_partially_refunded_to_refunded a c

abbrev pub sweep_state_name : EscrowStatus → StateName
sweep_state_name EscrowStatus.partially_refunded = StateName.partial_r
sweep_state_name _ = StateName.locked

-- One round of the transfer loop of `sweep_expired_refunds`.
unfoldable pub sweep_one : Address → ℕ → Call (Unit {0})
sweep_one token bounty_id = do
  escrow ← or_trap (← gets (λ s. s.escrows bounty_id)) unwrap_none
  let amount = escrow.remaining_amount
  time ← now
  this ← asks (λ e. e.current_contract_address)
  client_transfer token this escrow.depositor amount
  modify (change_counters (count_sweep escrow.status amount))
  modify (λ s. record s { escrows = insert bounty_id (swept_escrow escrow time) s.escrows })
  update_analytics_on_refund bounty_id amount time
  emit (
      Event.state_transitioned bounty_id (sweep_state_name escrow.status) StateName.refunded amount
        escrow.depositor time)
  emit (Event.bounty_activity bounty_id Activity.refunded amount time)
  emit (Event.bounty_expired bounty_id escrow.depositor amount escrow.deadline time)
  emit (Event.funds_refunded bounty_id amount escrow.depositor time)

-- The transfer loop, which counts its rounds.
unfoldable pub sweep_loop : Address → List ℕ → Call ℕ
sweep_loop token [] = pure 0
sweep_loop token (b ∷ bs) = do sweep_one token b; count ← sweep_loop token bs; pure (count + 1)

-- `sweep_expired_refunds` up to the validation loop.
unfoldable pub open_sweep : List ℕ → Call (Unit {0})
open_sweep ids = do
  check_circuit
  check_governance_requirements
  check_batch_size (length ids)
  validate_unique_bounty_ids ids

-- `sweep_expired_refunds` between its two loops, with the token's address.
unfoldable pub enter_sweep : Call Address
enter_sweep = do
  flags ← gets (λ s. s.pause_flags)
  fail_if (check_paused flags Operation.refund) funds_paused
  enter
  or_trap (← gets (λ s. s.token)) unwrap_none

unfoldable pub sweep_expired_refunds : List ℕ → Call ℕ
sweep_expired_refunds ids = do
  open_sweep ids
  check_sweep ids
  token ← enter_sweep
  count ← sweep_loop token ids
  leave
  pure count
