-- ===== src/Program/Payout.antt =====
-- `single_payout` and `batch_payout` of program-escrow/src/lib.rs. What they record of a failure
-- before they panic is rolled back with the rest of the call.
pub mod Checks
pub mod Single
pub mod Moves
pub mod Effects
use grainlify_stellar_contra.Base.{
  ℕ, not, ◌||◌, List, [], ◌∷◌, length, push_back, ltb, ◌==◌, if◌then◌else◌,
}
use grainlify_stellar_contra.Base.Int.{ℤ, pos, ltb_ℤ, leb_ℤ, quot, checked_add, checked_sub}
use grainlify_stellar_contra.Base.Host.{
  Address, Symbol, ◌>>=◌, ◌>>◌, pure, trap, gets, asks, trap_if, or_trap, overflow, funds_paused,
  dispute_in_progress, not_whitelisted, length_mismatch, empty_batch, batch_too_large,
  amount_not_positive, insufficient_balance,
}
use grainlify_stellar_contra.Bounty.Circuit.{record_success, record_failure}
use grainlify_stellar_contra.Program.State.{
  ProgramData, PayoutRecord, Operation, Event, global, of_recipient,
}
use grainlify_stellar_contra.Program.Guards.{
  Call, now, emit, on_circuit, track, sym_batchpay, sym_payout, sym_batch_pay, sym_sngl_pay,
  err_insufficient_balance, store_program, check_paused, is_dispute_open_for_key, is_payable, enter,
  clear_entered, open_payout, client_transfer, emit_aggregate_stats, emit_large_payout,
  check_and_emit_large_payout,
}

abbrev pub max_batch_size : ℕ
max_batch_size = 100

abbrev pub payout_record : Address → ℤ → ℕ → PayoutRecord
payout_record recipient amount time = record {
  recipient = recipient;
  amount = amount;
  timestamp = time;
}

-- `record_failure`, and the panic "Insufficient balance".
unfoldable pub check_balance : ProgramData → ℤ → Symbol → Call (Unit {0})
unfolding record_failure
check_balance program amount operation =
    if ltb_ℤ program.remaining_balance amount
    then (do
      on_circuit (record_failure program.program_id operation err_insufficient_balance)
      trap insufficient_balance)
    else pure tt

-- The pause flag and the global dispute.
unfoldable pub check_release_allowed : Call (Unit {0})
unfolding check_paused is_dispute_open_for_key
check_release_allowed = do
  flags ← gets (λ s. s.pause_flags)
  trap_if (check_paused flags Operation.release) funds_paused
  trap_if (← gets (is_dispute_open_for_key global)) dispute_in_progress

-- `single_payout` up to the payout key's authorisation, with the program's record.
unfoldable pub open_single : Address → Call ProgramData
unfolding enter check_release_allowed is_dispute_open_for_key open_payout
open_single recipient = do
  enter
  check_release_allowed
  trap_if (← gets (is_dispute_open_for_key (of_recipient recipient))) dispute_in_progress
  open_payout

-- The whitelist, the amount and the balance.
unfoldable pub check_payment : Address → ℤ → ProgramData → Call ProgramData
unfolding is_payable check_balance
check_payment recipient amount program = do
  trap_if (not (← gets (is_payable recipient))) not_whitelisted
  trap_if (leb_ℤ amount (pos 0)) amount_not_positive
  check_balance program amount sym_sngl_pay
  pure program

-- `single_payout` up to the transfer, with the program's record.
unfoldable pub check_single_payout : Address → ℤ → Call ProgramData
unfolding open_single check_payment
check_single_payout recipient amount = do
  program ← open_single recipient
  check_payment recipient amount program

-- The transfer and the new record of the program.
unfoldable pub pay_single : Address → ℤ → ProgramData → Call ProgramData
unfolding client_transfer record_success
pay_single recipient amount program = do
  this ← asks (λ e. e.current_contract_address)
  client_transfer program.token_address this recipient amount
  on_circuit record_success
  time ← now
  remaining ← or_trap (checked_sub program.remaining_balance amount) overflow
  let updated = record program {
    remaining_balance = remaining;
    payout_history = push_back program.payout_history (payout_record recipient amount time);
  }
  store_program updated
  pure updated

unfoldable pub single_payout : Address → ℤ → Call ProgramData
unfolding check_single_payout pay_single check_and_emit_large_payout track emit_aggregate_stats
single_payout recipient amount = do
  start ← now
  program ← check_single_payout recipient amount
  updated ← pay_single recipient amount program
  check_and_emit_large_payout updated recipient amount
  emit (Event.paid updated.program_id recipient amount updated.remaining_balance)
  track sym_payout program.authorized_payout_key start
  emit_aggregate_stats updated
  clear_entered
  pure updated

-- A check of each recipient, that traps.
unfoldable pub check_payable : List Address → Call (Unit {0})
unfolding is_payable
check_payable [] = pure tt
check_payable (a ∷ others) = do
  trap_if (not (← gets (is_payable a))) not_whitelisted
  check_payable others

unfoldable pub check_undisputed : List Address → Call (Unit {0})
unfolding is_dispute_open_for_key
check_undisputed [] = pure tt
check_undisputed (a ∷ others) = do
  trap_if (← gets (is_dispute_open_for_key (of_recipient a))) dispute_in_progress
  check_undisputed others

-- "Calculate total payout amount"
unfoldable pub sum_payouts : ℤ → List ℤ → Call ℤ
sum_payouts total [] = pure total
sum_payouts total (amount ∷ rest) = do
  trap_if (leb_ℤ amount (pos 0)) amount_not_positive
  total' ← or_trap (checked_add total amount) overflow
  sum_payouts total' rest

-- The lengths of the two lists.
unfoldable pub check_lengths : ℕ → ℕ → Call (Unit {0})
check_lengths recipients amounts = do
  trap_if (not (recipients == amounts)) length_mismatch
  trap_if (recipients == 0) empty_batch
  trap_if (ltb max_batch_size recipients) batch_too_large

-- `batch_payout` up to the payout key's authorisation, with the program's record.
unfoldable pub open_batch : Call ProgramData
unfolding enter check_release_allowed open_payout
open_batch = do enter; check_release_allowed; open_payout

-- The recipients, the amounts and the balance, with the total.
unfoldable pub check_payments : List Address → List ℤ → ProgramData → Call ℤ
unfolding check_payable check_lengths check_undisputed sum_payouts check_balance
check_payments recipients amounts program = do
  check_payable recipients
  check_lengths (length recipients) (length amounts)
  check_undisputed recipients
  total ← sum_payouts (pos 0) amounts
  check_balance program total sym_batch_pay
  pure total

-- `batch_payout` up to the transfers, with the program's record and the total.
unfoldable pub check_batch_payout : List Address → List ℤ → Call (ProgramData × ℤ)
unfolding open_batch check_payments
check_batch_payout recipients amounts = do
  program ← open_batch
  total ← check_payments recipients amounts program
  pure (program, total)

-- The loop of the transfers, with the payout history. The lists have the same length, which
-- `check_lengths` has seen to; at different lengths `amounts.get(i).unwrap()` would trap.
unfoldable pub pay_each :
    Address → List Address → List ℤ → List PayoutRecord → Call (List PayoutRecord)
unfolding client_transfer
pay_each token [] [] history = pure history
pay_each token [] (amount ∷ amounts) history = pure history
pay_each token (recipient ∷ recipients) [] history = trap overflow
pay_each token (recipient ∷ recipients) (amount ∷ amounts) history = do
  this ← asks (λ e. e.current_contract_address)
  client_transfer token this recipient amount
  time ← now
  pay_each token recipients amounts (push_back history (payout_record recipient amount time))

-- What `batch_payout` does once the transfers are made.
unfoldable pub settle_batch : ProgramData → ℤ → List PayoutRecord → Call ProgramData
unfolding record_success
settle_batch program total history = do
  on_circuit record_success
  remaining ← or_trap (checked_sub program.remaining_balance total) overflow
  let updated = record program { remaining_balance = remaining; payout_history = history }
  store_program updated
  pure updated

-- The transfers, and the new record of the program.
unfoldable pub pay_batch : List Address → List ℤ → ProgramData → ℤ → Call ProgramData
unfolding pay_each settle_batch
pay_batch recipients amounts program total = do
  history ← pay_each program.token_address recipients amounts program.payout_history
  settle_batch program total history

-- The announcements of large payouts.
unfoldable pub announce_large : Symbol → ℤ → List Address → List ℤ → Call (Unit {0})
announce_large id threshold [] amounts = pure tt
announce_large id threshold (recipient ∷ recipients) [] = pure tt
announce_large id threshold (recipient ∷ recipients) (amount ∷ amounts) = do
  emit_large_payout id recipient amount threshold
  announce_large id threshold recipients amounts

-- The events and counters after the payouts.
unfoldable pub announce_batch : List Address → List ℤ → ProgramData → ℤ → ℕ → Call (Unit {0})
unfolding announce_large track emit_aggregate_stats
announce_batch recipients amounts updated total start = do
  announce_large updated.program_id (quot updated.total_funds (pos 10)) recipients amounts
  emit (Event.batch_paid updated.program_id (length recipients) total updated.remaining_balance)
  track sym_batchpay updated.authorized_payout_key start
  emit_aggregate_stats updated

unfoldable pub batch_payout : List Address → List ℤ → Call ProgramData
unfolding check_batch_payout pay_batch announce_batch
batch_payout recipients amounts = do
  start ← now
  (program, total) ← check_batch_payout recipients amounts
  updated ← pay_batch recipients amounts program total
  announce_batch recipients amounts updated total start
  clear_entered
  pure updated
