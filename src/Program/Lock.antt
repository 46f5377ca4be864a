-- ===== src/Program/Lock.antt =====
-- `lock_program_funds` of program-escrow/src/lib.rs.
pub mod Effects
use grainlify_stellar_contra.Base.{Option, none, some, ◌∷◌}
use grainlify_stellar_contra.Base.Int.{ℤ, pos, ltb_ℤ, leb_ℤ, checked_add}
use grainlify_stellar_contra.Base.Host.{
  Address, ◌>>=◌, ◌>>◌, pure, gets, asks, trap_if, or_trap, require_auth, overflow, funds_paused,
  amount_not_positive, lock_cap_exceeded, total_cap_exceeded, balance_below_remaining,
}
use grainlify_stellar_contra.Program.State.{ProgramData, Operation, Event}
use grainlify_stellar_contra.Program.Guards.{
  Call, now, emit, track, sym_lock, load_program, store_program, check_paused, client_transfer,
}
use grainlify_stellar_contra.Program.RateLimit.{check_rate_limit}

-- "Per-lock cap check"
unfoldable pub check_single_cap : ℤ → Option ℤ → Call (Unit {0})
check_single_cap amount none = pure tt
check_single_cap amount (some max_single) = trap_if (ltb_ℤ max_single amount) lock_cap_exceeded

-- "Total-funds cap check"
unfoldable pub check_total_cap : ℤ → ℤ → Option ℤ → Call (Unit {0})
check_total_cap total amount none = pure tt
check_total_cap total amount (some max_total) = do
  new_total ← or_trap (checked_add total amount) overflow
  trap_if (ltb_ℤ max_total new_total) total_cap_exceeded

-- The authorisation, the pause flag and the rate limit.
unfoldable pub check_caller : Address → Call (Unit {0})
unfolding check_paused check_rate_limit
check_caller from = do
  require_auth from
  flags ← gets (λ s. s.pause_flags)
  trap_if (check_paused flags Operation.lock) funds_paused
  check_rate_limit from

-- The amount and the caps, with the program's record.
unfoldable pub check_amount : ℤ → Call ProgramData
unfolding check_single_cap check_total_cap
check_amount amount = do
  trap_if (leb_ℤ amount (pos 0)) amount_not_positive
  program ← load_program
  caps ← gets (λ s. s.fund_cap_config)
  check_single_cap amount caps.max_single_lock
  check_total_cap program.total_funds amount caps.max_total_funds
  pure program

-- `lock_program_funds` up to the transfer.
unfoldable pub check_lock : Address → ℤ → Call ProgramData
unfolding check_caller check_amount
check_lock from amount = do check_caller from; check_amount amount

-- The transfer, the new balances and their check against the token's balance.
unfoldable pub take_funds : Address → ℤ → ProgramData → Call ProgramData
unfolding client_transfer
take_funds from amount program = do
  this ← asks (λ e. e.current_contract_address)
  client_transfer program.token_address from this amount
  total ← or_trap (checked_add program.total_funds amount) overflow
  remaining ← or_trap (checked_add program.remaining_balance amount) overflow
  made ← gets (λ s. s.transfers)
  balance ← asks (λ e. e.balance_after made program.token_address this)
  trap_if (ltb_ℤ balance remaining) balance_below_remaining
  let updated = record program { total_funds = total; remaining_balance = remaining }
  store_program updated
  emit (Event.funds_locked program.program_id amount remaining)
  pure updated

unfoldable pub lock_program_funds : Address → ℤ → Call ProgramData
unfolding check_lock take_funds track
lock_program_funds from amount = do
  start ← now
  program ← check_lock from amount
  updated ← take_funds from amount program
  track sym_lock from start
  pure updated
