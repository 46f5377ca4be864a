-- ===== src/Bounty/Lock.antt =====
-- `lock_funds` of bounty_escrow/contracts/escrow/src/lib.rs.
pub mod Effects
use grainlify_stellar_contra.Base.{
  ℕ, ◌+◌, ◌≤◌, ◌&&◌, ◌||◌, [], ◌∷◌, leb, ◌==◌, if◌then◌else◌, is_some, push_back, insert,
}
use grainlify_stellar_contra.Base.Int.{ℤ, ◌==ℤ◌, ◌+ℤ◌, ◌-ℤ◌}
use grainlify_stellar_contra.Base.Host.{
  Address, ◌>>=◌, ◌>>◌, gets, asks, modify, fail_if, require_auth,
}
use grainlify_stellar_contra.Bounty.Guards.{
  Call, now, emit, get_admin, check_circuit, execute_token_transfer, check_amount_policy,
}
use grainlify_stellar_contra.Bounty.Counters.{change_counters, increment_locked}
use grainlify_stellar_contra.Bounty.Analytics.{init_bounty_analytics}
use grainlify_stellar_contra.Bounty.AntiAbuse.{check_rate_limit}
use grainlify_stellar_contra.Bounty.State.{
  State, bounty_exists, invalid_deadline, locked, Operation, StateName, Activity, Event,
}

-- The writes that a new escrow makes in `lock_funds` and in each round of `batch_lock_funds`: the
-- record, the two indexes, its analytics and the counters.
unfoldable pub store_escrow : ℕ → Address → ℤ → ℕ → ℕ → State → State
unfolding init_bounty_analytics
store_escrow bounty_id depositor amount deadline timestamp s =
    change_counters (increment_locked amount) (
      init_bounty_analytics bounty_id amount timestamp (record s {
        escrows =
            insert bounty_id
              (record {
                depositor = depositor;
                amount = amount;
                remaining_amount = amount;
                status = locked;
                deadline = deadline;
                refund_history = [];
              })
              s.escrows;
        escrow_index = push_back s.escrow_index bounty_id;
        depositor_index = λ a.
            if a == depositor
            then push_back (s.depositor_index a) bounty_id
            else s.depositor_index a;
      }))

unfoldable pub lock_funds : Address → ℕ → ℤ → ℕ → Call (Unit {0})
unfolding store_escrow
lock_funds depositor bounty_id amount deadline = do
  check_rate_limit depositor
  check_circuit
  require_auth depositor
  get_admin
  fail_if (is_some (← gets (λ s. s.escrows bounty_id))) bounty_exists
  timestamp ← now
  fail_if (leb deadline timestamp) invalid_deadline
  check_amount_policy amount (← gets (λ s. s.amount_policy))
  this ← asks (λ e. e.current_contract_address)
  execute_token_transfer depositor this amount Operation.lock
  modify (store_escrow bounty_id depositor amount deadline timestamp)
  emit
      (Event.state_transitioned bounty_id StateName.new StateName.locked amount depositor timestamp)
  emit (Event.bounty_activity bounty_id Activity.created amount timestamp)
  emit (Event.funds_locked bounty_id amount depositor deadline)
