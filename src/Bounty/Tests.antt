-- ===== src/Bounty/Tests.antt =====
-- The escrow contract at concrete inputs: the runs, and the states that they reach.
mod Accounts
mod Safety
mod Views
use grainlify_stellar_contra.Base.{ℕ, ◌≡◌, ◌≤◌, refl, true, false, some, none, List, [], ◌∷◌, arith}
use grainlify_stellar_contra.Base.Int.{pos, ◌+ℤ◌, ◌-ℤ◌, ◌<ℤ◌, checked_add, checked_sub}
use grainlify_stellar_contra.Base.Host.{Env, ok, after}
use grainlify_stellar_contra.Bounty.Circuit.{initial_circuit}
use grainlify_stellar_contra.Bounty.State.{
  State, Escrow, full, locked, LockFundsItem, ReleaseFundsItem,
}
use grainlify_stellar_contra.Bounty.Counters.{
  zero_stats, increment_locked, transition_locked_to_released, partial_release_from_locked,
  finalize_partial_release_to_released,
}
use grainlify_stellar_contra.Bounty.AntiAbuse.{default_abuse_config, check_rate_limit}
use grainlify_stellar_contra.Bounty.Analytics.{
  update_analytics_on_release, update_analytics_on_refund, init_bounty_analytics,
}
use grainlify_stellar_contra.Bounty.Guards.{
  check_circuit, client_transfer, execute_token_transfer, check_governance_requirements,
  check_release_approval, check_amount_policy, validate_unique_bounty_ids,
}
use grainlify_stellar_contra.Bounty.Admin.{set_emergency_pause}
use grainlify_stellar_contra.Bounty.Accounts.{IsIndexed}
use grainlify_stellar_contra.Bounty.Lock.{lock_funds, store_escrow}
use grainlify_stellar_contra.Bounty.Release.{
  release_funds, partial_release, check_release, check_partial_release,
}
use grainlify_stellar_contra.Bounty.Claim.{authorize_claim, claim, check_claim}
use grainlify_stellar_contra.Bounty.Refund.{
  approve_refund, refund, check_refund, pay_refund, sweep_expired_refunds, sweep_one, sweep_loop,
  open_sweep, enter_sweep, check_sweep, check_sweep_item, count_refund,
}
use grainlify_stellar_contra.Bounty.Refund.Solvency.{NoSelfDeposit}
use grainlify_stellar_contra.Bounty.Batch.{
  batch_lock_funds, batch_release_funds, check_batch_lock, check_batch_release, lock_items,
  lock_item, release_item, release_items, sum_amounts, enter_batch_lock, enter_batch_release,
  require_depositors, check_lock_items, check_release_items, check_lock_item, check_release_item,
}
use grainlify_stellar_contra.Bounty.Batch.Solvency.{batch_lock_funds-surplus}
use grainlify_stellar_contra.Bounty.Solvency.{lock_funds-surplus, partial_release-surplus}
use grainlify_stellar_contra.Base.{◌⊎◌}

-- Everybody signs, the token accepts everything, and the contract stands at address 99.
abbrev host : ℕ → Env
host time = record {
  timestamp = time;
  authorized = λ _. true;
  current_contract_address = 99;
  balance = λ _ _. pos 0;
  balance_after = λ _ _ _. pos 1000000;
  transfer_ok = λ _ _. true;
  gov_ver = λ _. 1;
  gov_version_numeric = λ _. 10000;
  gov_is_upg_ok = λ _ _. true;
  gov_is_vetoed = λ _ _. false;
  gov_execute_proposal = λ _ _. true;
}

-- After `init` with admin 1 and token 7, and with a claim window of 100 seconds.
abbrev fresh : State
fresh = record {
  admin = some 1;
  token = some 7;
  escrows = λ _. none;
  escrow_index = [];
  depositor_index = λ _. [];
  fee_config = none;
  refund_approvals = λ _. none;
  reentrancy_guard = false;
  multisig_config = record {
    threshold_amount = pos 1000000;
    signers = [];
    required_signatures = 0;
  };
  release_approvals = λ _. none;
  pending_claims = λ _. none;
  claim_window = 100;
  pause_flags = record {
    global_paused = false;
    lock_paused = false;
    release_paused = false;
    refund_paused = false;
  };
  amount_policy = none;
  counters = zero_stats;
  analytics = λ _. none;
  abuse_config = default_abuse_config;
  abuse_states = λ _. none;
  abuse_whitelist = λ _. false;
  abuse_admin = none;
  governance_contract = none;
  min_governance_version = 0;
  circuit = initial_circuit;
  transfers = [];
  events = [];
}

fresh-IsIndexed : IsIndexed fresh
fresh-IsIndexed = record { distinct = tt; listed = λ b. refl }

-- Depositor 5 locks 100 under bounty 3 until time 2000.
abbrev one_locked : State
unfolding lock_funds check_circuit check_amount_policy execute_token_transfer check_rate_limit
    increment_locked
one_locked = after fresh (lock_funds 5 3 (pos 100) 2000 (host 1000) fresh)

one_locked_runs : lock_funds 5 3 (pos 100) 2000 (host 1000) fresh ≡ ok (tt, one_locked)
unfolding one_locked check_release_approval checked_sub ◌-ℤ◌ checked_add ◌+ℤ◌ check_sweep_item
    store_escrow
one_locked_runs = refl

-- Of these, 40 go to contributor 8.
abbrev part_paid : State
unfolding partial_release check_partial_release update_analytics_on_release
    partial_release_from_locked finalize_partial_release_to_released check_circuit
    check_governance_requirements execute_token_transfer
part_paid = after one_locked (partial_release 3 8 (pos 40) (host 1100) one_locked)

part_paid_runs : partial_release 3 8 (pos 40) (host 1100) one_locked ≡ ok (tt, part_paid)
unfolding part_paid one_locked check_release_approval checked_sub ◌-ℤ◌ checked_add ◌+ℤ◌
    check_sweep_item store_escrow
part_paid_runs = refl

-- And the release after that.
abbrev over_paid : State
unfolding release_funds check_release check_release_approval update_analytics_on_release
    transition_locked_to_released check_circuit check_governance_requirements execute_token_transfer
over_paid = after part_paid (release_funds 3 8 (host 1200) part_paid)

over_paid_runs : release_funds 3 8 (host 1200) part_paid ≡ ok (tt, over_paid)
unfolding over_paid part_paid one_locked check_release_approval checked_sub ◌-ℤ◌ checked_add ◌+ℤ◌
    check_sweep_item store_escrow
over_paid_runs = refl

-- A release with no payout before it.
abbrev all_paid : State
unfolding release_funds check_release check_release_approval update_analytics_on_release
    transition_locked_to_released check_circuit check_governance_requirements execute_token_transfer
all_paid = after one_locked (release_funds 3 8 (host 1100) one_locked)

all_paid_runs : release_funds 3 8 (host 1100) one_locked ≡ ok (tt, all_paid)
unfolding all_paid one_locked check_release_approval checked_sub ◌-ℤ◌ checked_add ◌+ℤ◌
    check_sweep_item store_escrow
all_paid_runs = refl

-- The admin authorises a claim by 8 instead.
abbrev authorised : State
unfolding authorize_claim
authorised = after one_locked (authorize_claim 3 8 (host 1100) one_locked)

authorised_runs : authorize_claim 3 8 (host 1100) one_locked ≡ ok (tt, authorised)
unfolding authorised one_locked check_release_approval checked_sub ◌-ℤ◌ checked_add ◌+ℤ◌
    check_sweep_item store_escrow
authorised_runs = refl

-- And 8 makes it.
abbrev claimed_state : State
unfolding claim check_claim transition_locked_to_released update_analytics_on_release
    execute_token_transfer
claimed_state = after authorised (claim 3 (host 1150) authorised)

claimed_state_runs : claim 3 (host 1150) authorised ≡ ok (tt, claimed_state)
unfolding claimed_state authorised one_locked check_release_approval checked_sub ◌-ℤ◌ checked_add
    ◌+ℤ◌ check_sweep_item store_escrow
claimed_state_runs = refl

-- The admin approves a full refund of 40 to 6.
abbrev approved : State
unfolding approve_refund
approved = after one_locked (approve_refund 3 (pos 40) 6 full (host 1100) one_locked)

approved_runs : approve_refund 3 (pos 40) 6 full (host 1100) one_locked ≡ ok (tt, approved)
unfolding approved one_locked check_release_approval checked_sub ◌-ℤ◌ checked_add ◌+ℤ◌
    check_sweep_item store_escrow
approved_runs = refl

-- And it is made, over 60 that stay.
abbrev stranded : State
unfolding refund check_refund pay_refund count_refund update_analytics_on_refund client_transfer
    check_circuit check_governance_requirements execute_token_transfer
stranded = after approved (refund 3 (host 1200) approved)

stranded_runs : refund 3 (host 1200) approved ≡ ok (tt, stranded)
unfolding stranded approved one_locked check_release_approval checked_sub ◌-ℤ◌ checked_add ◌+ℤ◌
    check_sweep_item store_escrow
stranded_runs = refl

-- The deadline passes, and the bounty is swept.
abbrev swept : State
unfolding sweep_expired_refunds open_sweep enter_sweep check_sweep sweep_loop sweep_one
    client_transfer validate_unique_bounty_ids update_analytics_on_refund check_circuit
    check_governance_requirements execute_token_transfer
swept = after one_locked (sweep_expired_refunds (3 ∷ []) (host 3000) one_locked)

swept_runs : sweep_expired_refunds (3 ∷ []) (host 3000) one_locked ≡ ok (1, swept)
unfolding swept one_locked check_release_approval checked_sub ◌-ℤ◌ checked_add ◌+ℤ◌ check_sweep_item
    store_escrow
swept_runs = refl

abbrev two_locks : List LockFundsItem
two_locks =
    record { bounty_id = 3; depositor = 5; amount = pos 100; deadline = 2000 }
    ∷ record { bounty_id = 4; depositor = 6; amount = pos 50; deadline = 2000 }
    ∷ []

abbrev two_releases : List ReleaseFundsItem
two_releases =
    record { bounty_id = 3; contributor = 8 } ∷ record { bounty_id = 4; contributor = 9 } ∷ []

-- Two bounties are locked in a batch.
abbrev two_locked : State
unfolding batch_lock_funds check_batch_lock enter_batch_lock require_depositors check_lock_items
    check_lock_item lock_items lock_item sum_amounts check_amount_policy validate_unique_bounty_ids
    increment_locked init_bounty_analytics client_transfer check_circuit
    check_governance_requirements execute_token_transfer
two_locked = after fresh (batch_lock_funds two_locks (host 1000) fresh)

two_locked_runs : batch_lock_funds two_locks (host 1000) fresh ≡ ok (2, two_locked)
unfolding two_locked check_release_approval checked_sub ◌-ℤ◌ checked_add ◌+ℤ◌ check_sweep_item
    store_escrow
two_locked_runs = refl

-- And released in another.
abbrev two_paid : State
unfolding batch_release_funds check_batch_release enter_batch_release check_release_items
    check_release_item release_items release_item validate_unique_bounty_ids client_transfer
    update_analytics_on_release transition_locked_to_released check_circuit
    check_governance_requirements execute_token_transfer
two_paid = after two_locked (batch_release_funds two_releases (host 1100) two_locked)

two_paid_runs : batch_release_funds two_releases (host 1100) two_locked ≡ ok (2, two_paid)
unfolding two_paid two_locked check_release_approval checked_sub ◌-ℤ◌ checked_add ◌+ℤ◌
    check_sweep_item store_escrow
two_paid_runs = refl

-- What bounty 3 holds at first.
abbrev escrow_three : Escrow
escrow_three = record {
  depositor = 5;
  amount = pos 100;
  remaining_amount = pos 100;
  status = locked;
  deadline = 2000;
  refund_history = [];
}

one_locked-IsIndexed : IsIndexed one_locked
one_locked-IsIndexed =
    (lock_funds-surplus (host 1000) fresh one_locked 5 3 (pos 100) 2000 fresh-IsIndexed
      (omega arith) one_locked_runs).0

part_paid-IsIndexed : IsIndexed part_paid
unfolding part_paid one_locked check_release_approval checked_sub ◌-ℤ◌ checked_add ◌+ℤ◌
part_paid-IsIndexed =
    (partial_release-surplus (host 1100) one_locked part_paid 3 8 (pos 40) one_locked-IsIndexed
      (omega arith) refl part_paid_runs).0

authorised-IsIndexed : IsIndexed authorised
unfolding authorised one_locked
authorised-IsIndexed = record {
  distinct = one_locked-IsIndexed.distinct;
  listed = one_locked-IsIndexed.listed;
}

approved-IsIndexed : IsIndexed approved
unfolding approved one_locked
approved-IsIndexed = record {
  distinct = one_locked-IsIndexed.distinct;
  listed = one_locked-IsIndexed.listed;
}

one_locked-NoSelfDeposit : NoSelfDeposit (host 3000) one_locked
unfolding one_locked
one_locked-NoSelfDeposit b x h = ground arith

two_locked-IsIndexed : IsIndexed two_locked
unfolding two_locked check_release_approval checked_sub ◌-ℤ◌ checked_add ◌+ℤ◌
two_locked-IsIndexed =
    (batch_lock_funds-surplus (host 1000) fresh two_locked two_locks fresh-IsIndexed
      (omega arith, (omega arith, tt)) two_locked_runs).0

-- Everything is paused.
abbrev paused : State
unfolding one_locked
paused = record one_locked {
  pause_flags = record {
    global_paused = true;
    lock_paused = false;
    release_paused = false;
    refund_paused = false;
  };
}

-- The admin stops everything.
abbrev halted : State
unfolding set_emergency_pause check_governance_requirements
halted = after one_locked (set_emergency_pause true (host 1050) one_locked)

halted_runs : set_emergency_pause true (host 1050) one_locked ≡ ok (tt, halted)
unfolding halted one_locked
halted_runs = refl

-- Depositor 5 passes the rate limit for the first time.
abbrev limited : State
unfolding check_rate_limit
limited = after fresh (check_rate_limit 5 (host 1000) fresh)

limited_runs : check_rate_limit 5 (host 1000) fresh ≡ ok (tt, limited)
unfolding limited
limited_runs = refl
