-- ===== src/Program/Tests.antt =====
-- The program escrow at concrete inputs: the runs, and the states that they reach.
mod Books
mod Behaviour
use grainlify_stellar_contra.Base.{
  ℕ, ◌≡◌, ◌≤◌, ◌<◌, refl, true, false, not, some, none, [], ◌∷◌, ◌==◌, ◌++◌,
}
use grainlify_stellar_contra.Base.Int.{
  ℤ, pos, ◌≤ℤ◌, ◌<ℤ◌, ◌-ℤ◌, ◌+ℤ◌, checked_add, checked_sub, checked_mul, ◌*ℤ◌, quot,
}
use grainlify_stellar_contra.Base.Host.{Env, ok, after}
use grainlify_stellar_contra.Program.State.{State, ProgramData, of_recipient, empty_state}
use grainlify_stellar_contra.Program.Monitoring.{Monitor, initial_monitor, track_operation}
use grainlify_stellar_contra.Program.Admin.{init_program, initialize_contract}
use grainlify_stellar_contra.Program.Lock.{lock_program_funds}
use grainlify_stellar_contra.Program.Payout.{single_payout, batch_payout}
use grainlify_stellar_contra.Program.Schedules.{
  create_program_release_schedule, trigger_program_releases, release_program_schedule_manual,
}
use grainlify_stellar_contra.Program.Disputes.{open_dispute_at}

-- Everybody but the contract itself signs, the token accepts everything, and the contract stands at
-- address 99.
abbrev host : ℕ → Env
host time = record {
  timestamp = time;
  authorized = λ a. not (a == 99);
  current_contract_address = 99;
  balance = λ _ _. pos 0;
  balance_after = λ _ _ _. pos 1000000;
  transfer_ok = λ _ _. true;
  gov_ver = λ _. 1;
  gov_version_numeric = λ _. 10000;
  gov_is_upg_ok = λ _ _. true;
  gov_is_vetoed = λ _ _. false;
  gov_execute_proposal = λ _ _. true;
}

-- Program 42 with the payout key 1 and the token 7.
abbrev created : State
unfolding init_program
created = after empty_state (init_program 42 1 7 (host 1000) empty_state)

-- Address 5 locks 100.
abbrev funded : State
unfolding lock_program_funds
funded = after created (lock_program_funds 5 (pos 100) (host 1100) created)

-- 30 go to address 8.
abbrev paid : State
unfolding single_payout
paid = after funded (single_payout 8 (pos 30) (host 1200) funded)

-- 20 and 10 go to addresses 8 and 9.
abbrev paid_batch : State
unfolding batch_payout
paid_batch = after funded (batch_payout (8 ∷ 9 ∷ []) (pos 20 ∷ pos 10 ∷ []) (host 1200) funded)

-- A schedule of 25 for address 8, from time 1500 on.
abbrev scheduled : State
unfolding create_program_release_schedule
scheduled = after funded (create_program_release_schedule (pos 25) 1500 8 (host 1200) funded)

-- It is released.
abbrev triggered : State
unfolding trigger_program_releases
triggered = after scheduled (trigger_program_releases (host 2000) scheduled)

-- A schedule of 500, more than was locked, and its release.
abbrev overscheduled : State
unfolding create_program_release_schedule
overscheduled = after funded (create_program_release_schedule (pos 500) 1500 8 (host 1200) funded)

abbrev overdrawn : State
unfolding release_program_schedule_manual
overdrawn = after overscheduled (release_program_schedule_manual 1 (host 1300) overscheduled)

-- Admin 3, who disputes recipient 8.
abbrev administered : State
unfolding initialize_contract
administered = after created (initialize_contract 3 (host 1000) created)

abbrev disputed : State
unfolding open_dispute_at
disputed = after administered (open_dispute_at (of_recipient 8) 5 (host 1300) administered)

-- The record that a state holds; the second is never met.
abbrev data_of : State → ProgramData
data_of s = elim s.program_data [
  | some d ↦ d
  | none ↦ record {
    program_id = 0;
    total_funds = pos 0;
    remaining_balance = pos 0;
    authorized_payout_key = 0;
    payout_history = [];
    token_address = 0;
  }
]

created_runs : init_program 42 1 7 (host 1000) empty_state ≡ ok (data_of created, created)
unfolding created checked_add ◌+ℤ◌ checked_sub ◌-ℤ◌ checked_mul ◌*ℤ◌ quot
created_runs = refl

funded_runs : lock_program_funds 5 (pos 100) (host 1100) created ≡ ok (data_of funded, funded)
unfolding funded created checked_add ◌+ℤ◌ checked_sub ◌-ℤ◌ checked_mul ◌*ℤ◌ quot
funded_runs = refl

paid_runs : single_payout 8 (pos 30) (host 1200) funded ≡ ok (data_of paid, paid)
unfolding paid funded created checked_add ◌+ℤ◌ checked_sub ◌-ℤ◌ checked_mul ◌*ℤ◌ quot
paid_runs = refl

paid_batch_runs :
    batch_payout (8 ∷ 9 ∷ []) (pos 20 ∷ pos 10 ∷ []) (host 1200) funded
    ≡ ok (data_of paid_batch, paid_batch)
unfolding paid_batch funded created checked_add ◌+ℤ◌ checked_sub ◌-ℤ◌ checked_mul ◌*ℤ◌ quot
paid_batch_runs = refl

triggered_runs : trigger_program_releases (host 2000) scheduled ≡ ok (1, triggered)
unfolding triggered scheduled funded created checked_add ◌+ℤ◌ checked_sub ◌-ℤ◌ checked_mul ◌*ℤ◌ quot
triggered_runs = refl

overdrawn_runs : release_program_schedule_manual 1 (host 1300) overscheduled ≡ ok (tt, overdrawn)
unfolding overdrawn overscheduled funded created checked_add ◌+ℤ◌ checked_sub ◌-ℤ◌ checked_mul ◌*ℤ◌
    quot
overdrawn_runs = refl

disputed_runs : open_dispute_at (of_recipient 8) 5 (host 1300) administered ≡ ok (tt, disputed)
unfolding disputed administered created checked_add ◌+ℤ◌ checked_sub ◌-ℤ◌ checked_mul ◌*ℤ◌ quot
disputed_runs = refl

scheduled_runs :
    create_program_release_schedule (pos 25) 1500 8 (host 1200) funded
    ≡ ok (
      record {
        schedule_id = 1;
        recipient = 8;
        amount = pos 25;
        release_timestamp = 1500;
        released = false;
        released_at = none;
        released_by = none;
      },
      scheduled,
    )
unfolding scheduled funded created checked_add ◌+ℤ◌
scheduled_runs = refl

-- One failed call of address 5 is counted.
abbrev tracked : Monitor
unfolding track_operation
tracked = after initial_monitor (track_operation 1 5 false (host 1000) initial_monitor)

tracked_runs : track_operation 1 5 false (host 1000) initial_monitor ≡ ok (tt, tracked)
unfolding tracked
tracked_runs = refl
