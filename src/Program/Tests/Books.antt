-- ===== src/Program/Tests/Books.antt =====
-- Instances of the theorems on the books of the program escrow.
use grainlify_stellar_contra.Program.Schedules.Rounds.{history_ids, released_ids, occurrences}
use grainlify_stellar_contra.Program.Payout.Single.{CanPay, CanReceive}
use grainlify_stellar_contra.Base.{ℕ, ◌≡◌, ◌≤◌, ◌<◌, refl, some, List, [], ◌∷◌, arith, All, length}
use grainlify_stellar_contra.Base.Int.{
  pos, ◌≤ℤ◌, ◌<ℤ◌, ◌-ℤ◌, ◌+ℤ◌, ◌*ℤ◌, checked_add, checked_sub, checked_mul, quot,
}
use grainlify_stellar_contra.Program.State.{ProgramData, PayoutRecord, empty_state}
use grainlify_stellar_contra.Program.Ledger.{view, pay_all, payments}
use grainlify_stellar_contra.Program.Disputes.{find_schedule}
use grainlify_stellar_contra.Program.Steps.{
  At, Steps, core, initialise, lock, single, create, trigger, stay, next,
}
use grainlify_stellar_contra.Program.Schedules.Trigger.{Triggers, trigger_program_releases-Triggers}
use grainlify_stellar_contra.Program.Once.{releases_once}
use grainlify_stellar_contra.Program.Solvency.{held, program_solvent}
use grainlify_stellar_contra.Program.Refinement.{batch_payout-refines}
use grainlify_stellar_contra.Program.Safety.{batch_payout-guarded, manual_release_overdraws}
use grainlify_stellar_contra.Program.Payout.{max_batch_size}
use grainlify_stellar_contra.Program.Payout.Checks.{sum_of}
use grainlify_stellar_contra.Program.Tests.{
  host, created, funded, paid, paid_batch, scheduled, triggered, overscheduled, overdrawn, data_of,
  created_runs, funded_runs, paid_runs, paid_batch_runs, scheduled_runs, triggered_runs,
  overdrawn_runs,
}

host-At : (time : ℕ) → At 99 (host time)
host-At time = record { located = refl; unsigned = refl }

to_funded : Steps 99 empty_state funded
to_funded =
    next
      (next stay
        (core (initialise (host 1000) 42 1 7 (data_of created) (host-At 1000) created_runs)))
      (core (lock (host 1100) 5 (pos 100) (data_of funded) (host-At 1100) funded_runs))

to_paid : Steps 99 empty_state paid
to_paid =
    next to_funded (core (single (host 1200) 8 (pos 30) (data_of paid) (host-At 1200) paid_runs))

to_triggered : Steps 99 empty_state triggered
to_triggered =
    next
      (next to_funded (core (create (host 1200) (pos 25) 1500 8 _ (host-At 1200) scheduled_runs)))
      (core (trigger (host 2000) 1 (host-At 2000) triggered_runs))

program_solvent_example :
    (data_of paid).remaining_balance ≤ℤ held (data_of paid).token_address 99 paid.transfers
unfolding paid funded created checked_add ◌+ℤ◌ checked_sub ◌-ℤ◌ checked_mul ◌*ℤ◌ quot
program_solvent_example = program_solvent 99 paid to_paid refl

releases_once_example :
    (occurrences 1 (history_ids triggered.release_history) ≤ 1)
    × (occurrences 1 (history_ids triggered.release_history)
        ≡ occurrences 1 (released_ids triggered.schedules))
releases_once_example = releases_once 99 triggered 1 to_triggered

trigger_program_releases-Triggers_example :
    (d : ProgramData) × (d' : ProgramData) × (ps : List PayoutRecord) × Triggers
      (host 2000)
      scheduled
      triggered
      1
      d
      d'
      ps
trigger_program_releases-Triggers_example =
    trigger_program_releases-Triggers (host 2000) scheduled triggered triggered_runs

batch_payout-refines_example :
    (view (data_of paid_batch) paid_batch
      ≡ pay_all 7 99
          (payments 1200 (8 ∷ 9 ∷ []) (pos 20 ∷ pos 10 ∷ []))
          (view (data_of funded) funded))
    × (length {A = ℕ} (8 ∷ 9 ∷ []) ≡ length (pos 20 ∷ pos 10 ∷ []))
unfolding paid_batch funded created checked_add ◌+ℤ◌ checked_sub ◌-ℤ◌ checked_mul ◌*ℤ◌ quot
batch_payout-refines_example =
    batch_payout-refines (host 1200) funded paid_batch (8 ∷ 9 ∷ []) (pos 20 ∷ pos 10 ∷ []) refl
      paid_batch_runs

batch_payout-guarded_example :
    CanPay (host 1200) funded (data_of funded)
    × All (CanReceive funded) (8 ∷ 9 ∷ [])
    × All (λ a. pos 0 <ℤ a) (pos 20 ∷ pos 10 ∷ [])
    × (sum_of (pos 20 ∷ pos 10 ∷ []) ≤ℤ (data_of funded).remaining_balance)
    × (0 < length {A = ℕ} (8 ∷ 9 ∷ []))
    × (length {A = ℕ} (8 ∷ 9 ∷ []) ≤ max_batch_size)
unfolding funded created checked_add ◌+ℤ◌
batch_payout-guarded_example =
    batch_payout-guarded (host 1200) funded paid_batch (8 ∷ 9 ∷ []) (pos 20 ∷ pos 10 ∷ []) refl
      paid_batch_runs

manual_release_overdraws_example :
    (overdrawn.program_data
      ≡ some (record (data_of overscheduled) {
        remaining_balance = (data_of overscheduled).remaining_balance -ℤ pos 500;
      }))
    × (((data_of overscheduled).remaining_balance -ℤ pos 500) <ℤ pos 0)
unfolding overdrawn overscheduled funded created checked_add ◌+ℤ◌ find_schedule
manual_release_overdraws_example =
    manual_release_overdraws (host 1300) overscheduled overdrawn 1 refl refl (omega arith)
      overdrawn_runs
