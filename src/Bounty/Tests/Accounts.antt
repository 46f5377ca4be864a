-- ===== src/Bounty/Tests/Accounts.antt =====
-- The theorems on what the escrow contract holds, at states that the runs reach.
use grainlify_stellar_contra.Base.{ℕ, ◌≡◌, refl, [], ◌∷◌, arith, All, length}
use grainlify_stellar_contra.Base.Int.{pos, ◌+ℤ◌, ◌-ℤ◌, ◌<ℤ◌, checked_add, checked_sub}
use grainlify_stellar_contra.Bounty.Guards.{check_release_approval}
use grainlify_stellar_contra.Bounty.Accounts.{surplus, IsIndexed}
use grainlify_stellar_contra.Bounty.Refund.Solvency.{CanSweep, sweep-surplus}
use grainlify_stellar_contra.Bounty.Batch.Solvency.{
  overpaid, batch_lock_funds-surplus, batch_release_funds-surplus,
}
use grainlify_stellar_contra.Bounty.Solvency.{
  lock_funds-surplus, partial_release-surplus, refund-surplus, release_funds_overpays,
  claim-surplus,
}
use grainlify_stellar_contra.Bounty.Tests.{
  host, fresh, fresh-IsIndexed, one_locked, one_locked_runs, part_paid, part_paid_runs, over_paid,
  over_paid_runs, authorised, claimed_state, claimed_state_runs, approved, stranded, stranded_runs,
  swept, swept_runs, two_locks, two_releases, two_locked, two_locked_runs, two_paid, two_paid_runs,
  one_locked-IsIndexed, part_paid-IsIndexed, authorised-IsIndexed, approved-IsIndexed,
  one_locked-NoSelfDeposit, two_locked-IsIndexed,
}
use grainlify_stellar_contra.Bounty.Solvency.{authorized_claim-surplus}
use grainlify_stellar_contra.Bounty.Tests.{authorised_runs, one_locked}

lock_funds-surplus_example :
    IsIndexed one_locked × (surplus (host 1000) one_locked ≡ surplus (host 1000) fresh)
lock_funds-surplus_example =
    lock_funds-surplus (host 1000) fresh one_locked 5 3 (pos 100) 2000 fresh-IsIndexed (omega arith)
      one_locked_runs

partial_release-surplus_example :
    IsIndexed part_paid × (surplus (host 1100) part_paid ≡ surplus (host 1100) one_locked)
unfolding part_paid one_locked check_release_approval checked_sub ◌-ℤ◌ checked_add ◌+ℤ◌
partial_release-surplus_example =
    partial_release-surplus (host 1100) one_locked part_paid 3 8 (pos 40) one_locked-IsIndexed
      (omega arith) refl part_paid_runs

release_funds_overpays_example : surplus (host 1200) over_paid <ℤ surplus (host 1200) part_paid
unfolding over_paid part_paid one_locked check_release_approval checked_sub ◌-ℤ◌ checked_add ◌+ℤ◌
release_funds_overpays_example =
    release_funds_overpays (host 1200) part_paid over_paid 3 8 part_paid-IsIndexed (omega arith)
      refl (omega arith) over_paid_runs

claim-surplus_example :
    IsIndexed claimed_state
    × (surplus (host 1150) claimed_state +ℤ pos 100 ≡ surplus (host 1150) authorised +ℤ pos 100)
unfolding claimed_state authorised one_locked check_release_approval checked_sub ◌-ℤ◌ checked_add
    ◌+ℤ◌
claim-surplus_example =
    claim-surplus (host 1150) authorised claimed_state 3 authorised-IsIndexed (omega arith) refl
      refl claimed_state_runs

refund-surplus_example :
    IsIndexed stranded × (surplus (host 1200) stranded ≡ surplus (host 1200) approved)
unfolding stranded approved one_locked check_release_approval checked_sub ◌-ℤ◌ checked_add ◌+ℤ◌
refund-surplus_example =
    refund-surplus (host 1200) approved stranded 3 approved-IsIndexed (omega arith) refl
      stranded_runs

sweep-surplus_example :
    IsIndexed swept
    × (surplus (host 3000) swept ≡ surplus (host 3000) one_locked)
    × (1 ≡ length {A = ℕ} (3 ∷ []))
    × All (CanSweep (host 3000) one_locked) (3 ∷ [])
unfolding swept one_locked check_release_approval checked_sub ◌-ℤ◌ checked_add ◌+ℤ◌
sweep-surplus_example =
    sweep-surplus (host 3000) one_locked swept (3 ∷ []) one_locked-IsIndexed
      one_locked-NoSelfDeposit swept_runs

batch_lock_funds-surplus_example :
    IsIndexed two_locked
    × (surplus (host 1000) two_locked ≡ surplus (host 1000) fresh)
    × (2 ≡ length two_locks)
unfolding two_locked check_release_approval checked_sub ◌-ℤ◌ checked_add ◌+ℤ◌
batch_lock_funds-surplus_example =
    batch_lock_funds-surplus (host 1000) fresh two_locked two_locks fresh-IsIndexed
      (omega arith, (omega arith, tt)) two_locked_runs

batch_release_funds-surplus_example :
    IsIndexed two_paid
    × (surplus (host 1100) two_paid +ℤ overpaid two_locked.escrows two_releases
        ≡ surplus (host 1100) two_locked)
unfolding two_paid two_locked check_release_approval checked_sub ◌-ℤ◌ checked_add ◌+ℤ◌
batch_release_funds-surplus_example =
    batch_release_funds-surplus (host 1100) two_locked two_paid two_releases two_locked-IsIndexed
      (omega arith, (omega arith, tt)) two_paid_runs

authorized_claim-surplus_example :
    surplus (host 1150) claimed_state ≡ surplus (host 1150) authorised
authorized_claim-surplus_example =
    authorized_claim-surplus (host 1100) (host 1150) one_locked authorised authorised claimed_state
      3 8 (omega arith) authorised_runs authorised-IsIndexed refl refl claimed_state_runs
