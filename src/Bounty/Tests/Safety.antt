-- ===== src/Bounty/Tests/Safety.antt =====
-- The theorems on what the calls demand and rule out, at states that the runs reach.
use grainlify_stellar_contra.Base.{◌≡◌, ◌≤◌, refl, true, false, some, none, arith}
use grainlify_stellar_contra.Base.Int.{pos, ◌+ℤ◌, ◌-ℤ◌, ◌<ℤ◌, checked_add, checked_sub}
use grainlify_stellar_contra.Base.Host.{Address}
use grainlify_stellar_contra.Bounty.State.{Escrow, refunded, locked}
use grainlify_stellar_contra.Bounty.Guards.{check_paused, check_release_approval}
use grainlify_stellar_contra.Bounty.Release.{release_funds, partial_release}
use grainlify_stellar_contra.Bounty.Claim.{authorize_claim, claim, paid_claim}
use grainlify_stellar_contra.Bounty.Refund.{refund}
use grainlify_stellar_contra.Bounty.Safety.{
  Fails, IsApproved, release_funds-ok, claim-ok, refund-strands,
}
use grainlify_stellar_contra.Bounty.Blocking.{
  release_funds-final, claim-final, pending_claim_blocks, paused_blocks_releases,
}
use grainlify_stellar_contra.Bounty.Batch.{batch_release_funds}
use grainlify_stellar_contra.Bounty.Refund.{sweep_expired_refunds}
use grainlify_stellar_contra.Bounty.State.{ReleaseFundsItem}
use grainlify_stellar_contra.Base.{List, [], ◌∷◌, ℕ}
use grainlify_stellar_contra.Bounty.Tests.{
  host, one_locked, all_paid, all_paid_runs, authorised, claimed_state, claimed_state_runs,
  approved, stranded, stranded_runs, escrow_three, paused,
}
use grainlify_stellar_contra.Bounty.Admin.Pausing.{IsHalted, emergency_pause-IsHalted}
use grainlify_stellar_contra.Bounty.Tests.{halted, halted_runs}
use grainlify_stellar_contra.Bounty.Lock.{lock_funds}
use grainlify_stellar_contra.Bounty.Cooldown.{lock_funds_cooldown}
use grainlify_stellar_contra.Bounty.Tests.{fresh, one_locked_runs}

refund-strands_example :
    (y : Escrow) × (stranded.escrows 3 ≡ some y)
    × (y.status ≡ refunded)
    × (y.remaining_amount ≡ pos 60)
    × (pos 0 <ℤ y.remaining_amount)
unfolding stranded approved one_locked check_release_approval checked_sub ◌-ℤ◌ checked_add ◌+ℤ◌
refund-strands_example =
    refund-strands (host 1200) approved stranded 3 refl refl refl (omega arith) stranded_runs

release_funds-ok_example :
    ((a : Address) × (one_locked.admin ≡ some a) × ((host 1100).authorized a ≡ true))
    × (one_locked.pending_claims 3 ≡ none)
    × (escrow_three.status ≡ locked)
    × IsApproved one_locked 3 (pos 100)
    × (one_locked.reentrancy_guard ≡ false)
    × (all_paid.reentrancy_guard ≡ false)
    × (all_paid.release_approvals 3 ≡ none)
    × (all_paid.pending_claims ≡ one_locked.pending_claims)
unfolding all_paid one_locked check_release_approval checked_sub ◌-ℤ◌ checked_add ◌+ℤ◌
release_funds-ok_example = release_funds-ok (host 1100) one_locked all_paid 3 8 refl all_paid_runs

-- Batches that name bounty 3.
abbrev release_three : List ReleaseFundsItem
release_three = record { bounty_id = 3; contributor = 9 } ∷ []

abbrev sweep_three : List ℕ
sweep_three = 3 ∷ []

release_funds-final_example :
    Fails (release_funds 3 9 (host 3000) all_paid)
    × Fails (partial_release 3 9 (pos 1) (host 3000) all_paid)
    × Fails (batch_release_funds release_three (host 3000) all_paid)
    × Fails (refund 3 (host 3000) all_paid)
    × Fails (sweep_expired_refunds sweep_three (host 3000) all_paid)
    × Fails (claim 3 (host 3000) all_paid)
    × Fails (authorize_claim 3 9 (host 3000) all_paid)
unfolding all_paid one_locked check_release_approval checked_sub ◌-ℤ◌ checked_add ◌+ℤ◌
release_funds-final_example =
    release_funds-final (host 1100) (host 3000) one_locked all_paid 3 8 9 (pos 1) release_three
      sweep_three refl all_paid_runs refl refl

claim-ok_example :
    ((host 1150).authorized 8 ≡ true)
    × (1150 ≤ 1200)
    × (false ≡ false)
    × (claimed_state.pending_claims 3
        ≡ some (
            paid_claim (record {
              bounty_id = 3;
              recipient = 8;
              amount = pos 100;
              expires_at = 1200;
              claimed = false;
            })))
    × (authorised.reentrancy_guard ≡ false)
    × (claimed_state.reentrancy_guard ≡ false)
unfolding claimed_state authorised one_locked check_release_approval checked_sub ◌-ℤ◌ checked_add
    ◌+ℤ◌
claim-ok_example = claim-ok (host 1150) authorised claimed_state 3 refl claimed_state_runs

claim-final_example :
    Fails (release_funds 3 9 (host 3000) claimed_state)
    × Fails (partial_release 3 9 (pos 1) (host 3000) claimed_state)
    × Fails (batch_release_funds release_three (host 3000) claimed_state)
    × Fails (refund 3 (host 3000) claimed_state)
    × Fails (sweep_expired_refunds sweep_three (host 3000) claimed_state)
    × Fails (claim 3 (host 3000) claimed_state)
    × Fails (authorize_claim 3 9 (host 3000) claimed_state)
unfolding claimed_state authorised one_locked check_release_approval checked_sub ◌-ℤ◌ checked_add
    ◌+ℤ◌
claim-final_example =
    claim-final (host 1150) (host 3000) authorised claimed_state 3 9 (pos 1) release_three
      sweep_three refl refl claimed_state_runs refl refl

pending_claim_blocks_example :
    Fails (release_funds 3 8 (host 1150) authorised)
    × Fails (partial_release 3 8 (pos 1) (host 1150) authorised)
    × Fails (batch_release_funds release_three (host 1150) authorised)
    × Fails (refund 3 (host 1150) authorised)
    × Fails (sweep_expired_refunds sweep_three (host 1150) authorised)
unfolding authorised one_locked check_release_approval checked_sub ◌-ℤ◌ checked_add ◌+ℤ◌
pending_claim_blocks_example =
    pending_claim_blocks (host 1150) authorised 3 8 (pos 1) release_three sweep_three refl refl refl

paused_blocks_releases_example :
    Fails (release_funds 3 8 (host 1150) paused)
    × Fails (partial_release 3 8 (pos 1) (host 1150) paused)
    × Fails (batch_release_funds release_three (host 1150) paused)
    × Fails (claim 3 (host 1150) paused)
unfolding paused check_paused
paused_blocks_releases_example =
    paused_blocks_releases (host 1150) paused 3 8 (pos 1) release_three refl

emergency_pause-IsHalted_example : IsHalted (host 1100) halted
emergency_pause-IsHalted_example =
    emergency_pause-IsHalted (host 1050) (host 1100) one_locked halted halted_runs

lock_funds_cooldown_example : Fails (lock_funds 5 4 (pos 10) 3000 (host 1030) one_locked)
lock_funds_cooldown_example =
    lock_funds_cooldown (host 1000) (host 1030) fresh one_locked 5 3 4 (pos 100) (pos 10) 2000 3000
      refl (omega arith) (omega arith) one_locked_runs
