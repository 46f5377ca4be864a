-- ===== src/Bounty/Tests/Views.antt =====
-- The theorems on the views of the bounty escrow, at states that the runs reach.
use grainlify_stellar_contra.Base.{◌≡◌, ◌+◌, refl, true, some, length, leb}
use grainlify_stellar_contra.Base.Int.{pos, ◌+ℤ◌, ◌-ℤ◌, checked_add, checked_sub}
use grainlify_stellar_contra.Base.Host.{ok}
use grainlify_stellar_contra.Bounty.State.{Escrow, AggregateStats}
use grainlify_stellar_contra.Bounty.Guards.{check_release_approval}
use grainlify_stellar_contra.Bounty.Queries.{
  stored, get_refund_eligibility, get_aggregate_stats_full_scan, sum_refunds, add_escrow,
  count_escrow, scan_escrows, scan_escrow,
}
use grainlify_stellar_contra.Bounty.Queries.Pages.{refund-IsEligible}
use grainlify_stellar_contra.Bounty.Queries.Totals.{sum_of, held, full_scan-balanced}
use grainlify_stellar_contra.Bounty.Tests.{
  host, approved, stranded, stranded_runs, part_paid, one_locked,
}

refund-IsEligible_example :
    (x : Escrow) × (approved.escrows 3 ≡ some x)
    × (get_refund_eligibility 3 (host 1200) approved
        ≡ ok (
          (true, leb x.deadline 1200, x.remaining_amount, approved.refund_approvals 3),
          approved,
        ))
refund-IsEligible_example = refund-IsEligible (host 1200) approved stranded 3 stranded_runs

abbrev part_paid_stats : AggregateStats
part_paid_stats = record {
  total_locked = pos 60;
  total_released = pos 40;
  total_refunded = pos 0;
  count_locked = 1;
  count_released = 0;
  count_refunded = 0;
}

scanned : get_aggregate_stats_full_scan (host 1150) part_paid ≡ ok (part_paid_stats, part_paid)
unfolding get_aggregate_stats_full_scan stored scan_escrows scan_escrow sum_refunds add_escrow
    count_escrow part_paid one_locked check_release_approval checked_sub ◌-ℤ◌ checked_add ◌+ℤ◌
scanned = refl

full_scan-balanced_example :
    let xs = stored part_paid part_paid.escrow_index in
    (part_paid ≡ part_paid)
    × (pos 40 +ℤ pos 0 +ℤ sum_of (λ x. x.remaining_amount) xs ≡ sum_of (λ x. x.amount) xs)
    × (pos 60 ≡ sum_of held xs)
    × (1 + 0 + 0 ≡ length xs)
full_scan-balanced_example = full_scan-balanced (host 1150) part_paid part_paid scanned
