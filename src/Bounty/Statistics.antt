-- ===== src/Bounty/Statistics.antt =====
-- The statistics that bounty_escrow/contracts/escrow/src/lib.rs offers: from the counters, from a
-- scan of the escrows, and of one depositor.
use grainlify_stellar_contra.Base.{
  ℕ, ◌+◌, ◌&&◌, List, [], ◌∷◌, map, leb, if◌then◌else◌, count_where,
}
use grainlify_stellar_contra.Base.Int.{ℤ, pos, leb_ℤ, ltb_ℤ, quot, saturating_add}
use grainlify_stellar_contra.Base.Host.{Address, ◌>>=◌, pure, gets, or_fail}
use grainlify_stellar_contra.Paging.{scan, query, capped}
use grainlify_stellar_contra.Bounty.State.{
  State, Escrow, EscrowStatus, locked, released, refunded, partially_refunded, AggregateStats,
  BountyAnalytics, ContractAnalytics, Event, bounty_not_found,
}
use grainlify_stellar_contra.Bounty.Guards.{Call, now, emit, is_refundable}
use grainlify_stellar_contra.Bounty.Queries.{EscrowWithId, same_status, stored}

unfoldable pub get_bounty_analytics : ℕ → Call BountyAnalytics
get_bounty_analytics bounty_id = do
  analytics ← or_fail (← gets (λ s. s.analytics bounty_id)) bounty_not_found
  pure analytics

-- The mean of the amounts that the counters hold. The sum of three counts of 32 bits saturates
-- nowhere.
abbrev pub average_bounty : AggregateStats → ℤ
average_bounty stats =
    let total_count = pos (stats.count_locked + stats.count_released + stats.count_refunded) in
    if ltb_ℤ (pos 0) total_count
    then quot
        (saturating_add (saturating_add stats.total_locked stats.total_released)
          stats.total_refunded)
        total_count
    else pos 0

unfoldable pub get_contract_analytics : Call ContractAnalytics
get_contract_analytics = do
  stats ← gets (λ s. s.counters)
  time ← now
  pure (record {
    active_bounty_count = stats.count_locked;
    released_bounty_count = stats.count_released;
    refunded_bounty_count = stats.count_refunded;
    total_locked = stats.total_locked;
    total_released = stats.total_released;
    total_refunded = stats.total_refunded;
    average_bounty_amount = average_bounty stats;
    snapshot_timestamp = time;
  })

unfoldable pub emit_analytics_snapshot_event : Call (Unit {0})
unfolding get_contract_analytics
emit_analytics_snapshot_event = do
  metrics ← get_contract_analytics
  emit (Event.analytics_snapshot metrics)

unfoldable pub count_by_status_full_scan : EscrowStatus → State → ℕ
unfolding stored
count_by_status_full_scan status s =
    count_where (λ x. same_status x.escrow.status status) (stored s s.escrow_index)

unfoldable pub count_bounties_by_status : EscrowStatus → State → ℕ
unfolding count_by_status_full_scan
count_bounties_by_status locked s = s.counters.count_locked
count_bounties_by_status released s = s.counters.count_released
count_bounties_by_status refunded s = s.counters.count_refunded
count_bounties_by_status partially_refunded s = count_by_status_full_scan partially_refunded s

-- What an escrow counts with: what remains while it is open, and else what was locked.
abbrev pub volume_of : EscrowStatus → Escrow → ℤ
volume_of status escrow = if is_refundable status then escrow.remaining_amount else escrow.amount

unfoldable pub add_volumes : EscrowStatus → ℤ → List EscrowWithId → ℤ
add_volumes status total [] = total
add_volumes status total (x ∷ xs) =
    let added =
      if same_status x.escrow.status status
      then saturating_add total (volume_of status x.escrow)
      else total in
    add_volumes status added xs

unfoldable pub volume_by_status_full_scan : EscrowStatus → State → ℤ
unfolding add_volumes stored
volume_by_status_full_scan status s = add_volumes status (pos 0) (stored s s.escrow_index)

unfoldable pub get_volume_by_status : EscrowStatus → State → ℤ
unfolding volume_by_status_full_scan
get_volume_by_status locked s = s.counters.total_locked
get_volume_by_status released s = s.counters.total_released
get_volume_by_status refunded s = s.counters.total_refunded
get_volume_by_status partially_refunded s = volume_by_status_full_scan partially_refunded s

-- The counts and amounts of one depositor, in the order of the code's tuple.
pub record DepositorStats : Type 0 where
  pub locked_count : ℕ
  pub locked_amount : ℤ
  pub released_count : ℕ
  pub released_amount : ℤ
  pub refunded_count : ℕ
  pub refunded_amount : ℤ

abbrev pub add_deposit : Escrow → EscrowStatus → DepositorStats → DepositorStats
add_deposit escrow released d = record d {
  released_count = d.released_count + 1;
  released_amount = saturating_add d.released_amount escrow.amount;
}
add_deposit escrow refunded d = record d {
  refunded_count = d.refunded_count + 1;
  refunded_amount = saturating_add d.refunded_amount escrow.amount;
}
add_deposit escrow _ d = record d {
  locked_count = d.locked_count + 1;
  locked_amount = saturating_add d.locked_amount escrow.remaining_amount;
}

unfoldable pub add_deposits : DepositorStats → List EscrowWithId → DepositorStats
add_deposits d [] = d
add_deposits d (x ∷ xs) = add_deposits (add_deposit x.escrow x.escrow.status d) xs

unfoldable pub get_depositor_stats : Address → State → DepositorStats
unfolding add_deposits stored
get_depositor_stats depositor s =
    add_deposits
      (record {
        locked_count = 0;
        locked_amount = pos 0;
        released_count = 0;
        released_amount = pos 0;
        refunded_count = 0;
        refunded_amount = pos 0;
      })
      (stored s (s.depositor_index depositor))

unfoldable pub query_expiring_bounties : (max_deadline offset limit : ℕ) → State → List ℕ
unfolding scan stored
query_expiring_bounties max_deadline offset limit s =
    map (λ x. x.bounty_id)
      (query (λ x. is_refundable x.escrow.status && leb x.escrow.deadline max_deadline) offset
        (capped limit) (stored s s.escrow_index))

unfoldable pub get_high_value_bounties : ℤ → ℕ → State → List ℕ
unfolding scan stored
get_high_value_bounties min_amount limit s =
    map (λ x. x.bounty_id)
      (query (λ x. is_refundable x.escrow.status && leb_ℤ min_amount x.escrow.remaining_amount) 0
        (capped limit) (stored s s.escrow_index))
