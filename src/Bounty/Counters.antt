-- ===== src/Bounty/Counters.antt =====
-- The incremental aggregate counters of bounty_escrow/contracts/escrow/src/lib.rs.
use grainlify_stellar_contra.Base.{ℕ, ◌+◌, ◌-◌, ◌^◌, ltb, if◌then◌else◌}
use grainlify_stellar_contra.Base.Int.{ℤ, pos, saturating_add, saturating_sub}
use grainlify_stellar_contra.Bounty.State.{State, AggregateStats}

-- `u32::saturating_add` and `saturating_sub` with 1
abbrev pub incr_u32 : ℕ → ℕ
incr_u32 n = if ltb n (2 ^ 32 - 1) then n + 1 else n

abbrev pub decr_u32 : ℕ → ℕ
decr_u32 n = n - 1

abbrev pub zero_stats : AggregateStats
zero_stats = record {
  total_locked = pos 0;
  total_released = pos 0;
  total_refunded = pos 0;
  count_locked = 0;
  count_released = 0;
  count_refunded = 0;
}

-- `set_counters` after a change of what `get_counters` gives
abbrev pub change_counters : (AggregateStats → AggregateStats) → State → State
change_counters f s = record s { counters = f s.counters }

unfoldable pub increment_locked : ℤ → AggregateStats → AggregateStats
increment_locked amount c = record c {
  total_locked = saturating_add c.total_locked amount;
  count_locked = incr_u32 c.count_locked;
}

unfoldable pub transition_locked_to_released : ℤ → AggregateStats → AggregateStats
transition_locked_to_released amount c = record c {
  total_locked = saturating_sub c.total_locked amount;
  count_locked = decr_u32 c.count_locked;
  total_released = saturating_add c.total_released amount;
  count_released = incr_u32 c.count_released;
}

unfoldable pub transition_locked_to_refunded : ℤ → AggregateStats → AggregateStats
transition_locked_to_refunded amount c = record c {
  total_locked = saturating_sub c.total_locked amount;
  count_locked = decr_u32 c.count_locked;
  total_refunded = saturating_add c.total_refunded amount;
  count_refunded = incr_u32 c.count_refunded;
}

unfoldable pub partial_refund_from_locked : ℤ → AggregateStats → AggregateStats
partial_refund_from_locked amount c = record c {
  total_locked = saturating_sub c.total_locked amount;
  total_refunded = saturating_add c.total_refunded amount;
}

unfoldable pub transition_partially_refunded_to_refunded : ℤ → AggregateStats → AggregateStats
transition_partially_refunded_to_refunded amount c = record c {
  total_locked = saturating_sub c.total_locked amount;
  count_locked = decr_u32 c.count_locked;
  total_refunded = saturating_add c.total_refunded amount;
  count_refunded = incr_u32 c.count_refunded;
}

unfoldable pub partial_release_from_locked : ℤ → AggregateStats → AggregateStats
partial_release_from_locked amount c = record c {
  total_locked = saturating_sub c.total_locked amount;
  total_released = saturating_add c.total_released amount;
}

unfoldable pub finalize_partial_release_to_released : AggregateStats → AggregateStats
finalize_partial_release_to_released c = record c {
  count_locked = decr_u32 c.count_locked;
  count_released = incr_u32 c.count_released;
}
