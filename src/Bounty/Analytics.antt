-- ===== src/Bounty/Analytics.antt =====
-- The per-bounty analytics of bounty_escrow/contracts/escrow/src/analytics.rs.
use grainlify_stellar_contra.Base.{ℕ, ◌+◌, ◌-◌, ◌^◌, Option, none, some, ltb, if◌then◌else◌, insert}
use grainlify_stellar_contra.Base.Int.{ℤ, pos, checked_add, saturating_sub}
use grainlify_stellar_contra.Base.Host.{Action, ◌>>=◌, pure, gets, modify, or_fail}
use grainlify_stellar_contra.Bounty.State.{State, Error, analytics_overflow, BountyAnalytics}

-- `u32::checked_add(1)`
abbrev pub checked_incr_u32 : ℕ → Option ℕ
checked_incr_u32 n = if ltb n (2 ^ 32 - 1) then some (n + 1) else none

unfoldable pub init_bounty_analytics : ℕ → ℤ → ℕ → State → State
init_bounty_analytics bounty_id amount timestamp s = record s {
  analytics =
      insert bounty_id
        (record {
          total_amount_locked = amount;
          total_amount_released = pos 0;
          total_amount_refunded = pos 0;
          remaining_amount = amount;
          created_at = timestamp;
          last_updated = timestamp;
          partial_releases_count = 0;
          partial_refunds_count = 0;
        })
        s.analytics;
}

-- The record after a release of `amount`, if the sums stay in range.
unfoldable pub record_release : ℤ → ℕ → BountyAnalytics → Action State Error BountyAnalytics
record_release amount timestamp a = do
  total ← or_fail (checked_add a.total_amount_released amount) analytics_overflow
  count ← or_fail (checked_incr_u32 a.partial_releases_count) analytics_overflow
  pure (record a {
    total_amount_released = total;
    remaining_amount = saturating_sub a.remaining_amount amount;
    last_updated = timestamp;
    partial_releases_count = count;
  })

unfoldable pub record_refund : ℤ → ℕ → BountyAnalytics → Action State Error BountyAnalytics
record_refund amount timestamp a = do
  total ← or_fail (checked_add a.total_amount_refunded amount) analytics_overflow
  count ← or_fail (checked_incr_u32 a.partial_refunds_count) analytics_overflow
  pure (record a {
    total_amount_refunded = total;
    remaining_amount = saturating_sub a.remaining_amount amount;
    last_updated = timestamp;
    partial_refunds_count = count;
  })

-- Applies `change` to the bounty's record, if there is one.
update_analytics :
    (BountyAnalytics → Action State Error BountyAnalytics)
    → ℕ
    → Option BountyAnalytics
    → Action State Error (Unit {0})
update_analytics change bounty_id none = pure tt
update_analytics change bounty_id (some a) = do
  a' ← change a
  modify (λ s. record s { analytics = insert bounty_id a' s.analytics })

-- `update_analytics_on_release`, with the error that the contract maps an overflow to
unfoldable pub update_analytics_on_release : ℕ → ℤ → ℕ → Action State Error (Unit {0})
unfolding update_analytics record_release
update_analytics_on_release bounty_id amount timestamp = do
  update_analytics (record_release amount timestamp) bounty_id (← gets (λ s. s.analytics bounty_id))

unfoldable pub update_analytics_on_refund : ℕ → ℤ → ℕ → Action State Error (Unit {0})
unfolding update_analytics record_refund
update_analytics_on_refund bounty_id amount timestamp = do
  update_analytics (record_refund amount timestamp) bounty_id (← gets (λ s. s.analytics bounty_id))
