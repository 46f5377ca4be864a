-- ===== src/Program/Tests/Behaviour.antt =====
-- Instances of the theorems on queries, disputes and counters of the program escrow.
use grainlify_stellar_contra.Base.{◌≡◌, ◌≤◌, refl, true, false, ◌&&◌, ◌==◌, leb, ltb, if◌then◌else◌}
use grainlify_stellar_contra.Base.Int.{
  pos, leb_ℤ, ◌-ℤ◌, ◌+ℤ◌, ◌*ℤ◌, checked_add, checked_sub, checked_mul, quot,
}
use grainlify_stellar_contra.Base.Host.{ok}
use grainlify_stellar_contra.Program.State.{State, of_recipient}
use grainlify_stellar_contra.Program.Guards.{is_dispute_open_for_key}
use grainlify_stellar_contra.Program.Disputes.{resolve_dispute_at}
use grainlify_stellar_contra.Program.Disputes.Lifecycle.{SameDisputes, open_resolve_roundtrip}
use grainlify_stellar_contra.Program.Queries.{
  query_payouts_by_recipient, query_payouts_by_amount, query_payouts_by_timestamp,
}
use grainlify_stellar_contra.Program.Queries.Pages.{payout_queries-page}
use grainlify_stellar_contra.Paging.{page}
use grainlify_stellar_contra.Program.Monitoring.{get_analytics, rate_bps}
use grainlify_stellar_contra.Program.Monitoring.Rates.{track, stay, next, error_rate-bounded}
use grainlify_stellar_contra.Program.Tests.{
  host, created, funded, paid, administered, disputed, data_of, tracked, disputed_runs,
  tracked_runs,
}

payout_queries-page_example :
    (query_payouts_by_recipient 8 0 5 (host 1300) paid
      ≡ ok (page (λ x. x.recipient == 8) 0 5 (data_of paid).payout_history, paid))
    × (query_payouts_by_amount (pos 0) (pos 50) 0 5 (host 1300) paid
        ≡ ok (
          page
              (λ x. leb_ℤ (pos 0) x.amount && leb_ℤ x.amount (pos 50))
              0
              5
              (data_of paid).payout_history,
          paid,
        ))
    × (query_payouts_by_timestamp 1000 1500 0 5 (host 1300) paid
        ≡ ok (
          page
              (λ x. leb 1000 x.timestamp && leb x.timestamp 1500)
              0
              5
              (data_of paid).payout_history,
          paid,
        ))
unfolding paid funded created checked_add ◌+ℤ◌ checked_sub ◌-ℤ◌ checked_mul ◌*ℤ◌ quot
payout_queries-page_example =
    payout_queries-page (host 1300) paid 8 (pos 0) (pos 50) 1000 1500 0 5 refl

open_resolve_roundtrip_example :
    (is_dispute_open_for_key (of_recipient 8) disputed ≡ true)
    × ((t : State) × (resolve_dispute_at (of_recipient 8) (host 1400) disputed ≡ ok (tt, t))
        × SameDisputes administered t)
unfolding administered created
open_resolve_roundtrip_example =
    open_resolve_roundtrip (host 1300) (host 1400) administered disputed (of_recipient 8) 5
      disputed_runs refl refl

error_rate-bounded_example :
    ((get_analytics tracked).error_rate ≤ 10000)
    × ((get_analytics tracked).error_rate
        ≡ (if ltb 0 tracked.op_count then rate_bps tracked.err_count tracked.op_count else 0))
error_rate-bounded_example =
    error_rate-bounded tracked (next stay (track (host 1000) 1 5 false tracked_runs))
