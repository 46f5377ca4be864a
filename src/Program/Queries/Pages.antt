-- ===== src/Program/Queries/Pages.antt =====
-- The queries of program-escrow/src/lib.rs against a reference: the entries that pass the test,
-- less the first `offset` of them, up to `limit`.
use grainlify_stellar_contra.Base.{ℕ, ◌+◌, ◌≡◌, refl, Bool, not, ◌&&◌, some, ◌++◌, leb, ◌==◌}
use grainlify_stellar_contra.Base.Int.{ℤ, leb_ℤ}
use grainlify_stellar_contra.Base.Host.{Address, Env, ok}
use grainlify_stellar_contra.Program.State.{State, ProgramData}
use grainlify_stellar_contra.Paging.{capped, page, query-page, capped_page, page_join}
use grainlify_stellar_contra.Program.Queries.{
  query_payouts_by_recipient, query_payouts_by_amount, query_payouts_by_timestamp,
  query_schedules_by_recipient, query_schedules_by_status, query_releases_by_recipient, same_bool,
  get_pending_schedules, get_due_schedules,
}

-- Where there is a program, the three queries of its payouts, by recipient, amount and time, change
-- nothing and answer the entries that pass the test, without the first `offset` of them, up to
-- `limit`.
pub payout_queries-page :
    (e : Env) (s : State) (r : Address) (low high : ℤ) (since until offset limit : ℕ)
    {d : ProgramData}
    → s.program_data ≡ some d
    → (query_payouts_by_recipient r offset limit e s
        ≡ ok (page (λ x. x.recipient == r) offset limit d.payout_history, s))
      × (query_payouts_by_amount low high offset limit e s
          ≡ ok (
            page (λ x. leb_ℤ low x.amount && leb_ℤ x.amount high) offset limit d.payout_history,
            s,
          ))
      × (query_payouts_by_timestamp since until offset limit e s
          ≡ ok (
            page
                (λ x. leb since x.timestamp && leb x.timestamp until)
                offset
                limit
                d.payout_history,
            s,
          ))
unfolding query_payouts_by_recipient query_payouts_by_amount query_payouts_by_timestamp
payout_queries-page e s r low high since until offset limit {d} h = (
  rw (h, query-page (λ x. x.recipient == r) offset limit d.payout_history) refl,
  rw (h, query-page (λ x. leb_ℤ low x.amount && leb_ℤ x.amount high) offset limit d.payout_history)
      refl,
  rw
      (
        h,
        query-page (λ x. leb since x.timestamp && leb x.timestamp until) offset limit
            d.payout_history,
      )
      refl,
)

-- Every query of the schedules and releases answers a page.
pub schedule_queries-page :
    (s : State) (r : Address) (b : Bool) (time offset limit : ℕ)
    → (query_schedules_by_recipient r offset limit s
        ≡ page (λ x. x.recipient == r) offset limit s.schedules)
      × (query_schedules_by_status b offset limit s
          ≡ page (λ x. same_bool x.released b) offset limit s.schedules)
      × (query_releases_by_recipient r offset limit s
          ≡ page (λ x. x.recipient == r) offset limit s.release_history)
      × (get_pending_schedules offset limit s
          ≡ page (λ x. not x.released) offset (capped limit) s.schedules)
      × (get_due_schedules time offset limit s
          ≡ page
              (λ x. not x.released && leb x.release_timestamp time)
              offset
              (capped limit)
              s.schedules)
unfolding query_schedules_by_recipient query_schedules_by_status query_releases_by_recipient
    get_pending_schedules get_due_schedules
schedule_queries-page s r b time offset limit = (
  query-page (λ x. x.recipient == r) offset limit s.schedules,
  query-page (λ x. same_bool x.released b) offset limit s.schedules,
  query-page (λ x. x.recipient == r) offset limit s.release_history,
  capped_page (λ x. not x.released) offset (capped limit) s.schedules,
  capped_page (λ x. not x.released && leb x.release_timestamp time) offset (capped limit)
      s.schedules,
)

-- A `query_schedules_by_status` of one page followed by one from where that page ends answers,
-- together, what one query of both lengths does.
pub status_pages_join :
    (s : State) (b : Bool) (offset m n : ℕ)
    → query_schedules_by_status b offset m s ++ query_schedules_by_status b (offset + m) n s
      ≡ query_schedules_by_status b offset (m + n) s
status_pages_join s b offset m n =
    let pages = λ (o l : ℕ). (schedule_queries-page s 0 b 0 o l).1 in
    rw (pages offset m, pages (offset + m) n, pages offset (m + n))
      (page_join (λ x. same_bool x.released b) offset m n s.schedules)
