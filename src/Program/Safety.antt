-- ===== src/Program/Safety.antt =====
-- What has to hold for the program escrow to pay, and what the releases by identifier leave out.
use grainlify_stellar_contra.Program.Payout.Single.{CanPay, CanReceive}
use grainlify_stellar_contra.Base.{ℕ, ◌≡◌, ◌∙◌, ◌≤◌, ◌<◌, sym, some, List, All, length}
use grainlify_stellar_contra.Base.Int.{ℤ, pos, ◌-ℤ◌, ◌<ℤ◌, ◌≤ℤ◌, int_laws}
use grainlify_stellar_contra.Base.Host.{Address, Env, ok}
use grainlify_stellar_contra.Program.State.{State, ProgramData, ProgramReleaseSchedule}
use grainlify_stellar_contra.Program.Disputes.{find_schedule}
use grainlify_stellar_contra.Program.Payout.{batch_payout, max_batch_size}
use grainlify_stellar_contra.Program.Payout.Checks.{sum_of}
use grainlify_stellar_contra.Program.Payout.Effects.{batch_payout-pays}
use grainlify_stellar_contra.Program.Schedules.{release_program_schedule_manual}
use grainlify_stellar_contra.Program.Schedules.Single.{release_program_schedule_manual-Releases}

-- A `batch_payout` succeeds only if the guard is free, the circuit breaker allows it, releases are
-- not paused, no dispute of the program or of a recipient is open, the governance version is met,
-- the payout key signed, every recipient may be paid, every amount is positive, their sum is at
-- most the remaining balance, and there are from 1 to 100 recipients.
pub batch_payout-guarded :
    (e : Env) (s s' : State) (rs : List Address) (amounts : List ℤ) {d d' : ProgramData}
    → s.program_data ≡ some d
    → batch_payout rs amounts e s ≡ ok (d', s')
    → CanPay e s d
      × All (CanReceive s) rs
      × All (λ a. pos 0 <ℤ a) amounts
      × (sum_of amounts ≤ℤ d.remaining_balance)
      × (0 < length rs)
      × (length rs ≤ max_batch_size)
batch_payout-guarded e s s' rs amounts {d} k h =
    let (d0, can, may, positive, enough, _, some_, few, _, _) =
      batch_payout-pays e s s' rs amounts h in
    let same : d0 ≡ d = (let q = sym can.program ∙ k in cc) in
    (rw same at can, may, positive, rw same at enough, some_, few)

-- A `release_program_schedule_manual` that succeeds on a schedule of more than the remaining
-- balance leaves a remaining balance that is negative, the difference of the two.
pub manual_release_overdraws :
    (e : Env) (s s' : State) (id : ℕ) {d : ProgramData} {x : ProgramReleaseSchedule}
    → s.program_data ≡ some d
    → find_schedule id s.schedules ≡ some x
    → d.remaining_balance <ℤ x.amount
    → release_program_schedule_manual id e s ≡ ok (tt, s')
    → (s'.program_data ≡ some (record d { remaining_balance = d.remaining_balance -ℤ x.amount }))
      × ((d.remaining_balance -ℤ x.amount) <ℤ pos 0)
manual_release_overdraws e s s' id {d} {x} k f less h =
    let (d0, x0, named, r) = release_program_schedule_manual-Releases e s s' id h in
    let program : d0 ≡ d = (let q = sym r.program ∙ k in cc) in
    let found : find_schedule id s.schedules ≡ some x0 = rw named at r.found in
    let same : x0 ≡ x = (let q = sym found ∙ f in cc) in
    (rw (program, same) at r.then_, grind int_laws)
