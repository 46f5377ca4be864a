-- ===== src/Program/Queries.antt =====
-- The queries of program-escrow/src/lib.rs, and the entry points that check the program's
-- identifier first.
pub mod Pages
use grainlify_stellar_contra.Base.{
  ℕ, zero, suc, ◌+◌, ◌-◌, ◌^◌, Bool, true, false, not, ◌&&◌, ◌||◌, none, some, List, [], ◌∷◌, leb,
  ltb, ◌==◌, if◌then◌else◌, is_some, length, count_where,
}
use grainlify_stellar_contra.Paging.{scan, query, capped}
use grainlify_stellar_contra.Base.Int.{ℤ, pos, leb_ℤ, checked_add, checked_sub}
use grainlify_stellar_contra.Base.Host.{
  Address, Symbol, ◌>>=◌, ◌>>◌, pure, gets, fail_if, or_fail, or_trap, overflow,
}
use grainlify_stellar_contra.Program.State.{
  State, ProgramData, PayoutRecord, ProgramReleaseSchedule, ProgramReleaseHistory,
  ProgramAggregateStats, program_id_mismatch,
}
use grainlify_stellar_contra.Program.Guards.{Call, load_program, scheduled_count}
use grainlify_stellar_contra.Program.Lock.{lock_program_funds}
use grainlify_stellar_contra.Program.Payout.{single_payout, batch_payout}

unfoldable pub query_payouts_by_recipient : Address → (offset limit : ℕ) → Call (List PayoutRecord)
unfolding scan
query_payouts_by_recipient recipient offset limit = do
  program ← load_program
  pure (query (λ r. r.recipient == recipient) offset limit program.payout_history)

unfoldable pub query_payouts_by_amount :
    (low high : ℤ) (offset limit : ℕ) → Call (List PayoutRecord)
unfolding scan
query_payouts_by_amount low high offset limit = do
  program ← load_program
  pure (query (λ r. leb_ℤ low r.amount && leb_ℤ r.amount high) offset limit program.payout_history)

unfoldable pub query_payouts_by_timestamp : (low high offset limit : ℕ) → Call (List PayoutRecord)
unfolding scan
query_payouts_by_timestamp low high offset limit = do
  program ← load_program
  pure
      (query (λ r. leb low r.timestamp && leb r.timestamp high) offset limit program.payout_history)

unfoldable pub query_schedules_by_recipient :
    Address → (offset limit : ℕ) → State → List ProgramReleaseSchedule
unfolding scan
query_schedules_by_recipient recipient offset limit s =
    query (λ x. x.recipient == recipient) offset limit s.schedules

-- `a == b` of `bool`
abbrev pub same_bool : Bool → Bool → Bool
same_bool true b = b
same_bool false b = not b

unfoldable pub query_schedules_by_status :
    Bool → (offset limit : ℕ) → State → List ProgramReleaseSchedule
unfolding scan
query_schedules_by_status released offset limit s =
    query (λ x. same_bool x.released released) offset limit s.schedules

unfoldable pub query_releases_by_recipient :
    Address → (offset limit : ℕ) → State → List ProgramReleaseHistory
unfolding scan
query_releases_by_recipient recipient offset limit s =
    query (λ x. x.recipient == recipient) offset limit s.release_history

unfoldable pub get_pending_schedules : (offset limit : ℕ) → State → List ProgramReleaseSchedule
unfolding scan
get_pending_schedules offset limit s =
    if capped limit == 0 then [] else query (λ x. not x.released) offset (capped limit) s.schedules

unfoldable pub get_due_schedules : (time offset limit : ℕ) → State → List ProgramReleaseSchedule
unfolding scan
get_due_schedules time offset limit s =
    if capped limit == 0
    then []
    else query (λ x. not x.released && leb x.release_timestamp time) offset (capped limit)
        s.schedules

-- The entries at the indices from `from` on, `n` of them.
abbrev pub slice : {A : Type 0} → (from n : ℕ) → List A → List A
slice k n [] = []
slice (suc k) n (x ∷ xs) = slice k n xs
slice zero (suc n) (x ∷ xs) = x ∷ slice zero n xs
slice zero zero (x ∷ xs) = []

-- `offset.saturating_add(limit).min(schedules.len())` of `u32`
abbrev pub page_end : (offset limit len : ℕ) → ℕ
page_end offset limit len =
    let end = if ltb (2 ^ 32 - 1) (offset + limit) then 2 ^ 32 - 1 else offset + limit in
    if ltb len end then len else end

unfoldable pub paginate_program_release_schedules :
    List ProgramReleaseSchedule → (offset limit : ℕ) → List ProgramReleaseSchedule
paginate_program_release_schedules schedules offset limit =
    if capped limit == 0 || leb (length schedules) offset
    then []
    else slice offset (page_end offset (capped limit) (length schedules) - offset) schedules

unfoldable pub get_program_release_schedules :
    (offset limit : ℕ) → State → List ProgramReleaseSchedule
unfolding paginate_program_release_schedules
get_program_release_schedules offset limit s =
    paginate_program_release_schedules s.schedules offset limit

unfoldable pub get_remaining_balance : Call ℤ
get_remaining_balance = do program ← load_program; pure program.remaining_balance

abbrev pub released_count : List ProgramReleaseSchedule → ℕ
released_count = count_where (λ x. x.released)

unfoldable pub get_program_aggregate_stats : Call ProgramAggregateStats
get_program_aggregate_stats = do
  program ← load_program
  schedules ← gets (λ s. s.schedules)
  paid_out ← or_trap (checked_sub program.total_funds program.remaining_balance) overflow
  pure (record {
    total_funds = program.total_funds;
    remaining_balance = program.remaining_balance;
    total_paid_out = paid_out;
    payout_count = length program.payout_history;
    scheduled_count = scheduled_count schedules;
    released_count = released_count schedules;
    authorized_payout_key = program.authorized_payout_key;
    payout_history = program.payout_history;
    token_address = program.token_address;
  })

-- The loop of `get_total_scheduled_amount`, whose sum traps on overflow.
unfoldable pub sum_scheduled : ℤ → List ProgramReleaseSchedule → Call ℤ
sum_scheduled total [] = pure total
sum_scheduled total (x ∷ xs) = do
  total' ← if x.released then pure total else or_trap (checked_add total x.amount) overflow
  sum_scheduled total' xs

unfoldable pub get_total_scheduled_amount : Call ℤ
unfolding sum_scheduled
get_total_scheduled_amount = do schedules ← gets (λ s. s.schedules); sum_scheduled (pos 0) schedules

unfoldable pub get_program_count : State → ℕ
get_program_count s = if is_some s.program_data then 1 else 0

unfoldable pub list_programs : State → List ProgramData
list_programs s = elim s.program_data [ none ↦ [] | some program ↦ program ∷ [] ]

unfoldable pub validate_program_id : Symbol → Call (Unit {0})
validate_program_id program_id = do
  program ← or_fail (← gets (λ s. s.program_data)) program_id_mismatch
  fail_if (not (program.program_id == program_id)) program_id_mismatch

unfoldable pub get_program_info_v2 : Symbol → Call ProgramData
unfolding validate_program_id
get_program_info_v2 program_id = do validate_program_id program_id; load_program

unfoldable pub lock_program_funds_v2 : Symbol → Address → ℤ → Call ProgramData
unfolding validate_program_id lock_program_funds
lock_program_funds_v2 program_id from amount = do
  validate_program_id program_id
  lock_program_funds from amount

unfoldable pub single_payout_v2 : Symbol → Address → ℤ → Call ProgramData
unfolding validate_program_id single_payout
single_payout_v2 program_id recipient amount = do
  validate_program_id program_id
  single_payout recipient amount

unfoldable pub batch_payout_v2 : Symbol → List Address → List ℤ → Call ProgramData
unfolding validate_program_id batch_payout
batch_payout_v2 program_id recipients amounts = do
  validate_program_id program_id
  batch_payout recipients amounts
