-- ===== src/Program/Schedules.antt =====
-- The release schedules of program-escrow/src/lib.rs: `create_program_release_schedule`,
-- `trigger_program_releases`, `release_program_schedule_manual` and
-- `release_prog_schedule_automatic`.
pub mod Marked
pub mod Rounds
pub mod Effects
pub mod Single
pub mod Trigger
use grainlify_stellar_contra.Base.{
  ℕ, ◌+◌, Bool, true, false, not, ◌&&◌, ◌||◌, none, some, List, [], ◌∷◌, leb, ltb, ◌==◌,
  if◌then◌else◌, push_back,
}
use grainlify_stellar_contra.Base.Int.{ℤ, pos, leb_ℤ, checked_sub, checked_add_u64}
use grainlify_stellar_contra.Base.Host.{
  Address, ◌>>=◌, ◌>>◌, pure, gets, asks, modify, trap_if, or_trap, require_auth, overflow,
  dispute_in_progress, not_whitelisted, amount_not_positive, already_released, not_yet_due,
  schedule_missing,
}
use grainlify_stellar_contra.Bounty.Circuit.{record_success}
use grainlify_stellar_contra.Program.State.{
  State, ProgramData, ProgramReleaseSchedule, ProgramReleaseHistory, ReleaseType, manual, automatic,
  Event, global,
}
use grainlify_stellar_contra.Program.Guards.{
  Call, now, emit, on_circuit, sym_trg_rels, load_program, is_dispute_open_for_key,
  is_schedule_scope_disputed, is_payable, enter, clear_entered, client_transfer,
  emit_aggregate_stats,
}
use grainlify_stellar_contra.Program.Disputes.{find_schedule}
use grainlify_stellar_contra.Program.Payout.{max_batch_size, payout_record, check_balance}

abbrev pub new_schedule : ℕ → Address → ℤ → ℕ → ProgramReleaseSchedule
new_schedule id recipient amount time = record {
  schedule_id = id;
  recipient = recipient;
  amount = amount;
  release_timestamp = time;
  released = false;
  released_at = none;
  released_by = none;
}

unfoldable pub create_program_release_schedule : ℤ → ℕ → Address → Call ProgramReleaseSchedule
unfolding is_payable
create_program_release_schedule amount release_timestamp recipient = do
  program ← load_program
  require_auth program.authorized_payout_key
  trap_if (leb_ℤ amount (pos 0)) amount_not_positive
  trap_if (not (← gets (is_payable recipient))) not_whitelisted
  id ← gets (λ s. s.next_schedule_id)
  next ← or_trap (checked_add_u64 id 1) overflow
  let schedule = new_schedule id recipient amount release_timestamp
  modify (λ s. record s { schedules = push_back s.schedules schedule; next_schedule_id = next })
  pure schedule

abbrev pub released_schedule : ProgramReleaseSchedule → ℕ → Address → ProgramReleaseSchedule
released_schedule x time by = record x {
  released = true;
  released_at = some time;
  released_by = some by;
}

abbrev pub release_entry : ProgramReleaseSchedule → ℕ → ReleaseType → ProgramReleaseHistory
release_entry x time kind = record {
  schedule_id = x.schedule_id;
  recipient = x.recipient;
  amount = x.amount;
  released_at = time;
  release_type = kind;
}

-- What the loop of `trigger_program_releases` changes as it goes, but the schedules.
pub record Progress : Type 0 where
  pub program : ProgramData
  pub history : List ProgramReleaseHistory
  pub released_count : ℕ

-- The tests by which the loop skips a schedule.
unfoldable pub is_releasable : ℕ → ProgramReleaseSchedule → State → Bool
unfolding is_schedule_scope_disputed is_payable
is_releasable time x s =
    not (x.released || ltb time x.release_timestamp)
    && (not (is_schedule_scope_disputed x.schedule_id x.recipient s) && is_payable x.recipient s)

abbrev pub advanced : Progress → ProgramReleaseSchedule → ℤ → ℕ → Progress
advanced p x remaining time = record {
  program = record p.program {
    remaining_balance = remaining;
    payout_history = push_back p.program.payout_history (payout_record x.recipient x.amount time);
  };
  history = push_back p.history (release_entry x time automatic);
  released_count = p.released_count + 1;
}

-- The round of the loop that pays a schedule.
unfoldable pub release_one :
    ProgramReleaseSchedule → Progress → Call (ProgramReleaseSchedule × Progress)
unfolding check_balance client_transfer
release_one x p = do
  this ← asks (λ e. e.current_contract_address)
  time ← now
  check_balance p.program x.amount sym_trg_rels
  client_transfer p.program.token_address this x.recipient x.amount
  remaining ← or_trap (checked_sub p.program.remaining_balance x.amount) overflow
  emit (Event.schedule_triggered p.program.program_id x.schedule_id x.recipient x.amount automatic)
  pure (released_schedule x time this, advanced p x remaining time)

-- One round of the loop. Where the code breaks, this and every later round leaves its schedule.
unfoldable pub trigger_one :
    ProgramReleaseSchedule → Progress → Call (ProgramReleaseSchedule × Progress)
unfolding is_releasable release_one
trigger_one x p = do
  time ← now
  releasable ← gets (is_releasable time x)
  if not (leb max_batch_size p.released_count) && releasable then release_one x p else pure (x, p)

unfoldable pub trigger_loop :
    List ProgramReleaseSchedule → Progress → Call (List ProgramReleaseSchedule × Progress)
unfolding trigger_one
trigger_loop [] p = pure ([], p)
trigger_loop (x ∷ xs) p = do
  (x', p') ← trigger_one x p
  (xs', p'') ← trigger_loop xs p'
  pure (x' ∷ xs', p'')

-- The guards of `trigger_program_releases`, with the program's record.
unfoldable pub open_trigger : Call ProgramData
unfolding enter is_dispute_open_for_key
open_trigger = do
  enter
  trap_if (← gets (is_dispute_open_for_key global)) dispute_in_progress
  program ← load_program
  require_auth program.authorized_payout_key
  pure program

-- What `trigger_program_releases` stores and tells after its loop.
unfoldable pub close_trigger : List ProgramReleaseSchedule → Progress → Call ℕ
unfolding record_success emit_aggregate_stats
close_trigger schedules p = do
  modify (λ s. record s {
    program_data = some p.program;
    schedules = schedules;
    release_history = p.history;
  })
  (if ltb 0 p.released_count
      then (do on_circuit record_success; emit_aggregate_stats p.program)
      else pure tt)
  clear_entered
  pure p.released_count

unfoldable pub trigger_program_releases : Call ℕ
unfolding open_trigger trigger_loop close_trigger
trigger_program_releases = do
  program ← open_trigger
  schedules ← gets (λ s. s.schedules)
  history ← gets (λ s. s.release_history)
  (schedules', p) ←
      trigger_loop schedules (record { program = program; history = history; released_count = 0 })
  close_trigger schedules' p

-- The first schedule of that identifier, replaced.
unfoldable pub set_schedule :
    ℕ → ProgramReleaseSchedule → List ProgramReleaseSchedule → List ProgramReleaseSchedule
set_schedule id y [] = []
set_schedule id y (x ∷ xs) =
    let rest = set_schedule id y xs in if x.schedule_id == id then y ∷ xs else x ∷ rest

-- The guards of the two releases by identifier, and the schedule that they find.
unfoldable pub open_release : ℕ → Call (ProgramData × ProgramReleaseSchedule)
unfolding enter find_schedule
open_release id = do
  enter
  program ← load_program
  require_auth program.authorized_payout_key
  schedule ← or_trap (← gets (λ s. find_schedule id s.schedules)) schedule_missing
  trap_if schedule.released already_released
  pure (program, schedule)

-- The disputes and the whitelist.
unfoldable pub check_schedule : ProgramReleaseSchedule → Call (Unit {0})
unfolding is_dispute_open_for_key is_schedule_scope_disputed is_payable
check_schedule x = do
  trap_if (← gets (is_dispute_open_for_key global)) dispute_in_progress
  trap_if (← gets (is_schedule_scope_disputed x.schedule_id x.recipient)) dispute_in_progress
  trap_if (not (← gets (is_payable x.recipient))) not_whitelisted

-- The transfer and what is stored after it.
unfoldable pub pay_schedule :
    ProgramData → ProgramReleaseSchedule → Address → ReleaseType → Call (Unit {0})
unfolding client_transfer record_success set_schedule
pay_schedule program x by kind = do
  this ← asks (λ e. e.current_contract_address)
  time ← now
  client_transfer program.token_address this x.recipient x.amount
  remaining ← or_trap (checked_sub program.remaining_balance x.amount) overflow
  emit (Event.schedule_triggered program.program_id x.schedule_id x.recipient x.amount kind)
  modify (λ s. record s {
    schedules = set_schedule x.schedule_id (released_schedule x time by) s.schedules;
    program_data = some (record program { remaining_balance = remaining });
  })
  on_circuit record_success
  modify
      (λ s. record s { release_history = push_back s.release_history (release_entry x time kind) })

unfoldable pub release_program_schedule_manual : ℕ → Call (Unit {0})
unfolding open_release check_schedule pay_schedule
release_program_schedule_manual id = do
  (program, x) ← open_release id
  check_schedule x
  pay_schedule program x program.authorized_payout_key manual
  clear_entered

unfoldable pub release_prog_schedule_automatic : ℕ → Call (Unit {0})
unfolding open_release check_schedule pay_schedule
release_prog_schedule_automatic id = do
  (program, x) ← open_release id
  time ← now
  trap_if (ltb time x.release_timestamp) not_yet_due
  check_schedule x
  this ← asks (λ e. e.current_contract_address)
  pay_schedule program x this automatic
  clear_entered
