-- ===== src/Program/Disputes.antt =====
-- The disputes of program-escrow/src/lib.rs, of the program, of a recipient and of a schedule.
pub mod Lifecycle
use grainlify_stellar_contra.Base.{
  ℕ, Option, none, some, List, [], ◌∷◌, ◌==◌, if◌then◌else◌, insert,
}
use grainlify_stellar_contra.Base.Host.{
  Address, Symbol, ◌>>=◌, ◌>>◌, pure, gets, modify, trap_if, or_trap, dispute_already_open,
  no_dispute, no_open_dispute, schedule_missing,
}
use grainlify_stellar_contra.Base.{not}
use grainlify_stellar_contra.Program.State.{
  State, ProgramReleaseSchedule, open_, resolved, cancelled, DisputeScope, global, of_recipient,
  of_schedule, DisputeRecord, Event,
}
use grainlify_stellar_contra.Program.Guards.{
  Call, now, emit, load_program, require_admin, dispute_at, is_open, is_dispute_open_for_key,
}

-- `set` at the `DataKey` of a scope
abbrev pub set_dispute_at : DisputeScope → DisputeRecord → State → State
set_dispute_at global r s = record s { dispute = some r }
set_dispute_at (of_recipient a) r s = record s {
  recipient_disputes = insert a r s.recipient_disputes;
}
set_dispute_at (of_schedule i) r s = record s { schedule_disputes = insert i r s.schedule_disputes }

abbrev pub program_id_for_event : Call Symbol
program_id_for_event = do program ← load_program; pure program.program_id

abbrev pub opened_dispute : Address → ℕ → Symbol → DisputeRecord
opened_dispute admin time reason = record {
  opened_by = admin;
  opened_at = time;
  reason = reason;
  status = open_;
  resolved_by = none;
  resolved_at = none;
}

unfoldable pub open_dispute_at : DisputeScope → Symbol → Call (Unit {0})
unfolding is_dispute_open_for_key
open_dispute_at scope reason = do
  admin ← require_admin
  trap_if (← gets (is_dispute_open_for_key scope)) dispute_already_open
  program_id ← program_id_for_event
  time ← now
  modify (set_dispute_at scope (opened_dispute admin time reason))
  emit (Event.dispute_opened program_id scope admin reason time)

unfoldable pub resolve_dispute_at : DisputeScope → Call (Unit {0})
resolve_dispute_at scope = do
  admin ← require_admin
  found ← or_trap (← gets (dispute_at scope)) no_dispute
  trap_if (not (is_open (some found))) no_open_dispute
  program_id ← program_id_for_event
  time ← now
  modify (
      set_dispute_at scope
        (record found { status = resolved; resolved_by = some admin; resolved_at = some time }))
  emit (Event.dispute_resolved program_id scope admin time)

unfoldable pub cancel_dispute_at : DisputeScope → Call (Unit {0})
cancel_dispute_at scope = do
  admin ← require_admin
  found ← or_trap (← gets (dispute_at scope)) no_dispute
  trap_if (not (is_open (some found))) no_open_dispute
  program_id ← program_id_for_event
  time ← now
  modify (
      set_dispute_at scope
        (record found { status = cancelled; resolved_by = some admin; resolved_at = some time }))
  emit (Event.dispute_cancelled program_id scope admin time)

-- The search of `get_program_release_schedule`.
unfoldable pub find_schedule : ℕ → List ProgramReleaseSchedule → Option ProgramReleaseSchedule
find_schedule id [] = none
find_schedule id (x ∷ xs) =
    let rest = find_schedule id xs in if x.schedule_id == id then some x else rest

unfoldable pub get_program_release_schedule : ℕ → Call ProgramReleaseSchedule
get_program_release_schedule id = do
  or_trap (← gets (λ s. find_schedule id s.schedules)) schedule_missing

unfoldable pub open_dispute : Symbol → Call (Unit {0})
unfolding open_dispute_at
open_dispute reason = open_dispute_at global reason

unfoldable pub open_recipient_dispute : Address → Symbol → Call (Unit {0})
unfolding open_dispute_at
open_recipient_dispute recipient reason = open_dispute_at (of_recipient recipient) reason

unfoldable pub open_schedule_dispute : ℕ → Symbol → Call (Unit {0})
unfolding open_dispute_at get_program_release_schedule
open_schedule_dispute id reason = do
  get_program_release_schedule id
  open_dispute_at (of_schedule id) reason

unfoldable pub resolve_dispute : Call (Unit {0})
unfolding resolve_dispute_at
resolve_dispute = resolve_dispute_at global

unfoldable pub resolve_recipient_dispute : Address → Call (Unit {0})
unfolding resolve_dispute_at
resolve_recipient_dispute recipient = resolve_dispute_at (of_recipient recipient)

unfoldable pub resolve_schedule_dispute : ℕ → Call (Unit {0})
unfolding resolve_dispute_at
resolve_schedule_dispute id = resolve_dispute_at (of_schedule id)

unfoldable pub cancel_dispute : Call (Unit {0})
unfolding cancel_dispute_at
cancel_dispute = cancel_dispute_at global

unfoldable pub cancel_recipient_dispute : Address → Call (Unit {0})
unfolding cancel_dispute_at
cancel_recipient_dispute recipient = cancel_dispute_at (of_recipient recipient)

unfoldable pub cancel_schedule_dispute : ℕ → Call (Unit {0})
unfolding cancel_dispute_at
cancel_schedule_dispute id = cancel_dispute_at (of_schedule id)
