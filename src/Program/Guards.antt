-- ===== src/Program/Guards.antt =====
-- What the entry points of program-escrow/src/lib.rs share: the guards, the token transfer, the
-- events, and the calls of the other modules.
use grainlify_stellar_contra.Base.{
  ℕ, ◌-◌, Bool, true, false, not, ◌||◌, Option, none, some, List, ◌∷◌, ltb, leb, if◌then◌else◌,
  is_some, length, count_where,
}
use grainlify_stellar_contra.Base.Int.{ℤ, pos, leb_ℤ, quot, checked_sub, checked_mul}
use grainlify_stellar_contra.Base.Host.{
  Address, Symbol, Transfer, Env, ok, err, panic, Action, ◌>>=◌, ◌>>◌, pure, gets, asks, modify,
  trap_if, fail_if, or_trap, require_auth, overflow, transfer_failed, reentrancy_detected,
  circuit_open, governance_too_low, program_missing, admin_missing,
}
use grainlify_stellar_contra.Bounty.Circuit.{CircuitAction, check_and_allow}
use grainlify_stellar_contra.Program.Monitoring.{MonitorAction, track_operation, emit_performance}
use grainlify_stellar_contra.Program.State.{
  State, Error, governance_version_too_low, ProgramData, ProgramReleaseSchedule, PauseFlags,
  Operation, lock, release, refund, undisputed, open_, resolved, cancelled, DisputeScope, global,
  of_recipient, of_schedule, DisputeRecord, Event,
}

abbrev pub Call : Type 0 → Type 0
Call = Action State Error

abbrev pub now : Call ℕ
now = asks (λ e. e.timestamp)

abbrev pub emit : Event → Call (Unit {0})
emit v = modify (λ s. record s { events = v ∷ s.events })

-- A call of the circuit breaker, none of which returns an error.
abbrev pub on_circuit : {A : Type 0} → CircuitAction A → Call A
on_circuit m e s = elim (m e s.circuit) [
  | ok (a, c) ↦ ok (a, record s { circuit = c })
  | err _ ↦ panic overflow
  | panic p ↦ panic p
]

-- A call of the monitoring module, none of which returns an error.
abbrev pub on_monitor : {A : Type 0} → MonitorAction A → Call A
on_monitor m e s = elim (m e s.monitor) [
  | ok (a, c) ↦ ok (a, record s { monitor = c })
  | err _ ↦ panic overflow
  | panic p ↦ panic p
]

-- The symbols of the operations that are tracked, and that failures are recorded with.
abbrev pub sym_init : Symbol
sym_init = 0

abbrev pub sym_lock : Symbol
sym_lock = 1

abbrev pub sym_batchpay : Symbol
sym_batchpay = 2

abbrev pub sym_payout : Symbol
sym_payout = 3

abbrev pub sym_batch_pay : Symbol
sym_batch_pay = 4

abbrev pub sym_sngl_pay : Symbol
sym_sngl_pay = 5

abbrev pub sym_trg_rels : Symbol
sym_trg_rels = 6

abbrev pub err_insufficient_balance : ℕ
err_insufficient_balance = 1003

-- The end of an entry point that began at `start`.
unfoldable pub track : Symbol → Address → ℕ → Call (Unit {0})
unfolding track_operation emit_performance
track operation caller start = do
  on_monitor (track_operation operation caller true)
  end ← now
  on_monitor (emit_performance operation (end - start))

-- `get(&PROGRAM_DATA)`, or the panic "Program not initialized"
abbrev pub load_program : Call ProgramData
load_program = do or_trap (← gets (λ s. s.program_data)) program_missing

abbrev pub store_program : ProgramData → Call (Unit {0})
store_program d = modify (λ s. record s { program_data = some d })

-- `requireadmin`
abbrev pub get_admin : Call Address
get_admin = do or_trap (← gets (λ s. s.admin)) admin_missing

-- The same with `admin.require_auth()`.
abbrev pub require_admin : Call Address
require_admin = do admin ← get_admin; require_auth admin; pure admin

unfoldable pub check_paused : PauseFlags → Operation → Bool
check_paused flags lock = flags.lock_paused
check_paused flags release = flags.release_paused
check_paused flags refund = flags.refund_paused

abbrev pub is_open : Option DisputeRecord → Bool
is_open none = false
is_open (some r) = elim r.status [
  | undisputed ↦ false
  | open_ ↦ true
  | resolved ↦ false
  | cancelled ↦ false
]

-- The record under the `DataKey` of a scope.
abbrev pub dispute_at : DisputeScope → State → Option DisputeRecord
dispute_at global s = s.dispute
dispute_at (of_recipient a) s = s.recipient_disputes a
dispute_at (of_schedule i) s = s.schedule_disputes i

unfoldable pub is_dispute_open_for_key : DisputeScope → State → Bool
is_dispute_open_for_key k s = is_open (dispute_at k s)

unfoldable pub is_schedule_scope_disputed : ℕ → Address → State → Bool
unfolding is_dispute_open_for_key
is_schedule_scope_disputed id recipient s =
    is_dispute_open_for_key (of_schedule id) s || is_dispute_open_for_key (of_recipient recipient) s

-- Whether the whitelist lets `a` be paid.
unfoldable pub is_payable : Address → State → Bool
is_payable a s = if s.whitelist_enforced then s.whitelist a else true

-- `governance_integration::check_governance_version`
unfoldable pub check_governance_version : Env → State → Bool
check_governance_version e s = elim s.governance_contract [
  | none ↦ true
  | some governance ↦
      if ltb 0 s.min_governance_version
      then leb s.min_governance_version (e.gov_ver governance)
      else true
]

unfoldable pub check_governance_requirements : Call (Unit {0})
unfolding check_governance_version
check_governance_requirements = do
  e ← asks (λ e. e)
  fail_if (not (← gets (check_governance_version e))) governance_version_too_low

-- The reentrancy guard's test and set, and its removal.
abbrev pub check_not_entered : Call (Unit {0})
check_not_entered = do trap_if (← gets (λ s. s.reentrancy_guard)) reentrancy_detected

abbrev pub set_entered : Call (Unit {0})
set_entered = modify (λ s. record s { reentrancy_guard = true })

abbrev pub clear_entered : Call (Unit {0})
clear_entered = modify (λ s. record s { reentrancy_guard = false })

-- The guard and the circuit breaker, with which every call that pays begins.
unfoldable pub enter : Call (Unit {0})
unfolding check_and_allow
enter = do
  check_not_entered
  set_entered
  e ← asks (λ e. e)
  trap_if (is_some (← gets (λ s. (check_and_allow e s.circuit).0))) circuit_open

-- What the two payouts check after `enter` and the recipients' disputes: the governance version,
-- the program, and the payout key's authorisation.
unfoldable pub open_payout : Call ProgramData
unfolding check_governance_version
open_payout = do
  e ← asks (λ e. e)
  trap_if (not (← gets (check_governance_version e))) governance_too_low
  program ← load_program
  require_auth program.authorized_payout_key
  pure program

-- `token::Client::transfer` of the program's token
unfoldable pub client_transfer : Address → Address → Address → ℤ → Call (Unit {0})
client_transfer token from to amount = do
  let t : Transfer = record { token = token; from = from; to = to; amount = amount }
  e ← asks (λ e. e)
  earlier ← gets (λ s. s.transfers)
  trap_if (not (e.transfer_ok earlier t)) transfer_failed
  modify (λ s. record s { transfers = t ∷ s.transfers })

-- How many schedules have not been released.
abbrev pub scheduled_count : List ProgramReleaseSchedule → ℕ
scheduled_count = count_where (λ x. not x.released)

unfoldable pub emit_aggregate_stats : ProgramData → Call (Unit {0})
emit_aggregate_stats d = do
  schedules ← gets (λ s. s.schedules)
  paid_out ← or_trap (checked_sub d.total_funds d.remaining_balance) overflow
  emit (
      Event.aggregate_stats d.program_id d.total_funds d.remaining_balance paid_out
        (length d.payout_history) (scheduled_count schedules))

-- `monitoring::get_large_payout_threshold_amount`
unfoldable pub get_large_payout_threshold_amount : ℤ → Call ℤ
get_large_payout_threshold_amount total_funds = do
  bps ← gets (λ s. s.large_payout_threshold_bps)
  share ← or_trap (checked_mul total_funds (pos bps)) overflow
  pure (quot share (pos 10000))

-- The announcement of a payout that reaches the threshold.
abbrev pub emit_large_payout : Symbol → Address → ℤ → ℤ → Call (Unit {0})
emit_large_payout program_id recipient amount threshold =
    if leb_ℤ threshold amount
    then emit (Event.large_payout program_id recipient amount threshold)
    else pure tt

unfoldable pub check_and_emit_large_payout : ProgramData → Address → ℤ → Call (Unit {0})
unfolding get_large_payout_threshold_amount
check_and_emit_large_payout d recipient amount = do
  threshold ← get_large_payout_threshold_amount d.total_funds
  emit_large_payout d.program_id recipient amount threshold
