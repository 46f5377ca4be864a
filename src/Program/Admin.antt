-- ===== src/Program/Admin.antt =====
-- Initialisation and administration in program-escrow/src/lib.rs: the program, the admin and its
-- rotation, pausing, the caps, the lists, the rate limits, governance and the circuit breaker.
use grainlify_stellar_contra.Base.{
  ℕ, Bool, false, not, Option, none, some, [], ltb, ◌==◌, if◌then◌else◌, is_some,
}
use grainlify_stellar_contra.Base.Int.{ℤ, pos, leb_ℤ}
use grainlify_stellar_contra.Base.Host.{
  Address, Hash, Symbol, Env, ◌>>=◌, ◌>>◌, pure, gets, asks, modify, trap_if, fail_if, or_trap,
  require_auth, already_initialized, admin_missing, no_pending_admin, not_pending_admin,
  cap_not_positive, zero_threshold, not_circuit_admin,
}
use grainlify_stellar_contra.Bounty.Circuit.{
  CircuitBreakerConfig, open_circuit, set_circuit_admin, set_config,
}
use grainlify_stellar_contra.Bounty.Circuit as Circuit
use grainlify_stellar_contra.Program.State.{
  State, ProgramData, Operation, lock, release, refund, Event, invalid_threshold_bps,
  governance_proposal_not_executable, upgrade_not_approved,
}
use grainlify_stellar_contra.Program.Guards.{
  Call, now, emit, on_circuit, track, sym_init, require_admin, check_governance_version,
  check_governance_requirements,
}

abbrev pub new_program : Symbol → Address → Address → ProgramData
new_program program_id payout_key token = record {
  program_id = program_id;
  total_funds = pos 0;
  remaining_balance = pos 0;
  authorized_payout_key = payout_key;
  payout_history = [];
  token_address = token;
}

unfoldable pub initialize_program : Symbol → Address → Address → Call ProgramData
initialize_program program_id payout_key token = do
  trap_if (is_some (← gets (λ s. s.program_data))) already_initialized
  let program = new_program program_id payout_key token
  modify (λ s. record s {
    program_data = some program;
    schedules = [];
    release_history = [];
    next_schedule_id = 1;
  })
  emit (Event.program_initialized program_id payout_key token)
  pure program

unfoldable pub init_program : Symbol → Address → Address → Call ProgramData
unfolding initialize_program track
init_program program_id payout_key token = do
  start ← now
  program ← initialize_program program_id payout_key token
  track sym_init payout_key start
  pure program

-- `setadmin` is the same but for its message.
unfoldable pub initialize_contract : Address → Call (Unit {0})
initialize_contract admin = do
  trap_if (is_some (← gets (λ s. s.admin))) already_initialized
  require_auth admin
  modify (λ s. record s { admin = some admin })

unfoldable pub setadmin : Address → Call (Unit {0})
setadmin admin = do
  trap_if (is_some (← gets (λ s. s.admin))) already_initialized
  require_auth admin
  modify (λ s. record s { admin = some admin })

unfoldable pub propose_admin : Address → Call (Unit {0})
propose_admin new_admin = do
  require_admin
  modify (λ s. record s { pending_admin = some new_admin })

unfoldable pub accept_admin : Address → Call (Unit {0})
accept_admin new_admin = do
  pending ← or_trap (← gets (λ s. s.pending_admin)) no_pending_admin
  trap_if (not (new_admin == pending)) not_pending_admin
  require_auth new_admin
  modify (λ s. record s { admin = some new_admin; pending_admin = none })

-- One switch of `set_paused`, with its event.
abbrev pub announce_pause : Operation → Option Bool → Address → Call (Unit {0})
announce_pause operation none admin = pure tt
announce_pause operation (some value) admin = emit (Event.pause_state_changed operation value admin)

abbrev pub changed_flag : Option Bool → Bool → Bool
changed_flag none old = old
changed_flag (some value) old = value

unfoldable pub set_paused : (lock release refund : Option Bool) → Call (Unit {0})
unfolding check_governance_requirements
set_paused l r f = do
  admin ← require_admin
  check_governance_requirements
  announce_pause lock l admin
  announce_pause release r admin
  announce_pause refund f admin
  modify (λ s. record s {
    pause_flags = record {
      lock_paused = changed_flag l s.pause_flags.lock_paused;
      release_paused = changed_flag r s.pause_flags.release_paused;
      refund_paused = changed_flag f s.pause_flags.refund_paused;
    };
  })

-- `governance_integration::check_upgrade_approval`
unfoldable pub check_upgrade_approval : Env → Hash → State → Bool
check_upgrade_approval e wasm_hash s = elim s.governance_contract [
  | none ↦ false
  | some governance ↦
      if check_governance_version e s then e.gov_is_upg_ok governance wasm_hash else false
]

unfoldable pub upgrade : Hash → Call (Unit {0})
unfolding check_upgrade_approval
upgrade new_wasm_hash = do
  admin ← require_admin
  e ← asks (λ e. e)
  fail_if (not (← gets (check_upgrade_approval e new_wasm_hash))) upgrade_not_approved
  modify (λ s. record s { installed_wasm = some new_wasm_hash })
  emit (Event.upgrade_executed new_wasm_hash admin)

-- `governance_integration::check_proposal_vetoed`
unfoldable pub check_proposal_vetoed : Env → ℕ → State → Bool
check_proposal_vetoed e id s = elim s.governance_contract [
  | none ↦ false
  | some governance ↦ e.gov_is_vetoed governance id
]

-- `governance_integration::execute_governance_proposal`
unfoldable pub try_governance_proposal : Env → ℕ → State → Bool
unfolding check_proposal_vetoed
try_governance_proposal e id s = elim s.governance_contract [
  | none ↦ false
  | some governance ↦
      if check_governance_version e s
      then if check_proposal_vetoed e id s then false else e.gov_execute_proposal governance id
      else false
]

unfoldable pub execute_governance_proposal : ℕ → Call (Unit {0})
unfolding check_governance_requirements try_governance_proposal
execute_governance_proposal id = do
  check_governance_requirements
  e ← asks (λ e. e)
  fail_if (not (← gets (try_governance_proposal e id))) governance_proposal_not_executable

unfoldable pub set_governance_contract : Address → Call (Unit {0})
set_governance_contract governance = do
  require_admin
  modify (λ s. record s { governance_contract = some governance })

unfoldable pub set_min_governance_version : ℕ → Call (Unit {0})
set_min_governance_version min_version = do
  require_admin
  modify (λ s. record s { min_governance_version = min_version })

-- `error_recovery::set_circuitadmin` is asked with the caller once there is a circuit admin.
unfoldable pub set_circuitadmin : Address → Option Address → Call (Unit {0})
unfolding set_circuit_admin
set_circuitadmin new_admin caller = do
  current ← gets (λ s. s.circuit.circuit_admin)
  (if is_some current then pure tt else (do require_admin; pure tt))
  on_circuit (set_circuit_admin new_admin caller)

-- The check with which the circuit admin's calls begin.
abbrev pub require_circuit_admin : Address → Call Address
require_circuit_admin caller = do
  require_auth caller
  admin ← or_trap (← gets (λ s. s.circuit.circuit_admin)) admin_missing
  trap_if (not (caller == admin)) not_circuit_admin
  pure admin

unfoldable pub reset_circuit_breaker : Address → Call (Unit {0})
unfolding Circuit.reset_circuit_breaker
reset_circuit_breaker caller = do
  admin ← require_circuit_admin caller
  on_circuit (Circuit.reset_circuit_breaker admin)

unfoldable pub configure_circuit_breaker : Address → CircuitBreakerConfig → Call (Unit {0})
unfolding set_config
configure_circuit_breaker caller config = do
  trap_if (config.failure_threshold == 0) zero_threshold
  require_circuit_admin caller
  modify (λ s. record s { circuit = set_config config s.circuit })

unfoldable pub emergency_open_circuit : Address → Call (Unit {0})
unfolding open_circuit
emergency_open_circuit caller = do
  require_circuit_admin caller
  e ← asks (λ e. e)
  modify (λ s. record s { circuit = open_circuit e s.circuit })

unfoldable pub update_rate_limit_config :
    (window_size max_operations cooldown : ℕ) → Call (Unit {0})
unfolding check_governance_requirements
update_rate_limit_config window max cooldown = do
  require_admin
  check_governance_requirements
  modify (λ s. record s {
    rate_limit_config = record {
      window_size = window;
      max_operations = max;
      cooldown_period = cooldown;
    };
  })

-- `if val <= 0 { panic!() }` of a cap that is set
abbrev pub check_cap : Option ℤ → Call (Unit {0})
check_cap none = pure tt
check_cap (some cap) = trap_if (leb_ℤ cap (pos 0)) cap_not_positive

unfoldable pub set_fund_cap_config : (max_total_funds max_single_lock : Option ℤ) → Call (Unit {0})
set_fund_cap_config total single = do
  require_admin
  check_cap total
  check_cap single
  modify (λ s. record s {
    fund_cap_config = record { max_total_funds = total; max_single_lock = single };
  })

unfoldable pub set_whitelist : Address → Bool → Call (Unit {0})
set_whitelist address listed = do
  require_admin
  modify (λ s. record s { whitelist = λ a. if a == address then listed else s.whitelist a })
  emit (Event.whitelist_changed address listed)

unfoldable pub set_whitelist_enforced : Bool → Call (Unit {0})
set_whitelist_enforced enabled = do
  require_admin
  modify (λ s. record s { whitelist_enforced = enabled })
  emit (Event.whitelist_enforcement_changed enabled)

unfoldable pub set_rate_limit_whitelist : Address → Bool → Call (Unit {0})
set_rate_limit_whitelist address listed = do
  require_admin
  modify (λ s. record s {
    rate_limit_whitelist = λ a. if a == address then listed else s.rate_limit_whitelist a;
  })

unfoldable pub set_large_payout_threshold : ℕ → Call (Unit {0})
set_large_payout_threshold threshold_bps = do
  require_admin
  fail_if (ltb 10000 threshold_bps) invalid_threshold_bps
  modify (λ s. record s { large_payout_threshold_bps = threshold_bps })
