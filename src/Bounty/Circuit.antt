-- ===== src/Bounty/Circuit.antt =====
-- The circuit breaker of bounty_escrow/contracts/escrow/src/error_recovery.rs, over its own keys.
-- A key that is absent reads as its default, which is the field's first value.
pub mod Retry
pub mod Breaker
mod Tests
use grainlify_stellar_contra.Base.{
  ℕ, ◌+◌, ◌-◌, ◌^◌, Bool, true, false, Option, none, some, List, [], ◌∷◌, leb, ltb, ◌==◌,
  if◌then◌else◌, length, push_back,
}
use grainlify_stellar_contra.Base.Host.{
  Address, Symbol, Env, not_circuit_admin, overflow, Action, ◌>>=◌, ◌>>◌, pure, trap, gets, asks,
  modify, require_auth, trap_if,
}

pub data CircuitState : Type 0 where
  closed open_ half_open : CircuitState

pub record CircuitBreakerConfig : Type 0 where
  pub failure_threshold : ℕ
  pub success_threshold : ℕ
  pub max_error_log : ℕ

pub record ErrorEntry : Type 0 where
  pub operation : Symbol
  pub bounty_id : ℕ
  pub error_code : ℕ
  pub timestamp : ℕ
  pub failure_count_at_time : ℕ

pub data CircuitEvent : Type 0 where
  cb_reject cb_fail cb_open cb_half cb_close : (value timestamp : ℕ) → CircuitEvent

-- `CircuitBreakerKey`, one field a key, and the events published.
pub record Circuit : Type 0 where
  pub state : CircuitState
  pub failure_count : ℕ
  pub last_failure_timestamp : ℕ
  pub opened_at : ℕ
  pub success_count : ℕ
  pub circuit_admin : Option Address
  pub config : CircuitBreakerConfig
  pub error_log : List ErrorEntry
  pub circuit_events : List CircuitEvent

-- `CircuitBreakerConfig::default`
abbrev pub default_config : CircuitBreakerConfig
default_config = record { failure_threshold = 3; success_threshold = 1; max_error_log = 10 }

abbrev pub initial_circuit : Circuit
initial_circuit = record {
  state = closed;
  failure_count = 0;
  last_failure_timestamp = 0;
  opened_at = 0;
  success_count = 0;
  circuit_admin = none;
  config = default_config;
  error_log = [];
  circuit_events = [];
}

abbrev pub err_circuit_open : ℕ
err_circuit_open = 1001

abbrev pub err_transfer_failed : ℕ
err_transfer_failed = 1002

abbrev pub err_retries_exhausted : ℕ
err_retries_exhausted = 1004

abbrev pub err_none : ℕ
err_none = 0

abbrev pub emit_circuit_event : CircuitEvent → Circuit → Circuit
emit_circuit_event v c = record c { circuit_events = v ∷ c.circuit_events }

-- The circuit's calls run on their own, so their errors are the codes of the module.
abbrev pub CircuitAction : Type 0 → Type 0
CircuitAction = Action Circuit ℕ

-- `check_and_allow`, with the error that a caller sees. The rejection event is part of the state
-- that a caller keeps only if it goes on, as `execute_with_retry` does.
unfoldable pub check_and_allow : Env → Circuit → Option ℕ × Circuit
check_and_allow e c = elim c.state [
  | open_ ↦ (some err_circuit_open, emit_circuit_event (cb_reject c.failure_count e.timestamp) c)
  | closed ↦ (none, c)
  | half_open ↦ (none, c)
]

unfoldable pub open_circuit : Env → Circuit → Circuit
open_circuit e c =
    emit_circuit_event (cb_open c.failure_count e.timestamp)
      (record c { state = open_; opened_at = e.timestamp; success_count = 0 })

unfoldable pub half_open_circuit : Env → Circuit → Circuit
half_open_circuit e c =
    emit_circuit_event (cb_half c.failure_count e.timestamp)
      (record c { state = half_open; success_count = 0 })

unfoldable pub close_circuit : Env → Circuit → Circuit
close_circuit e c =
    emit_circuit_event (cb_close 0 e.timestamp)
      (record c { state = closed; failure_count = 0; success_count = 0; opened_at = 0 })

-- The sum `n + 1` of a `u32`, which traps at the top of the range.
abbrev pub succ_u32 : ℕ → CircuitAction ℕ
succ_u32 n = if ltb n (2 ^ 32 - 1) then pure (n + 1) else trap overflow

record_success_half_open : CircuitAction (Unit {0})
unfolding close_circuit
record_success_half_open = do
  successes ← succ_u32 (← gets (λ c. c.success_count))
  modify (λ c. record c { success_count = successes })
  threshold ← gets (λ c. c.config.success_threshold)
  e ← asks (λ e. e)
  modify (λ c. if leb threshold successes then close_circuit e c else c)

unfoldable pub record_success : CircuitAction (Unit {0})
unfolding record_success_half_open
record_success = do
  state ← gets (λ c. c.state)
  elim state [
    | closed ↦ modify (λ c. record c { failure_count = 0; success_count = 0 })
    | half_open ↦ record_success_half_open
    | open_ ↦ pure tt
  ]

-- `while log.len() > max { log.remove(0); }`
unfoldable pub trim_log : ℕ → List ErrorEntry → List ErrorEntry
trim_log m [] = []
trim_log m (x ∷ xs) = let rest = trim_log m xs in if ltb m (length (x ∷ xs)) then rest else x ∷ xs

-- The entry that a failure leaves in the log.
abbrev pub failure_entry : ℕ → Symbol → ℕ → ℕ → ℕ → ErrorEntry
failure_entry bounty_id operation error_code now failures = record {
  operation = operation;
  bounty_id = bounty_id;
  error_code = error_code;
  timestamp = now;
  failure_count_at_time = failures;
}

unfoldable pub record_failure : ℕ → Symbol → ℕ → CircuitAction (Unit {0})
unfolding trim_log open_circuit
record_failure bounty_id operation error_code = do
  config ← gets (λ c. c.config)
  failures ← succ_u32 (← gets (λ c. c.failure_count))
  e ← asks (λ e. e)
  let entry = failure_entry bounty_id operation error_code e.timestamp failures
  modify (λ c. record c {
    failure_count = failures;
    last_failure_timestamp = e.timestamp;
    error_log = trim_log config.max_error_log (push_back c.error_log entry);
    circuit_events = cb_fail failures e.timestamp ∷ c.circuit_events;
  })
  modify (λ c. if leb config.failure_threshold failures then open_circuit e c else c)

is_circuit_admin : Option Address → Address → Bool
is_circuit_admin none a = false
is_circuit_admin (some b) a = b == a

unfoldable pub reset_circuit_breaker : Address → CircuitAction (Unit {0})
unfolding is_circuit_admin half_open_circuit close_circuit
reset_circuit_breaker admin = do
  stored ← gets (λ c. c.circuit_admin)
  trap_if (if is_circuit_admin stored admin then false else true) not_circuit_admin
  require_auth admin
  e ← asks (λ e. e)
  state ← gets (λ c. c.state)
  elim state [
    | open_ ↦ modify (half_open_circuit e)
    | half_open ↦ modify (close_circuit e)
    | closed ↦ modify (close_circuit e)
  ]

check_circuit_caller : Option Address → Option Address → CircuitAction (Unit {0})
check_circuit_caller none caller = pure tt
check_circuit_caller (some current) none = trap not_circuit_admin
check_circuit_caller (some current) (some c) =
    if c == current then require_auth current else trap not_circuit_admin

unfoldable pub set_circuit_admin : Address → Option Address → CircuitAction (Unit {0})
unfolding check_circuit_caller
set_circuit_admin new_admin caller = do
  check_circuit_caller (← gets (λ c. c.circuit_admin)) caller
  modify (λ c. record c { circuit_admin = some new_admin })

unfoldable pub set_config : CircuitBreakerConfig → Circuit → Circuit
set_config config c = record c { config = config }
