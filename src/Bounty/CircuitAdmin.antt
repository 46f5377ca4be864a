-- ===== src/Bounty/CircuitAdmin.antt =====
-- The entry points of bounty_escrow/contracts/escrow/src/lib.rs for its circuit breaker.
use grainlify_stellar_contra.Base.{ℕ, ◌==◌}
use grainlify_stellar_contra.Base.Host.{
  Address, ok, err, panic, overflow, ◌>>=◌, ◌>>◌, gets, modify, fail_if,
}
use grainlify_stellar_contra.Bounty.Circuit.{
  CircuitAction, CircuitBreakerConfig, CircuitState, Circuit, set_circuit_admin, set_config,
  reset_circuit_breaker,
}
use grainlify_stellar_contra.Bounty.State.{invalid_circuit_breaker_config}
use grainlify_stellar_contra.Bounty.Guards.{Call, get_admin, require_admin}

-- `error_recovery::CircuitBreakerStatus`
pub record CircuitBreakerStatus : Type 0 where
  pub state : CircuitState
  pub failure_count : ℕ
  pub success_count : ℕ
  pub last_failure_timestamp : ℕ
  pub opened_at : ℕ
  pub failure_threshold : ℕ
  pub success_threshold : ℕ

-- A call of the circuit breaker's module, none of which returns an error.
abbrev pub with_circuit : {A : Type 0} → CircuitAction A → Call A
with_circuit m e s = elim (m e s.circuit) [
  | ok (a, c) ↦ ok (a, record s { circuit = c })
  | err _ ↦ panic overflow
  | panic p ↦ panic p
]

unfoldable pub set_circuit_breaker_admin : Address → Call (Unit {0})
unfolding set_circuit_admin
set_circuit_breaker_admin admin = do
  require_admin
  current_circuit_admin ← gets (λ s. s.circuit.circuit_admin)
  with_circuit (set_circuit_admin admin current_circuit_admin)

unfoldable pub set_circuit_breaker_config :
    (failure_threshold success_threshold max_error_log : ℕ) → Call (Unit {0})
unfolding set_config
set_circuit_breaker_config failure_threshold success_threshold max_error_log = do
  fail_if (failure_threshold == 0) invalid_circuit_breaker_config
  require_admin
  let config : CircuitBreakerConfig = record {
    failure_threshold = failure_threshold;
    success_threshold = success_threshold;
    max_error_log = max_error_log;
  }
  modify (λ s. record s { circuit = set_config config s.circuit })

unfoldable pub reset_circuit : Address → Call (Unit {0})
unfolding reset_circuit_breaker
reset_circuit admin = do get_admin; with_circuit (reset_circuit_breaker admin)

abbrev pub get_status : Circuit → CircuitBreakerStatus
get_status c = record {
  state = c.state;
  failure_count = c.failure_count;
  success_count = c.success_count;
  last_failure_timestamp = c.last_failure_timestamp;
  opened_at = c.opened_at;
  failure_threshold = c.config.failure_threshold;
  success_threshold = c.config.success_threshold;
}
