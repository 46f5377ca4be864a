-- ===== src/Bounty/Circuit/Tests.antt =====
-- The circuit breaker of error_recovery.rs at concrete inputs.
use grainlify_stellar_contra.Base.{ℕ, ◌≡◌, refl, true, false, some, none, arith}
use grainlify_stellar_contra.Base.Int.{pos}
use grainlify_stellar_contra.Base.Host.{Env, ok, after}
use grainlify_stellar_contra.Bounty.Circuit.{initial_circuit}
use grainlify_stellar_contra.Base.{◌⊎◌, Option, ◌+◌, ◌<◌}
use grainlify_stellar_contra.Bounty.Circuit.{
  Circuit, open_, record_failure, trim_log, open_circuit, err_none, err_circuit_open,
  err_retries_exhausted,
}
use grainlify_stellar_contra.Bounty.Circuit.Retry.{
  RetryResult, default_retry_config, execute_with_retry,
}
use grainlify_stellar_contra.Bounty.Circuit.Breaker.{execute_with_retry-ends}

-- The host at a given time.
abbrev host : ℕ → Env
host time = record {
  timestamp = time;
  authorized = λ _. true;
  current_contract_address = 99;
  balance = λ _ _. pos 0;
  balance_after = λ _ _ _. pos 1000000;
  transfer_ok = λ _ _. true;
  gov_ver = λ _. 1;
  gov_version_numeric = λ _. 10000;
  gov_is_upg_ok = λ _ _. true;
  gov_is_vetoed = λ _ _. false;
  gov_execute_proposal = λ _ _. true;
}

-- Two failures have been counted, and a third opens the circuit.
abbrev shaky : Circuit
shaky = record initial_circuit { failure_count = 2 }

abbrev tripped : Circuit
unfolding record_failure open_circuit
tripped = after shaky (record_failure 3 0 1002 (host 1000) shaky)

tripped_runs : record_failure 3 0 1002 (host 1000) shaky ≡ ok (tt, tripped)
unfolding tripped trim_log
tripped_runs = refl

-- An operation that fails whenever it is tried.
abbrev never : ℕ → Option ℕ
never n = some 1002

execute_with_retry-ends_example :
    (r : RetryResult) × (c : Circuit) × (execute_with_retry default_retry_config 3 0 never
        (host 1000)
        shaky
      ≡ ok (r, c))
    × (((r.succeeded ≡ true)
          × (r.final_error ≡ err_none)
          × ((n : ℕ) × (r.attempts ≡ n + 1) × (n < 3) × (never n ≡ none)))
        ⊎ ((r.succeeded ≡ false)
            × (r.final_error ≡ err_circuit_open)
            × (r.attempts < 3)
            × (c.state ≡ open_))
        ⊎ ((r.succeeded ≡ false) × (r.final_error ≡ err_retries_exhausted) × (r.attempts ≡ 3)))
execute_with_retry-ends_example =
    execute_with_retry-ends (host 1000) default_retry_config 3 0 never shaky
      (omega arith, omega arith)
