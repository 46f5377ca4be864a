-- ===== src/Bounty/Circuit/Retry.antt =====
-- `execute_with_retry` of error_recovery.rs: an operation is tried until it succeeds, the circuit
-- opens, or the attempts are used up.
use grainlify_stellar_contra.Base.{ℕ, zero, suc, ◌+◌, Bool, true, false, Option, none, some}
use grainlify_stellar_contra.Base.Host.{Symbol, ◌>>=◌, ◌>>◌, pure, gets, asks, modify}
use grainlify_stellar_contra.Bounty.Circuit.{
  CircuitAction, check_and_allow, record_success, record_failure, err_none, err_retries_exhausted,
}

pub record RetryConfig : Type 0 where
  pub max_attempts : ℕ

-- `RetryConfig::default`
abbrev pub default_retry_config : RetryConfig
default_retry_config = record { max_attempts = 3 }

pub record RetryResult : Type 0 where
  pub succeeded : Bool
  pub attempts : ℕ
  pub final_error : ℕ

abbrev pub retry_result : Bool → ℕ → ℕ → RetryResult
retry_result succeeded attempts final_error = record {
  succeeded = succeeded;
  attempts = attempts;
  final_error = final_error;
}

-- The rounds that are left, after `attempts`. The closure is the sequence of its answers: `none` is
-- `Ok(())`, and `some code` is `Err(code)`.
unfoldable pub retry : ℕ → Symbol → (ℕ → Option ℕ) → ℕ → ℕ → CircuitAction RetryResult
retry bounty_id operation op zero attempts =
    pure (retry_result false attempts err_retries_exhausted)
retry bounty_id operation op (suc rounds) attempts = do
  e ← asks (λ e. e)
  answer ← gets (λ c. (check_and_allow e c).0)
  modify (λ c. (check_and_allow e c).1)
  elim answer [
    | some code ↦ pure (retry_result false attempts code)
    | none ↦ elim (op attempts) [
      | none ↦ record_success >> pure (retry_result true (attempts + 1) err_none)
      | some code ↦
          record_failure bounty_id operation code
          >> retry bounty_id operation op rounds (attempts + 1)
    ]
  ]

unfoldable pub execute_with_retry :
    RetryConfig → ℕ → Symbol → (ℕ → Option ℕ) → CircuitAction RetryResult
unfolding retry
execute_with_retry config bounty_id operation op =
    retry bounty_id operation op config.max_attempts 0
