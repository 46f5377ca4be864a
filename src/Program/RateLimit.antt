-- ===== src/Program/RateLimit.antt =====
-- `mod anti_abuse` of program-escrow/src/lib.rs: the cooldown and the window of `check_rate_limit`.
use grainlify_stellar_contra.Base.{
  ℕ, ◌+◌, ◌-◌, ◌^◌, Bool, ◌&&◌, Option, ltb, leb, if◌then◌else◌, unwrap_or, insert,
}
use grainlify_stellar_contra.Base.Int.{saturating_add_u64}
use grainlify_stellar_contra.Base.Host.{
  Address, ◌>>=◌, ◌>>◌, pure, trap, gets, modify, trap_if, overflow, in_cooldown,
  rate_limit_exceeded,
}
use grainlify_stellar_contra.Program.State.{RateLimitConfig, RateLimitState}
use grainlify_stellar_contra.Program.Guards.{Call, now}

-- The state under an address's key, or the one that a first call at `time` starts from.
abbrev pub load_rate_state : Option RateLimitState → ℕ → RateLimitState
load_rate_state o time =
    unwrap_or o
      (record { last_operation_timestamp = 0; window_start_timestamp = time; operation_count = 0 })

abbrev pub is_in_cooldown : RateLimitConfig → RateLimitState → ℕ → Bool
is_in_cooldown config state time =
    ltb 0 state.last_operation_timestamp
    && ltb time (saturating_add_u64 state.last_operation_timestamp config.cooldown_period)

-- The window check: the state that the call leaves, or the trap.
unfoldable pub count_in_window : RateLimitConfig → RateLimitState → ℕ → Call RateLimitState
count_in_window config state time =
    if leb (saturating_add_u64 state.window_start_timestamp config.window_size) time
    then pure (record {
      last_operation_timestamp = time;
      window_start_timestamp = time;
      operation_count = 1;
    })
    else if leb config.max_operations state.operation_count
    then trap rate_limit_exceeded
    else if ltb state.operation_count (2 ^ 32 - 1)
    then pure (record state {
      last_operation_timestamp = time;
      operation_count = state.operation_count + 1;
    })
    else trap overflow

-- `check_rate_limit` for an address that is not on the list.
unfoldable pub limit_caller : Address → Call (Unit {0})
unfolding count_in_window
limit_caller address = do
  time ← now
  config ← gets (λ s. s.rate_limit_config)
  state ← gets (λ s. load_rate_state (s.rate_limit_states address) time)
  trap_if (is_in_cooldown config state time) in_cooldown
  state' ← count_in_window config state time
  modify (λ s. record s { rate_limit_states = insert address state' s.rate_limit_states })

unfoldable pub check_rate_limit : Address → Call (Unit {0})
unfolding limit_caller
check_rate_limit address = do
  listed ← gets (λ s. s.rate_limit_whitelist address)
  if listed then pure tt else limit_caller address
