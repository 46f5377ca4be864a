-- ===== src/Bounty/AntiAbuse.antt =====
-- The rate limit of `mod anti_abuse` in bounty_escrow/contracts/escrow/src/lib.rs.
use grainlify_stellar_contra.Base.{
  ℕ, ◌+◌, ◌-◌, ◌^◌, Bool, Option, ltb, leb, ◌==◌, ◌&&◌, if◌then◌else◌, insert, unwrap_or,
}
use grainlify_stellar_contra.Base.Int.{saturating_add_u64}
use grainlify_stellar_contra.Base.Host.{
  Address, Action, ◌>>=◌, ◌>>◌, pure, trap, gets, asks, modify, trap_if, overflow, in_cooldown,
  rate_limit_exceeded,
}
use grainlify_stellar_contra.Bounty.State.{State, Error, AntiAbuseConfig, AddressState}

-- The value that a key of this module has before it is set.
abbrev pub default_abuse_config : AntiAbuseConfig
default_abuse_config = record { window_size = 3600; max_operations = 100; cooldown_period = 60 }

unfoldable pub set_whitelist_entry : Address → Bool → State → State
set_whitelist_entry a whitelisted s = record s {
  abuse_whitelist = λ b. if b == a then whitelisted else s.abuse_whitelist b;
}

-- The address's state before the call, which starts at `now`.
unfoldable pub load_address_state : Option AddressState → ℕ → AddressState
load_address_state o now =
    unwrap_or o
      (record { last_operation_timestamp = 0; window_start_timestamp = now; operation_count = 0 })

-- The cooldown check.
unfoldable pub is_cooling_down : AntiAbuseConfig → AddressState → ℕ → Bool
is_cooling_down config state now =
    ltb 0 state.last_operation_timestamp
    && ltb now (saturating_add_u64 state.last_operation_timestamp config.cooldown_period)

-- The window check: the state that the call leaves, or the trap.
unfoldable pub count_operation : AntiAbuseConfig → AddressState → Action State Error AddressState
count_operation config state = do
  now ← asks (λ e. e.timestamp)
  if leb (saturating_add_u64 state.window_start_timestamp config.window_size) now
      then pure (record {
        last_operation_timestamp = now;
        window_start_timestamp = now;
        operation_count = 1;
      })
      else if leb config.max_operations state.operation_count
      then trap rate_limit_exceeded
      else if ltb state.operation_count (2 ^ 32 - 1)
      then pure (record state {
        last_operation_timestamp = now;
        operation_count = state.operation_count + 1;
      })
      else trap overflow

unfoldable pub limit_address : Address → Action State Error (Unit {0})
unfolding load_address_state is_cooling_down count_operation
limit_address address = do
  config ← gets (λ s. s.abuse_config)
  now ← asks (λ e. e.timestamp)
  state ← gets (λ s. load_address_state (s.abuse_states address) now)
  trap_if (is_cooling_down config state now) in_cooldown
  state' ← count_operation config state
  modify (λ s. record s { abuse_states = insert address state' s.abuse_states })

unfoldable pub check_rate_limit : Address → Action State Error (Unit {0})
unfolding limit_address
check_rate_limit address = do
  whitelisted ← gets (λ s. s.abuse_whitelist address)
  if whitelisted then pure tt else limit_address address
