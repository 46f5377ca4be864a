-- ===== src/Bounty/Cooldown.antt =====
-- The rate limit of `mod anti_abuse` in lib.rs, as `lock_funds` meets it.
use grainlify_stellar_contra.Base.{
  ℕ, ◌≡◌, ◌≤◌, ◌<◌, ◌⊎◌, false, some, arith, inl, inr, Option-cases,
}
use grainlify_stellar_contra.Base.Int.{ℤ, saturating_add_u64}
use grainlify_stellar_contra.Base.Host.{Address, Env, ok, Outcome-cases}
use grainlify_stellar_contra.Bounty.State.{State, AddressState}
use grainlify_stellar_contra.Bounty.AntiAbuse.{
  check_rate_limit, limit_address, load_address_state, is_cooling_down, count_operation,
}
use grainlify_stellar_contra.Bounty.Guards.{
  check_circuit, check_amount_policy, execute_token_transfer,
}
use grainlify_stellar_contra.Bounty.Lock.{lock_funds, store_escrow}
use grainlify_stellar_contra.Bounty.Analytics.{init_bounty_analytics}
use grainlify_stellar_contra.Bounty.Safety.{Fails}

-- A `check_rate_limit` that succeeds, for an address that is not exempt, is outside the cooldown,
-- records its time, leaves a count of at most the limit or the first of a new window, and leaves
-- the settings alone.
pub check_rate_limit-ok :
    (e : Env) (s s' : State) (a : Address)
    → s.abuse_whitelist a ≡ false
    → check_rate_limit a e s ≡ ok (tt, s')
    → (t : AddressState) × (s'.abuse_states a ≡ some t)
      × (t.last_operation_timestamp ≡ e.timestamp)
      × ((t.operation_count ≤ s.abuse_config.max_operations)
          ⊎ ((t.operation_count ≡ 1) × (t.window_start_timestamp ≡ e.timestamp)))
      × (is_cooling_down s.abuse_config
            (load_address_state (s.abuse_states a) e.timestamp)
            e.timestamp
          ≡ false)
      × (s'.abuse_config ≡ s.abuse_config)
      × (s'.abuse_whitelist ≡ s.abuse_whitelist)
unfolding check_rate_limit limit_address count_operation
check_rate_limit-ok e s s' a listed h = elim (Option-cases (s'.abuse_states a)) [
  | inl missing ↦ absurd (ground arith)
  | inr (t, k) ↦ (t, k, ground arith, ground arith, ground arith, ground arith, ground arith)
]

lock_funds-rated :
    (e : Env) (s s' : State) (d : Address) (b : ℕ) (a : ℤ) (l : ℕ)
    → lock_funds d b a l e s ≡ ok (tt, s')
    → (t : State) × (check_rate_limit d e s ≡ ok (tt, t))
      × (s'.abuse_states ≡ t.abuse_states)
      × (s'.abuse_config ≡ t.abuse_config)
      × (s'.abuse_whitelist ≡ t.abuse_whitelist)
unfolding lock_funds check_circuit check_amount_policy execute_token_transfer store_escrow
    init_bounty_analytics
lock_funds-rated e s s' d b a l h = elim (Outcome-cases (check_rate_limit d e s)) [
  | inr (inl (x, failed)) ↦ absurd (ground arith)
  | inr (inr (x, failed)) ↦ absurd (ground arith)
  | inl (r, ran) ↦ (r.1, ground arith, ground arith, ground arith, ground arith)
]

cooling_down-Fails :
    (e : Env) (s : State) (d : Address) (b : ℕ) (a : ℤ) (l : ℕ) {t : AddressState}
    → s.abuse_whitelist d ≡ false
    → s.abuse_states d ≡ some t
    → 0 < t.last_operation_timestamp
    → e.timestamp < saturating_add_u64 t.last_operation_timestamp s.abuse_config.cooldown_period
    → Fails (lock_funds d b a l e s)
unfolding lock_funds check_rate_limit limit_address is_cooling_down load_address_state
cooling_down-Fails e s d b a l listed k started early r h = ground arith

-- On the state that a `lock_funds` that succeeds leaves, at a time that is not zero and for a
-- depositor that is not exempt from the rate limit, no further `lock_funds` of that depositor
-- succeeds, for any bounty and amount, until the cooldown is over. It says nothing of
-- `batch_lock_funds`, which does not ask the rate limit.
pub lock_funds_cooldown :
    (e e' : Env) (s s' : State) (d : Address) (b b' : ℕ) (a a' : ℤ) (l l' : ℕ)
    → s.abuse_whitelist d ≡ false
    → 0 < e.timestamp
    → e'.timestamp < saturating_add_u64 e.timestamp s.abuse_config.cooldown_period
    → lock_funds d b a l e s ≡ ok (tt, s')
    → Fails (lock_funds d b' a' l' e' s')
lock_funds_cooldown e e' s s' d b b' a a' l l' listed started early h =
    let (t, rated, states, config, list) = lock_funds-rated e s s' d b a l h in
    let (st, k, last, _, _, same, same_list) = check_rate_limit-ok e s t d listed rated in
    cooling_down-Fails e' s' d b' a' l' {t = st} (rw (list, same_list) listed) (rw states k)
      (rw last started) (rw (last, config, same) early)
