-- ===== src/Bounty/Circuit/Breaker.antt =====
-- What the circuit breaker of error_recovery.rs does with failures, and how a retry ends.
use grainlify_stellar_contra.Base.{
  ℕ, zero, suc, ◌+◌, ◌^◌, ◌≡◌, ◌≤◌, ◌<◌, ◌⊎◌, refl, true, false, Option, none, some, List, [], ◌∷◌,
  arith, length, push_back, inl, inr, Option-cases,
}
use grainlify_stellar_contra.Base.Host.{Symbol, Env, ok, Outcome-cases, >>-eq_ok, ◌>>◌}
use grainlify_stellar_contra.Bounty.Circuit.{
  Circuit, open_, ErrorEntry, check_and_allow, open_circuit, close_circuit, record_success,
  record_success_half_open, trim_log, record_failure, failure_entry, err_circuit_open,
  err_retries_exhausted, err_none,
}
use grainlify_stellar_contra.Bounty.Circuit.Retry.{
  RetryConfig, RetryResult, retry_result, retry, execute_with_retry,
}

length-trim_log : (m : ℕ) (xs : List ErrorEntry) → length (trim_log m xs) ≤ m
unfolding trim_log
length-trim_log m [] = omega arith
length-trim_log m (x ∷ xs) = ground (arith, length-trim_log m xs)

-- A `record_failure` that succeeds counts one failure more, opens the circuit exactly when the
-- count reaches the threshold and else leaves its state, keeps the configuration, and keeps the log
-- within its bound.
pub record_failure-ok :
    (e : Env) (c c' : Circuit) (bounty_id : ℕ) (operation : Symbol) (code : ℕ)
    → record_failure bounty_id operation code e c ≡ ok (tt, c')
    → (c'.failure_count ≡ c.failure_count + 1)
      × (c'.config ≡ c.config)
      × (length c'.error_log ≤ c.config.max_error_log)
      × (((c.config.failure_threshold ≤ c'.failure_count) × (c'.state ≡ open_))
          ⊎ ((c'.failure_count < c.config.failure_threshold) × (c'.state ≡ c.state)))
unfolding record_failure open_circuit
record_failure-ok e c c' bounty_id operation code h = (
  ground arith,
  ground arith,
  ground (
    arith,
    length-trim_log c.config.max_error_log (
        push_back c.error_log
          (failure_entry bounty_id operation code e.timestamp (c.failure_count + 1))),
  ),
  ground arith,
)

-- The circuit is asked before each attempt: it is open, or lets the attempt through unchanged.
check_and_allow-cases :
    (e : Env) (c : Circuit)
    → (((check_and_allow e c).0 ≡ some err_circuit_open) × ((check_and_allow e c).1.state ≡ open_))
      ⊎ (((check_and_allow e c).0 ≡ none) × ((check_and_allow e c).1 ≡ c))
unfolding check_and_allow
check_and_allow-cases e c = ground arith

-- How the rounds that are left end.
abbrev Ends : (ℕ → Option ℕ) → (rounds attempts : ℕ) → RetryResult → Circuit → Type 0
Ends op rounds attempts r c =
    ((r.succeeded ≡ true)
      × (r.final_error ≡ err_none)
      × ((n : ℕ) × (r.attempts ≡ n + 1) × (attempts ≤ n) × (n < attempts + rounds) × (op n ≡ none)))
    ⊎ ((r.succeeded ≡ false)
        × (r.final_error ≡ err_circuit_open)
        × (attempts ≤ r.attempts)
        × (r.attempts < attempts + rounds)
        × (c.state ≡ open_))
    ⊎ ((r.succeeded ≡ false)
        × (r.final_error ≡ err_retries_exhausted)
        × (r.attempts ≡ attempts + rounds))

Ends-later :
    (op : ℕ → Option ℕ) (rounds attempts : ℕ) (r : RetryResult) (c : Circuit)
    → Ends op rounds (attempts + 1) r c
    → Ends op (suc rounds) attempts r c
Ends-later op rounds attempts r c (inl (yes_, clean, (n, is_n, low, high, done))) =
    inl (yes_, clean, (n, is_n, omega arith, omega arith, done))
Ends-later op rounds attempts r c (inr (inl (no_, code, low, high, opened))) =
    inr (inl (no_, code, omega arith, omega arith, opened))
Ends-later op rounds attempts r c (inr (inr (no_, code, all))) = inr (inr (no_, code, omega arith))

retry-Ends :
    (e : Env) (bounty_id : ℕ) (operation : Symbol) (op : ℕ → Option ℕ) (rounds attempts : ℕ)
    (c c' : Circuit) {r : RetryResult}
    → retry bounty_id operation op rounds attempts e c ≡ ok (r, c')
    → Ends op rounds attempts r c'
unfolding retry
retry-Ends e bounty_id operation op zero attempts c c' h =
    inr (inr (ground arith, ground arith, ground arith))
retry-Ends e bounty_id operation op (suc rounds) attempts c c' {r} h =
    elim (check_and_allow-cases e c) [
      | inl (refused, opened) ↦
          inr (inl (ground arith, ground arith, ground arith, ground arith, ground arith))
      | inr (allowed, same) ↦ elim (Option-cases (op attempts)) [
        | inl done ↦
            inl
              (ground arith, ground arith, (attempts, ground arith, omega arith, omega arith, done))
        | inr (code, failed) ↦
            let failing : (record_failure bounty_id operation code
                    >> retry bounty_id operation op rounds (attempts + 1))
                  e c
                ≡ ok (r, c') =
              ground arith in
            let (_, c1, _, rest) =
              >>-eq_ok (retry bounty_id operation op rounds (attempts + 1)) e
                (record_failure bounty_id operation code) c failing in
            Ends-later op rounds attempts r c'
              (retry-Ends e bounty_id operation op rounds (attempts + 1) c1 c' rest)
      ]
    ]

-- The counters have room for `rounds` more failures, and for a success.
abbrev pub HasRoom : ℕ → Circuit → Type 0
HasRoom rounds c = (c.failure_count + rounds < 2 ^ 32) × (c.success_count + 1 < 2 ^ 32)

record_failure-runs :
    (e : Env) (c : Circuit) (bounty_id : ℕ) (operation : Symbol) (code rounds : ℕ)
    → HasRoom (suc rounds) c
    → (c' : Circuit) × (record_failure bounty_id operation code e c ≡ ok (tt, c'))
      × HasRoom rounds c'
unfolding record_failure open_circuit
record_failure-runs e c bounty_id operation code rounds room =
    elim (Outcome-cases (record_failure bounty_id operation code e c)) [
      | inr (inl (x, failed)) ↦ absurd (ground arith)
      | inr (inr (x, failed)) ↦ absurd (ground arith)
      | inl (r, ran) ↦ (r.1, ground arith, ground arith)
    ]

record_success-runs :
    (e : Env) (c : Circuit) → HasRoom 0 c → (c' : Circuit) × (record_success e c ≡ ok (tt, c'))
unfolding record_success record_success_half_open close_circuit
record_success-runs e c room = elim (Outcome-cases (record_success e c)) [
  | inr (inl (x, failed)) ↦ absurd (ground arith)
  | inr (inr (x, failed)) ↦ absurd (ground arith)
  | inl (r, ran) ↦ (r.1, ground arith)
]

retry-runs :
    (e : Env) (bounty_id : ℕ) (operation : Symbol) (op : ℕ → Option ℕ) (rounds attempts : ℕ)
    (c : Circuit)
    → HasRoom rounds c
    → (r : RetryResult) × (c' : Circuit) × (retry bounty_id operation op rounds attempts e c
        ≡ ok (r, c'))
unfolding retry
retry-runs e bounty_id operation op zero attempts c room = (_, c, refl)
retry-runs e bounty_id operation op (suc rounds) attempts c room =
    elim (check_and_allow-cases e c) [
      | inl (refused, opened) ↦
          (retry_result false attempts err_circuit_open, (check_and_allow e c).1, ground arith)
      | inr (allowed, same) ↦ elim (Option-cases (op attempts)) [
        | inl done ↦
            let (c', ran) = record_success-runs e c (omega arith, room.1) in
            (retry_result true (attempts + 1) err_none, c', ground arith)
        | inr (code, failed) ↦
            let (c1, ran, room') = record_failure-runs e c bounty_id operation code rounds room in
            let (r, c', rest) =
              retry-runs e bounty_id operation op rounds (attempts + 1) c1 room' in
            (r, c', ground arith)
      ]
    ]

-- While the counters have room, `execute_with_retry` returns; it has made at most the attempts
-- configured, and reports a success at the attempt that succeeded, an open circuit, or that all
-- attempts were made.
pub execute_with_retry-ends :
    (e : Env) (config : RetryConfig) (bounty_id : ℕ) (operation : Symbol) (op : ℕ → Option ℕ)
    (c : Circuit)
    → HasRoom config.max_attempts c
    → (r : RetryResult) × (c' : Circuit) × (execute_with_retry config bounty_id operation op e c
        ≡ ok (r, c'))
      × (((r.succeeded ≡ true)
            × (r.final_error ≡ err_none)
            × ((n : ℕ) × (r.attempts ≡ n + 1) × (n < config.max_attempts) × (op n ≡ none)))
          ⊎ ((r.succeeded ≡ false)
              × (r.final_error ≡ err_circuit_open)
              × (r.attempts < config.max_attempts)
              × (c'.state ≡ open_))
          ⊎ ((r.succeeded ≡ false)
              × (r.final_error ≡ err_retries_exhausted)
              × (r.attempts ≡ config.max_attempts)))
unfolding execute_with_retry
execute_with_retry-ends e config bounty_id operation op c room =
    let (r, c', h) = retry-runs e bounty_id operation op config.max_attempts 0 c room in
    (
      r,
      c',
      h,
      elim (retry-Ends e bounty_id operation op config.max_attempts 0 c c' h) [
        | inl (good, clean, (n, is_n, low, high, done)) ↦
            inl (good, clean, (n, is_n, omega arith, done))
        | inr (inl (bad, code, low, high, opened)) ↦ inr (inl (bad, code, omega arith, opened))
        | inr (inr (bad, code, all)) ↦ inr (inr (bad, code, omega arith))
      ],
    )
