-- ===== src/Bounty/Admin/Pausing.antt =====
-- What the emergency pause of lib.rs stops, and what fees can come to.
use grainlify_stellar_contra.Base.{
  ℕ, ◌*◌, ◌/◌, ◌≡◌, ◌≤◌, true, List, arith, inl, inr, Bool-cases, Option-cases, ◌==◌,
}
use grainlify_stellar_contra.Base.Int.{ℤ, pos, checked_mul, quot, ◌*ℤ◌}
use grainlify_stellar_contra.Base.Host.{Address, Env, ok, >>-eq_ok, ◌>>=◌, ◌>>◌, pure}
use native.Mathlib.Nat.{mul-le-mul_left}
use grainlify_stellar_contra.Bounty.State.{State, Error, LockFundsItem, ReleaseFundsItem}
use grainlify_stellar_contra.Bounty.Guards.{
  check_paused, execute_token_transfer, check_governance_requirements, check_circuit,
  check_release_approval, check_amount_policy, validate_unique_bounty_ids, leave,
}
use grainlify_stellar_contra.Bounty.AntiAbuse.{check_rate_limit}
use grainlify_stellar_contra.Bounty.Lock.{lock_funds}
use grainlify_stellar_contra.Bounty.Release.{
  release_funds, partial_release, check_partial_release, check_release,
}
use grainlify_stellar_contra.Bounty.Claim.{claim, check_claim}
use grainlify_stellar_contra.Bounty.Refund.{
  refund, check_refund, pay_refund, open_sweep, check_sweep, sweep_expired_refunds, enter_sweep,
  sweep_loop,
}
use grainlify_stellar_contra.Bounty.Refund.Solvency.{check_sweep-ok, open_sweep-same}
use grainlify_stellar_contra.Bounty.Batch.{
  batch_lock_funds, check_batch_lock, enter_batch_lock, batch_release_funds, check_batch_release,
  enter_batch_release,
}
use grainlify_stellar_contra.Bounty.Safety.{Fails}
use grainlify_stellar_contra.Bounty.Admin.{set_emergency_pause, calculate_fee}

-- Every call that moves tokens fails in the storage `s`.
abbrev pub IsHalted : Env → State → Type 0
IsHalted e s =
    ((d : Address) (b : ℕ) (a : ℤ) (l : ℕ) → Fails (lock_funds d b a l e s))
    × ((is : List LockFundsItem) → Fails (batch_lock_funds is e s))
    × ((b : ℕ) (c : Address) → Fails (release_funds b c e s))
    × ((b : ℕ) (c : Address) (a : ℤ) → Fails (partial_release b c a e s))
    × ((is : List ReleaseFundsItem) → Fails (batch_release_funds is e s))
    × ((b : ℕ) → Fails (claim b e s))
    × ((b : ℕ) → Fails (refund b e s))
    × ((ids : List ℕ) → Fails (sweep_expired_refunds ids e s))

sweep_paused :
    (e : Env) (s : State) (ids : List ℕ)
    → s.pause_flags.global_paused ≡ true
    → Fails (sweep_expired_refunds ids e s)
unfolding sweep_expired_refunds enter_sweep check_paused
sweep_paused e s ids paused r h =
    let finish = λ (n : ℕ). leave >> pure {S = State} {E = Error} n in
    let loop = λ (t : Address). sweep_loop t ids >>= finish in
    let (_, s1, opened, h1) =
      >>-eq_ok (check_sweep ids >> (enter_sweep >>= loop)) e (open_sweep ids) s h in
    let (_, s2, checked, h2) = >>-eq_ok (enter_sweep >>= loop) e (check_sweep ids) s1 h1 in
    let same1 = open_sweep-same e s s1 ids opened in
    let (same2, all) = check_sweep-ok e s s2 ids (rw same1 at checked) in ground arith

paused-IsHalted : (e : Env) (s : State) → s.pause_flags.global_paused ≡ true → IsHalted e s
unfolding lock_funds batch_lock_funds check_batch_lock enter_batch_lock release_funds check_release
    partial_release check_partial_release batch_release_funds check_batch_release
    enter_batch_release claim check_claim refund check_refund pay_refund execute_token_transfer
    check_paused check_circuit check_governance_requirements check_release_approval
    check_amount_policy check_rate_limit validate_unique_bounty_ids
paused-IsHalted e s paused = (
  λ d b a l r h. ground arith,
  λ is r h. ground arith,
  λ b c r h. ground arith,
  λ b c a r h. ground arith,
  λ is r h. ground arith,
  λ b r h. ground arith,
  λ b r h. ground arith,
  λ ids. sweep_paused e s ids paused,
)

-- After a `set_emergency_pause(true)` that succeeds, no call locks, releases, claims, refunds or
-- sweeps anything in the storage that it leaves, alone or in a batch, by anyone at any time.
pub emergency_pause-IsHalted :
    (e e' : Env) (s s' : State) → set_emergency_pause true e s ≡ ok (tt, s') → IsHalted e' s'
unfolding set_emergency_pause check_governance_requirements
emergency_pause-IsHalted e e' s s' h = paused-IsHalted e' s' (ground arith)

-- A fee of a rate from 0 to the maximum of 5000, on an amount that is not negative, is not negative
-- and at most half of the amount.
pub calculate_fee_bound :
    (amount rate : ℕ)
    → rate ≤ 5000
    → (fee : ℕ) × (calculate_fee (pos amount) (pos rate) ≡ pos fee) × (fee * 2 ≤ amount)
unfolding calculate_fee checked_mul ◌*ℤ◌ quot
calculate_fee_bound amount rate h =
    let bound = mul-le-mul_left amount h in
    elim (Bool-cases (rate == 0)) [
      | inl none_ ↦ (0, ground arith, omega arith)
      | inr some_ ↦ elim (Option-cases (checked_mul (pos amount) (pos rate))) [
        | inl large ↦ (0, ground arith, omega arith)
        | inr (x, fits) ↦ (amount * rate / 10000, ground arith, omega arith)
      ]
    ]
