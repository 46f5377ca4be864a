-- ===== src/Bounty/Lock/Effects.antt =====
-- What a successful `lock_funds` does.
use grainlify_stellar_contra.Base.{ℕ, ◌≡◌, [], arith}
use grainlify_stellar_contra.Base.Int.{ℤ}
use grainlify_stellar_contra.Base.Host.{Address, Env, ok}
use grainlify_stellar_contra.Bounty.State.{State, Escrow, locked}
use grainlify_stellar_contra.Bounty.Guards.{
  check_circuit, execute_token_transfer, check_amount_policy,
}
use grainlify_stellar_contra.Bounty.Payment.{Opens}
use grainlify_stellar_contra.Bounty.AntiAbuse.{check_rate_limit}
use grainlify_stellar_contra.Bounty.Lock.{lock_funds, store_escrow}

abbrev pub new_escrow : Address → ℤ → ℕ → Escrow
new_escrow depositor amount deadline = record {
  depositor = depositor;
  amount = amount;
  remaining_amount = amount;
  status = locked;
  deadline = deadline;
  refund_history = [];
}

-- A successful `lock_funds` opens one escrow.
pub lock_funds-Opens :
    (e : Env) (s s' : State) (d : Address) (b : ℕ) (a : ℤ) (l : ℕ)
    → lock_funds d b a l e s ≡ ok (tt, s')
    → Opens e s s' b (new_escrow d a l) d a
unfolding lock_funds store_escrow check_circuit check_amount_policy execute_token_transfer
    check_rate_limit
lock_funds-Opens e s s' d b a l h = ground arith
