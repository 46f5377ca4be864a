-- ===== src/Bounty/Release/Effects.antt =====
-- What a successful `release_funds` or `partial_release` does.
use grainlify_stellar_contra.Base.{ℕ, ◌≡◌, true, some, none, arith}
use grainlify_stellar_contra.Base.Int.{ℤ, pos, checked_sub_cases, ◌-ℤ◌, ◌≤ℤ◌, ◌<ℤ◌}
use grainlify_stellar_contra.Base.Host.{Address, Env, ok}
use grainlify_stellar_contra.Bounty.State.{State, Escrow, locked}
use grainlify_stellar_contra.Bounty.Guards.{
  check_circuit, check_governance_requirements, check_release_approval, execute_token_transfer,
}
use grainlify_stellar_contra.Bounty.Payment.{Pays}
use grainlify_stellar_contra.Bounty.Analytics.{update_analytics_on_release}
use grainlify_stellar_contra.Bounty.Release.{
  check_release, release_funds, released_escrow, check_partial_release, partial_release,
  partly_released_escrow,
}

pub check_release-ok :
    (e : Env) (s s' : State) (b : ℕ) {a : Address} {x : Escrow}
    → check_release b e s ≡ ok ((a, x), s')
    → (s' ≡ s)
      × (s.admin ≡ some a)
      × (e.authorized a ≡ true)
      × (s.pending_claims b ≡ none)
      × (s.escrows b ≡ some x)
      × (x.status ≡ locked)
unfolding check_release check_governance_requirements check_release_approval
check_release-ok e s s' b h = ground arith

-- A successful `release_funds` pays the amount that was locked at the start.
pub release_funds-Pays :
    (e : Env) (s s' : State) (b : ℕ) (c : Address) {x : Escrow}
    → release_funds b c e s ≡ ok (tt, s')
    → s.escrows b ≡ some x
    → Pays e s s' b x (released_escrow x) c x.amount
unfolding release_funds check_release check_governance_requirements check_release_approval
    execute_token_transfer update_analytics_on_release
release_funds-Pays e s s' b c h k = ground arith

pub check_partial_release-ok :
    (e : Env) (s s' : State) (b : ℕ) (p : ℤ) {x : Escrow}
    → check_partial_release b p e s ≡ ok (x, s')
    → (s' ≡ s)
      × (s.pending_claims b ≡ none)
      × (s.escrows b ≡ some x)
      × (x.status ≡ locked)
      × (pos 0 <ℤ p)
      × (p ≤ℤ x.remaining_amount)
unfolding check_partial_release check_circuit check_governance_requirements check_release_approval
check_partial_release-ok e s s' b p h = ground arith

-- A successful `partial_release` pays what it is asked to, out of what is left.
pub partial_release-Pays :
    (e : Env) (s s' : State) (b : ℕ) (c : Address) (p : ℤ) {x : Escrow}
    → partial_release b c p e s ≡ ok (tt, s')
    → s.escrows b ≡ some x
    → Pays e s s' b x (partly_released_escrow x (x.remaining_amount -ℤ p)) c p
unfolding partial_release check_partial_release check_circuit check_governance_requirements
    check_release_approval execute_token_transfer update_analytics_on_release
partial_release-Pays e s s' b c p {x} h k = ground (arith, checked_sub_cases x.remaining_amount p)
