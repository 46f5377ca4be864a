-- ===== src/Bounty/Queries/Pages.antt =====
-- The queries of the escrows in bounty_escrow/contracts/escrow/src/lib.rs against each other, and
-- what `get_refund_eligibility` says of the refunds that succeed.
use grainlify_stellar_contra.Base.{ℕ, ◌≡◌, refl, ◌||◌, true, some, leb, is_some, arith}
use grainlify_stellar_contra.Base.Host.{Env, ok, >>=-eq_ok}
use grainlify_stellar_contra.Bounty.State.{State, Escrow}
use grainlify_stellar_contra.Bounty.Guards.{
  is_refundable, check_circuit, check_governance_requirements,
}
use grainlify_stellar_contra.Bounty.Refund.{refund, Plan, check_refund, pay_refund}
use grainlify_stellar_contra.Bounty.Queries.{get_refund_eligibility}

check_refund-eligible :
    (e : Env) (s s' : State) (b : ℕ) {x : Escrow} {p : Plan}
    → check_refund b e s ≡ ok ((x, p), s')
    → (s.escrows b ≡ some x)
      × (is_refundable x.status ≡ true)
      × ((leb x.deadline e.timestamp || is_some (s.refund_approvals b)) ≡ true)
unfolding check_refund check_circuit check_governance_requirements
check_refund-eligible e s s' b h = (ground arith, ground arith, ground arith)

-- Before a `refund` that succeeds, `get_refund_eligibility` of that bounty answers that a refund is
-- possible, with what remains and the approval that the refund goes by.
pub refund-IsEligible :
    (e : Env) (s s' : State) (b : ℕ)
    → refund b e s ≡ ok (tt, s')
    → (x : Escrow) × (s.escrows b ≡ some x)
      × (get_refund_eligibility b e s
          ≡ ok ((true, leb x.deadline e.timestamp, x.remaining_amount, s.refund_approvals b), s))
unfolding refund get_refund_eligibility
refund-IsEligible e s s' b h =
    let (c, t, l, m) = >>=-eq_ok (λ c. pay_refund b c.0 c.1) e (check_refund b) s h in
    let (found, open_, due) = check_refund-eligible e s t b {x = c.0} {p = c.1} l in
    (c.0, found, rw (found, open_, due) refl)
