-- ===== src/Bounty/Refund/Effects.antt =====
-- What a successful `refund`, or a round of a sweep, does.
use grainlify_stellar_contra.Base.{ℕ, ◌≡◌, some, none, arith, Option-cases, inl, inr}
use grainlify_stellar_contra.Base.Int.{pos, checked_sub_cases, ◌-ℤ◌, ◌≤ℤ◌, ◌<ℤ◌}
use grainlify_stellar_contra.Base.Host.{Address, Env, ok, >>=-eq_ok}
use grainlify_stellar_contra.Bounty.State.{State, Escrow}
use grainlify_stellar_contra.Bounty.Guards.{
  check_circuit, check_governance_requirements, execute_token_transfer, client_transfer,
}
use grainlify_stellar_contra.Bounty.Payment.{Pays}
use grainlify_stellar_contra.Bounty.Analytics.{update_analytics_on_refund}
use grainlify_stellar_contra.Bounty.Refund.{
  Plan, plan_refund, check_refund, pay_refund, refund, refunded_escrow, sweep_one, swept_escrow,
}

pub check_refund-ok :
    (e : Env) (s s' : State) (b : ℕ) {x : Escrow} {p : Plan}
    → check_refund b e s ≡ ok ((x, p), s')
    → (s' ≡ s)
      × (s.escrows b ≡ some x)
      × (s.pending_claims b ≡ none)
      × (p ≡ plan_refund x (s.refund_approvals b))
      × (pos 0 <ℤ p.refund_amount)
      × (p.refund_amount ≤ℤ x.remaining_amount)
unfolding check_refund check_circuit check_governance_requirements
check_refund-ok e s s' b h = ground arith

pub pay_refund-Pays :
    (e : Env) (s s' : State) (b : ℕ) (x : Escrow) (p : Plan)
    → pay_refund b x p e s ≡ ok (tt, s')
    → s.escrows b ≡ some x
    → Pays e s s' b x
        (refunded_escrow x p (x.remaining_amount -ℤ p.refund_amount) e.timestamp)
        p.refund_to
        p.refund_amount
unfolding pay_refund execute_token_transfer update_analytics_on_refund
pay_refund-Pays e s s' b x p h k =
    ground (arith, checked_sub_cases x.remaining_amount p.refund_amount)

-- A successful `refund` is a payment by the plan that the checks let through.
pub refund-ok :
    (e : Env) (s s' : State) (b : ℕ) {x : Escrow}
    → refund b e s ≡ ok (tt, s')
    → s.escrows b ≡ some x
    → let p = plan_refund x (s.refund_approvals b) in
      (s.pending_claims b ≡ none)
      × (pos 0 <ℤ p.refund_amount)
      × (p.refund_amount ≤ℤ x.remaining_amount)
      × (pay_refund b x p e s ≡ ok (tt, s'))
unfolding refund
refund-ok e s s' b {x} h k =
    let (c, t, l, m) = >>=-eq_ok (λ c. pay_refund b c.0 c.1) e (check_refund b) s h in
    let (same, found, free, planned, positive, covered) =
      check_refund-ok e s t b {x = c.0} {p = c.1} l in
    let escrow : c.0 ≡ x = cc in
    let plan : c.1 ≡ plan_refund x (s.refund_approvals b) = cc in
    (free, rw plan at positive, rw (escrow, plan) at covered, cc)

-- A successful `refund` pays what its plan says, out of what is left.
pub refund-Pays :
    (e : Env) (s s' : State) (b : ℕ) {x : Escrow}
    → refund b e s ≡ ok (tt, s')
    → s.escrows b ≡ some x
    → let p = plan_refund x (s.refund_approvals b) in
      Pays e s s' b x
        (refunded_escrow x p (x.remaining_amount -ℤ p.refund_amount) e.timestamp)
        p.refund_to
        p.refund_amount
refund-Pays e s s' b {x} h k = pay_refund-Pays e s s' b x _ (refund-ok e s s' b h k).3 k

-- A round of a sweep pays the depositor all that is left.
pub sweep_one-Pays :
    (e : Env) (s s' : State) (t : Address) (b : ℕ) {x : Escrow}
    → sweep_one t b e s ≡ ok (tt, s')
    → s.escrows b ≡ some x
    → s.token ≡ some t
    → Pays e s s' b x (swept_escrow x e.timestamp) x.depositor x.remaining_amount
unfolding sweep_one client_transfer update_analytics_on_refund
sweep_one-Pays e s s' t b h k l = ground arith

-- A successful round of a sweep has found its escrow and the token.
pub sweep_one-found :
    (e : Env) (s s' : State) (t : Address) (b : ℕ)
    → sweep_one t b e s ≡ ok (tt, s')
    → (x : Escrow) × (s.escrows b ≡ some x) × (s'.token ≡ s.token)
unfolding sweep_one client_transfer update_analytics_on_refund
sweep_one-found e s s' t b h = elim (Option-cases (s.escrows b)) [
  | inl none_there ↦ absurd (ground arith)
  | inr (x, found) ↦ (x, found, ground arith)
]
