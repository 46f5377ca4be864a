-- ===== src/Bounty/Safety.antt =====
-- What the payout calls of lib.rs demand before they pay, and what a refund may leave behind.
use grainlify_stellar_contra.Base.{ℕ, ◌≡◌, ◌≤◌, ◌⊎◌, true, false, some, none, arith, ◌≢◌}
use grainlify_stellar_contra.Base.Int.{ℤ, pos, ◌-ℤ◌, ◌<ℤ◌}
use grainlify_stellar_contra.Base.Host.{Address, Env, ok}
use grainlify_stellar_contra.Bounty.State.{
  State, Escrow, locked, refunded, full, ClaimRecord, RefundApproval,
}
use grainlify_stellar_contra.Bounty.Guards.{
  check_governance_requirements, check_release_approval, execute_token_transfer,
}
use grainlify_stellar_contra.Bounty.Analytics.{update_analytics_on_release}
use grainlify_stellar_contra.Base.{length, Option-cases, inl, inr}
use grainlify_stellar_contra.Base.Int.{int_laws}
use grainlify_stellar_contra.Base.Host.{Outcome}
use grainlify_stellar_contra.Bounty.State.{ReleaseApproval, Error}
use grainlify_stellar_contra.Bounty.Release.{check_release, release_funds}
use grainlify_stellar_contra.Bounty.Claim.{check_claim, claim, paid_claim}
use grainlify_stellar_contra.Bounty.Refund.{refund, plan_refund, refunded_escrow}
use grainlify_stellar_contra.Bounty.Refund.Effects.{refund-Pays}

-- The call did not succeed.
abbrev pub Fails : {A : Type 0} → Outcome Error (A × State) → Type 0
Fails {A} o = (r : A × State) → o ≢ ok r

-- Enough signers have approved a release of `amount` from bounty `b`, where the amount calls for it.
abbrev pub IsApproved : State → ℕ → ℤ → Type 0
IsApproved s b amount =
    (amount <ℤ s.multisig_config.threshold_amount)
    ⊎ ((a : ReleaseApproval) × (s.release_approvals b ≡ some a)
        × (s.multisig_config.required_signatures ≤ length a.approvals))

-- `release_funds` succeeds only if the admin has signed, no claim is pending, the escrow is locked,
-- enough signers have approved where its amount calls for it, and the guard was free; it frees the
-- guard, uses the approval up, and leaves the claims alone.
pub release_funds-ok :
    (e : Env) (s s' : State) (b : ℕ) (c : Address) {x : Escrow}
    → s.escrows b ≡ some x
    → release_funds b c e s ≡ ok (tt, s')
    → ((a : Address) × (s.admin ≡ some a) × (e.authorized a ≡ true))
      × (s.pending_claims b ≡ none)
      × (x.status ≡ locked)
      × IsApproved s b x.amount
      × (s.reentrancy_guard ≡ false)
      × (s'.reentrancy_guard ≡ false)
      × (s'.release_approvals b ≡ none)
      × (s'.pending_claims ≡ s.pending_claims)
unfolding release_funds check_release check_governance_requirements check_release_approval
    execute_token_transfer update_analytics_on_release
release_funds-ok e s s' b c k h = (
  elim (Option-cases s.admin) [
    | inl missing ↦ absurd (ground arith)
    | inr (a, is_admin) ↦ (a, is_admin, ground arith)
  ],
  ground arith,
  ground arith,
  elim (Option-cases (s.release_approvals b)) [
    | inl missing ↦ inl (ground arith)
    | inr (a, recorded) ↦ ground arith
  ],
  ground arith,
  ground arith,
  ground arith,
  ground arith,
)

-- A `claim` succeeds only if its recipient has signed, within the window, and the claim is unpaid;
-- it marks the claim paid and frees the guard, which was free before.
pub claim-ok :
    (e : Env) (s s' : State) (b : ℕ) {d : ClaimRecord}
    → s.pending_claims b ≡ some d
    → claim b e s ≡ ok (tt, s')
    → (e.authorized d.recipient ≡ true)
      × (e.timestamp ≤ d.expires_at)
      × (d.claimed ≡ false)
      × (s'.pending_claims b ≡ some (paid_claim d))
      × (s.reentrancy_guard ≡ false)
      × (s'.reentrancy_guard ≡ false)
unfolding claim check_claim execute_token_transfer
claim-ok e s s' b k h = ground arith

-- A `refund` that succeeds under an approval of mode full for less than what is left marks the
-- escrow refunded with the rest still in it.
pub refund-strands :
    (e : Env) (s s' : State) (b : ℕ) {x : Escrow} {a : RefundApproval}
    → s.escrows b ≡ some x
    → s.refund_approvals b ≡ some a
    → a.mode ≡ full
    → a.amount <ℤ x.remaining_amount
    → refund b e s ≡ ok (tt, s')
    → (y : Escrow) × (s'.escrows b ≡ some y)
      × (y.status ≡ refunded)
      × (y.remaining_amount ≡ x.remaining_amount -ℤ a.amount)
      × (pos 0 <ℤ y.remaining_amount)
refund-strands e s s' b {x} {a} k l m less h =
    let paid = refund-Pays e s s' b h k in
    let p = plan_refund x (s.refund_approvals b) in
    let y = refunded_escrow x p (x.remaining_amount -ℤ p.refund_amount) e.timestamp in
    (y, rw paid.written (ground arith), ground arith, ground arith, rw l (omega int_laws))
