-- ===== src/Bounty/Solvency.antt =====
-- Solvency of the escrow contract: how each call that moves tokens changes what the contract holds
-- beyond what its escrows owe. A transfer counts as made when the token contract accepts it.
use grainlify_stellar_contra.Base.{arith, ◌∙◌, Option-cases, inl, inr, ℕ, ◌≡◌, some, ◌≢◌}
use grainlify_stellar_contra.Base.Int.{ℤ, ◌+ℤ◌, ◌<ℤ◌}
use grainlify_stellar_contra.Base.Host.{Address, Env, ok}
use grainlify_stellar_contra.Bounty.State.{State, Escrow, ClaimRecord}
use grainlify_stellar_contra.Base.Int.{int_laws, exact_payment, exact_deposit}
use grainlify_stellar_contra.Bounty.Accounts.{
  surplus, IsIndexed, Pays-surplus, Pays-IsIndexed, Opens-surplus, Opens-IsIndexed,
}
use grainlify_stellar_contra.Bounty.Lock.{lock_funds}
use grainlify_stellar_contra.Bounty.Lock.Effects.{lock_funds-Opens}
use grainlify_stellar_contra.Bounty.Release.{release_funds, partial_release}
use grainlify_stellar_contra.Bounty.Release.Effects.{release_funds-Pays, partial_release-Pays}
use grainlify_stellar_contra.Bounty.Claim.{claim, authorize_claim}
use grainlify_stellar_contra.Bounty.Claim.Effects.{claim-Pays}
use grainlify_stellar_contra.Bounty.Refund.{refund, plan_refund}
use grainlify_stellar_contra.Bounty.Refund.Effects.{refund-Pays}

-- Where the index lists every escrow once and nothing else, a `lock_funds` that succeeds, for a
-- depositor that is not the contract itself, keeps the index so and leaves the surplus as it was.
pub lock_funds-surplus :
    (e : Env) (s s' : State) (d : Address) (b : ℕ) (a : ℤ) (l : ℕ)
    → IsIndexed s
    → d ≢ e.current_contract_address
    → lock_funds d b a l e s ≡ ok (tt, s')
    → IsIndexed s' × (surplus e s' ≡ surplus e s)
lock_funds-surplus e s s' d b a l v ne h =
    let p = lock_funds-Opens e s s' d b a l h in
    (Opens-IsIndexed e s s' b _ d a v p, grind (int_laws, Opens-surplus e s s' b _ d a v p ne))

-- Where the index lists every escrow once and nothing else, a `partial_release` that succeeds, to a
-- contributor that is not the contract itself, keeps the index so and the surplus: it pays exactly
-- what the escrow owes less afterwards.
pub partial_release-surplus :
    (e : Env) (s s' : State) (b : ℕ) (c : Address) (p : ℤ) {x : Escrow}
    → IsIndexed s
    → c ≢ e.current_contract_address
    → s.escrows b ≡ some x
    → partial_release b c p e s ≡ ok (tt, s')
    → IsIndexed s' × (surplus e s' ≡ surplus e s)
partial_release-surplus e s s' b c p {x} v ne k h =
    let q = partial_release-Pays e s s' b c p h k in
    (
      Pays-IsIndexed e s s' b x _ c p v q,
      exact_payment _ _ x.remaining_amount p (Pays-surplus e s s' b x _ c p v q ne),
    )

-- Where the index lists every escrow once and nothing else, a `refund` that succeeds, to a
-- recipient that is not the contract itself, keeps the index so and the surplus: it pays exactly
-- what the escrow owes less afterwards.
pub refund-surplus :
    (e : Env) (s s' : State) (b : ℕ) {x : Escrow}
    → IsIndexed s
    → (plan_refund x (s.refund_approvals b)).refund_to ≢ e.current_contract_address
    → s.escrows b ≡ some x
    → refund b e s ≡ ok (tt, s')
    → IsIndexed s' × (surplus e s' ≡ surplus e s)
refund-surplus e s s' b {x} v ne k h =
    let q = refund-Pays e s s' b h k in
    (
      Pays-IsIndexed e s s' b x _ _ _ v q,
      exact_payment _ _ x.remaining_amount _ (Pays-surplus e s s' b x _ _ _ v q ne),
    )

-- Where the index lists every escrow once and nothing else, a `release_funds` that succeeds, to a
-- contributor that is not the contract itself, keeps the index so and changes the surplus by the
-- difference between the remaining amount and the amount first locked.
pub release_funds-surplus :
    (e : Env) (s s' : State) (b : ℕ) (c : Address) {x : Escrow}
    → IsIndexed s
    → c ≢ e.current_contract_address
    → s.escrows b ≡ some x
    → release_funds b c e s ≡ ok (tt, s')
    → IsIndexed s' × (surplus e s' +ℤ x.amount ≡ surplus e s +ℤ x.remaining_amount)
release_funds-surplus e s s' b c {x} v ne k h =
    let q = release_funds-Pays e s s' b c h k in
    (Pays-IsIndexed e s s' b x _ _ _ v q, grind (int_laws, Pays-surplus e s s' b x _ _ _ v q ne))

-- Where the index lists every escrow once and nothing else, a `release_funds` that succeeds on an
-- escrow whose remaining amount is below the amount first locked, to a contributor other than the
-- contract, lowers the surplus: it pays tokens that other escrows are owed.
pub release_funds_overpays :
    (e : Env) (s s' : State) (b : ℕ) (c : Address) {x : Escrow}
    → IsIndexed s
    → c ≢ e.current_contract_address
    → s.escrows b ≡ some x
    → x.remaining_amount <ℤ x.amount
    → release_funds b c e s ≡ ok (tt, s')
    → surplus e s' <ℤ surplus e s
release_funds_overpays e s s' b c v ne k less h =
    grind (int_laws, release_funds-surplus e s s' b c v ne k h)

-- Where the index lists every escrow once and nothing else, a `claim` that succeeds, for a
-- recipient that is not the contract itself, keeps the index so and changes the surplus by the
-- difference between what the escrow owes and what the claim was recorded with.
pub claim-surplus :
    (e : Env) (s s' : State) (b : ℕ) {x : Escrow} {c : ClaimRecord}
    → IsIndexed s
    → c.recipient ≢ e.current_contract_address
    → s.escrows b ≡ some x
    → s.pending_claims b ≡ some c
    → claim b e s ≡ ok (tt, s')
    → IsIndexed s' × (surplus e s' +ℤ c.amount ≡ surplus e s +ℤ x.remaining_amount)
claim-surplus e s s' b {x} {c} v ne k l h =
    let q = claim-Pays e s s' b h k l in
    (Pays-IsIndexed e s s' b x _ _ _ v q, grind (int_laws, Pays-surplus e s s' b x _ _ _ v q ne))

authorize_claim-ok :
    (e : Env) (s s' : State) (b : ℕ) (r : Address)
    → authorize_claim b r e s ≡ ok (tt, s')
    → (x : Escrow) × (c : ClaimRecord) × (s'.escrows b ≡ some x)
      × (s'.pending_claims b ≡ some c)
      × (c.recipient ≡ r)
      × (c.amount ≡ x.remaining_amount)
unfolding authorize_claim
authorize_claim-ok e s s' b r h = elim (Option-cases (s'.escrows b)) [
  | inl missing ↦ absurd (ground arith)
  | inr (x, k) ↦ elim (Option-cases (s'.pending_claims b)) [
    | inl missing ↦ absurd (ground arith)
    | inr (c, l) ↦ (x, c, k, l, ground arith, ground arith)
  ]
]

-- After an `authorize_claim` that succeeds for a recipient that is not the contract itself, and as
-- long as the escrow and the claim of the bounty are as it left them and the index lists every
-- escrow once and nothing else, a `claim` that succeeds leaves the surplus as it was.
pub authorized_claim-surplus :
    (e e' : Env) (s s' t t' : State) (b : ℕ) (r : Address)
    → r ≢ e'.current_contract_address
    → authorize_claim b r e s ≡ ok (tt, s')
    → IsIndexed t
    → t.escrows b ≡ s'.escrows b
    → t.pending_claims b ≡ s'.pending_claims b
    → claim b e' t ≡ ok (tt, t')
    → surplus e' t' ≡ surplus e' t
authorized_claim-surplus e e' s s' t t' b r ne h v same same' paid =
    let (x, c, k, l, to, all) = authorize_claim-ok e s s' b r h in
    let other : c.recipient ≢ e'.current_contract_address = rw to ne in
    let (_, change) = claim-surplus e' t t' b v other (same ∙ k) (same' ∙ l) paid in
    exact_deposit _ _ x.remaining_amount (rw all at change)
