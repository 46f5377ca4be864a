-- ===== src/Bounty/Claim/Effects.antt =====
-- What a successful `claim` does.
use grainlify_stellar_contra.Base.{ℕ, ◌≡◌, some, arith}
use grainlify_stellar_contra.Base.Host.{Env, ok}
use grainlify_stellar_contra.Bounty.State.{State, Escrow, ClaimRecord}
use grainlify_stellar_contra.Bounty.Guards.{execute_token_transfer}
use grainlify_stellar_contra.Bounty.Payment.{Pays}
use grainlify_stellar_contra.Bounty.Claim.{check_claim, claim, claimed_escrow}

-- A successful `claim` pays the amount that the claim was recorded with.
pub claim-Pays :
    (e : Env) (s s' : State) (b : ℕ) {x : Escrow} {c : ClaimRecord}
    → claim b e s ≡ ok (tt, s')
    → s.escrows b ≡ some x
    → s.pending_claims b ≡ some c
    → Pays e s s' b x (claimed_escrow x) c.recipient c.amount
unfolding claim check_claim execute_token_transfer
claim-Pays e s s' b h k l = ground arith
