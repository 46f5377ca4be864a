-- ===== src/Bounty/Blocking.antt =====
-- What stops the calls of lib.rs that pay a bounty out, alone or in a batch: a pause, a pending
-- claim, and that the bounty is settled.
use grainlify_stellar_contra.Base.{
  ℕ, ◌≡◌, ◌⊎◌, refl, true, some, none, arith, inl, inr, List, [], ◌∷◌, All, All-contains, contains,
}
use grainlify_stellar_contra.Base.Int.{ℤ}
use grainlify_stellar_contra.Base.Host.{Address, Env, ok, >>=-eq_ok, >>-eq_ok, ◌>>=◌, ◌>>◌, pure}
use grainlify_stellar_contra.Bounty.State.{
  State, Error, Escrow, locked, released, refunded, ClaimRecord, Operation, ReleaseFundsItem, Event,
}
use grainlify_stellar_contra.Bounty.Guards.{
  check_paused, check_circuit, check_governance_requirements, check_release_approval,
  execute_token_transfer, validate_unique_bounty_ids, leave, now, emit,
}
use grainlify_stellar_contra.Bounty.Release.{
  check_release, release_funds, released_escrow, check_partial_release, partial_release,
}
use grainlify_stellar_contra.Bounty.Release.Effects.{release_funds-Pays}
use grainlify_stellar_contra.Bounty.Claim.{
  check_claim, claim, claimed_escrow, paid_claim, authorize_claim,
}
use grainlify_stellar_contra.Bounty.Claim.Effects.{claim-Pays}
use grainlify_stellar_contra.Bounty.Refund.{
  check_refund, refund, open_sweep, check_sweep, enter_sweep, sweep_loop, sweep_expired_refunds,
}
use grainlify_stellar_contra.Bounty.Refund.Solvency.{CanSweep, check_sweep-ok, open_sweep-same}
use grainlify_stellar_contra.Bounty.Batch.{
  release_ids, release_items, enter_batch_release, check_batch_release, batch_release_funds,
}
use grainlify_stellar_contra.Bounty.Batch.Checks.{CanRelease, check_batch_release-ok}
use grainlify_stellar_contra.Bounty.Safety.{Fails, release_funds-ok, claim-ok}

-- What a batch asks of a bounty that it releases.
abbrev pub CanReleaseId : State → ℕ → Type 0
CanReleaseId s b =
    (x : Escrow) × (s.escrows b ≡ some x) × (x.status ≡ locked) × (s.pending_claims b ≡ none)

All-release_ids :
    (s : State) (is : List ReleaseFundsItem)
    → All (CanRelease s) is
    → All (CanReleaseId s) (release_ids is)
All-release_ids s [] h = tt
All-release_ids s (i ∷ is) h = (h.0, All-release_ids s is h.1)

batch_release-needs :
    (e : Env) (s s' : State) (is : List ReleaseFundsItem) (b : ℕ) {n : ℕ}
    → contains (release_ids is) b ≡ true
    → batch_release_funds is e s ≡ ok (n, s')
    → CanReleaseId s b
unfolding batch_release_funds
batch_release-needs e s s' is b named h =
    let (c, s1, checked, _) =
      >>=-eq_ok
        (λ c. release_items c.0 is >>= λ m.
          now >>= λ time. emit (Event.batch_funds_released m c.1 time) >> pure m)
        e (check_batch_release is) s h in
    let (_, _, _, all) = check_batch_release-ok e s s1 is checked in
    All-contains (CanReleaseId s) (release_ids is) b (All-release_ids s is all) named

sweep-needs :
    (e : Env) (s s' : State) (ids : List ℕ) (b : ℕ) {n : ℕ}
    → contains ids b ≡ true
    → sweep_expired_refunds ids e s ≡ ok (n, s')
    → CanSweep e s b
unfolding sweep_expired_refunds
sweep-needs e s s' ids b named h =
    let finish = λ (n : ℕ). leave >> pure {S = State} {E = Error} n in
    let loop = λ (t : Address). sweep_loop t ids >>= finish in
    let (_, s1, opened, h1) =
      >>-eq_ok (check_sweep ids >> (enter_sweep >>= loop)) e (open_sweep ids) s h in
    let (_, s2, checked, h2) = >>-eq_ok (enter_sweep >>= loop) e (check_sweep ids) s1 h1 in
    let same1 = open_sweep-same e s s1 ids opened in
    let (_, all) = check_sweep-ok e s s2 ids (rw same1 at checked) in
    All-contains (CanSweep e s) ids b all named

-- While releases are paused, alone or with everything, no `release_funds`, `partial_release`,
-- `batch_release_funds` or `claim` succeeds.
pub paused_blocks_releases :
    (e : Env) (s : State) (b : ℕ) (c : Address) (p : ℤ) (is : List ReleaseFundsItem)
    → check_paused s.pause_flags Operation.release ≡ true
    → Fails (release_funds b c e s)
      × Fails (partial_release b c p e s)
      × Fails (batch_release_funds is e s)
      × Fails (claim b e s)
unfolding release_funds check_release partial_release check_partial_release claim check_claim
    batch_release_funds check_batch_release enter_batch_release validate_unique_bounty_ids
    check_circuit check_governance_requirements check_release_approval execute_token_transfer
paused_blocks_releases e s b c p is h =
    (λ r k. ground arith, λ r k. ground arith, λ r k. ground arith, λ r k. ground arith)

-- While a claim is recorded as pending on a bounty, no `release_funds`, `partial_release` or
-- `refund` of it succeeds, and no `batch_release_funds` or `sweep_expired_refunds` that names it.
pub pending_claim_blocks :
    (e : Env) (s : State) (b : ℕ) (c : Address) (p : ℤ) (is : List ReleaseFundsItem) (ids : List ℕ)
    {d : ClaimRecord}
    → s.pending_claims b ≡ some d
    → contains (release_ids is) b ≡ true
    → contains ids b ≡ true
    → Fails (release_funds b c e s)
      × Fails (partial_release b c p e s)
      × Fails (batch_release_funds is e s)
      × Fails (refund b e s)
      × Fails (sweep_expired_refunds ids e s)
unfolding release_funds check_release partial_release check_partial_release refund check_refund
    check_circuit check_governance_requirements check_release_approval
pending_claim_blocks e s b c p is ids h named swept = (
  λ r k. ground arith,
  λ r k. ground arith,
  λ r k. let (x, _, _, free) = batch_release-needs e s r.1 is b named k in ground arith,
  λ r k. ground arith,
  λ r k. let (x, _, _, free, _, _) = sweep-needs e s r.1 ids b swept k in ground arith,
)

-- No claim is recorded on the bounty, or the one that is has been paid.
abbrev pub NoClaimDue : State → ℕ → Type 0
NoClaimDue s b =
    (s.pending_claims b ≡ none)
    ⊎ ((d : ClaimRecord) × (s.pending_claims b ≡ some d) × (d.claimed ≡ true))

-- A bounty whose escrow is released or refunded, with no claim that could still be paid, pays nothing
-- more.
settled_blocks :
    (e : Env) (s : State) (b : ℕ) (c : Address) (p : ℤ) (is : List ReleaseFundsItem) (ids : List ℕ)
    {x : Escrow}
    → s.escrows b ≡ some x
    → (x.status ≡ released) ⊎ (x.status ≡ refunded)
    → NoClaimDue s b
    → contains (release_ids is) b ≡ true
    → contains ids b ≡ true
    → Fails (release_funds b c e s)
      × Fails (partial_release b c p e s)
      × Fails (batch_release_funds is e s)
      × Fails (refund b e s)
      × Fails (sweep_expired_refunds ids e s)
      × Fails (claim b e s)
      × Fails (authorize_claim b c e s)
unfolding release_funds check_release partial_release check_partial_release refund check_refund
    claim check_claim authorize_claim check_circuit check_governance_requirements
    check_release_approval
settled_blocks e s b c p is ids k done free named swept = (
  λ r h. ground arith,
  λ r h. ground arith,
  λ r h. let (y, found, open_, _) = batch_release-needs e s r.1 is b named h in ground arith,
  λ r h. ground arith,
  λ r h. let (y, found, open_, _, _, _) = sweep-needs e s r.1 ids b swept h in ground arith,
  λ r h. ground arith,
  λ r h. ground arith,
)

-- On the state that a `release_funds` that succeeds on a bounty leaves, whoever calls and when,
-- none of these succeeds: `release_funds`, `partial_release`, `refund`, `claim` or
-- `authorize_claim` of that bounty, and a `batch_release_funds` or a `sweep_expired_refunds` that
-- names it.
pub release_funds-final :
    (e e' : Env) (s s' : State) (b : ℕ) (c c' : Address) (p : ℤ) (is : List ReleaseFundsItem)
    (ids : List ℕ) {x : Escrow}
    → s.escrows b ≡ some x
    → release_funds b c e s ≡ ok (tt, s')
    → contains (release_ids is) b ≡ true
    → contains ids b ≡ true
    → Fails (release_funds b c' e' s')
      × Fails (partial_release b c' p e' s')
      × Fails (batch_release_funds is e' s')
      × Fails (refund b e' s')
      × Fails (sweep_expired_refunds ids e' s')
      × Fails (claim b e' s')
      × Fails (authorize_claim b c' e' s')
release_funds-final e e' s s' b c c' p is ids {x} k h named swept =
    let paid = release_funds-Pays e s s' b c h k in
    let settled : s'.escrows b ≡ some (released_escrow x) = rw paid.written (ground arith) in
    let (_, free, _, _, _, _, _, claims) = release_funds-ok e s s' b c k h in
    settled_blocks e' s' b c' p is ids settled (inl refl) (inl (rw claims free)) named swept

-- On the state that a `claim` that succeeds on a bounty leaves, whoever calls and when, none of
-- these succeeds: `release_funds`, `partial_release`, `refund`, `claim` or `authorize_claim` of
-- that bounty, and a `batch_release_funds` or a `sweep_expired_refunds` that names it.
pub claim-final :
    (e e' : Env) (s s' : State) (b : ℕ) (c' : Address) (p : ℤ) (is : List ReleaseFundsItem)
    (ids : List ℕ) {x : Escrow} {d : ClaimRecord}
    → s.escrows b ≡ some x
    → s.pending_claims b ≡ some d
    → claim b e s ≡ ok (tt, s')
    → contains (release_ids is) b ≡ true
    → contains ids b ≡ true
    → Fails (release_funds b c' e' s')
      × Fails (partial_release b c' p e' s')
      × Fails (batch_release_funds is e' s')
      × Fails (refund b e' s')
      × Fails (sweep_expired_refunds ids e' s')
      × Fails (claim b e' s')
      × Fails (authorize_claim b c' e' s')
claim-final e e' s s' b c' p is ids {x} {d} k l h named swept =
    let paid = claim-Pays e s s' b h k l in
    let settled : s'.escrows b ≡ some (claimed_escrow x) = rw paid.written (ground arith) in
    let (_, _, _, marked, _, _) = claim-ok e s s' b l h in
    settled_blocks e' s' b c' p is ids settled (inl refl) (inr (paid_claim d, marked, refl)) named
      swept
