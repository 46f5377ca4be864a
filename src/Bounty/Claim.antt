-- ===== src/Bounty/Claim.antt =====
-- The claim period: `set_claim_window`, `authorize_claim`, `claim` and `cancel_pending_claim` of
-- bounty_escrow/contracts/escrow/src/lib.rs.
pub mod Effects
use grainlify_stellar_contra.Base.{
  ℕ, ◌+◌, ◌≤◌, Bool, true, false, not, ◌&&◌, ◌||◌, Option, none, some, [], ◌∷◌, ltb, leb, ◌==◌,
  if◌then◌else◌, insert, remove,
}
use grainlify_stellar_contra.Base.Int.{saturating_add_u64, ℤ, pos, ◌==ℤ◌, ◌+ℤ◌, ◌-ℤ◌}
use grainlify_stellar_contra.Base.Host.{
  Address, ◌>>=◌, ◌>>◌, pure, gets, asks, modify, fail_if, or_fail, or_trap, require_auth,
  unwrap_none,
}
use grainlify_stellar_contra.Bounty.Guards.{
  Call, now, emit, require_admin, execute_token_transfer, enter, leave, is_locked,
}
use grainlify_stellar_contra.Bounty.Counters.{change_counters, transition_locked_to_released}
use grainlify_stellar_contra.Bounty.State.{
  bounty_not_found, funds_not_locked, claim_window_not_configured, pending_claim_exists,
  claim_expired, Escrow, EscrowStatus, Operation, ClaimRecord, DisputeOutcome, Event,
}

unfoldable pub set_claim_window : ℕ → Call (Unit {0})
set_claim_window claim_window = do
  require_admin
  modify (λ s. record s { claim_window = claim_window })

-- A recorded claim that is neither paid nor past its window.
abbrev pub is_live_claim : Option ClaimRecord → ℕ → Bool
is_live_claim none time = false
is_live_claim (some c) time = not c.claimed && leb time c.expires_at

unfoldable pub authorize_claim : ℕ → Address → Call (Unit {0})
authorize_claim bounty_id recipient = do
  require_admin
  escrow ← or_fail (← gets (λ s. s.escrows bounty_id)) bounty_not_found
  fail_if (not (is_locked escrow.status)) funds_not_locked
  time ← now
  fail_if (is_live_claim (← gets (λ s. s.pending_claims bounty_id)) time) pending_claim_exists
  window ← gets (λ s. s.claim_window)
  fail_if (window == 0) claim_window_not_configured
  let claim : ClaimRecord = record {
    bounty_id = bounty_id;
    recipient = recipient;
    amount = escrow.remaining_amount;
    expires_at = saturating_add_u64 time window;
    claimed = false;
  }
  modify (λ s. record s { pending_claims = insert bounty_id claim s.pending_claims })
  emit (Event.claim_created bounty_id recipient escrow.remaining_amount claim.expires_at)

-- `claim` up to the reentrancy guard.
unfoldable pub check_claim : ℕ → Call ClaimRecord
check_claim bounty_id = do
  claim ← or_fail (← gets (λ s. s.pending_claims bounty_id)) bounty_not_found
  require_auth claim.recipient
  time ← now
  fail_if (ltb claim.expires_at time) claim_expired
  fail_if claim.claimed funds_not_locked
  pure claim

-- The escrow that `claim` writes.
abbrev pub claimed_escrow : Escrow → Escrow
claimed_escrow escrow = record escrow { status = EscrowStatus.released; remaining_amount = pos 0 }

abbrev pub paid_claim : ClaimRecord → ClaimRecord
paid_claim c = record c { claimed = true }

unfoldable pub claim : ℕ → Call (Unit {0})
claim bounty_id = do
  record_ ← check_claim bounty_id
  enter
  escrow ← or_trap (← gets (λ s. s.escrows bounty_id)) unwrap_none
  modify (λ s. record s { escrows = insert bounty_id (claimed_escrow escrow) s.escrows })
  modify (change_counters (transition_locked_to_released record_.amount))
  modify (λ s. record s { pending_claims = insert bounty_id (paid_claim record_) s.pending_claims })
  this ← asks (λ e. e.current_contract_address)
  execute_token_transfer this record_.recipient record_.amount Operation.release
  time ← now
  emit (Event.claim_executed bounty_id record_.recipient record_.amount time)
  emit (
      Event.dispute_resolved bounty_id DisputeOutcome.claimed record_.recipient record_.recipient
        record_.amount time)
  leave

-- The reason that `cancel_pending_claim` reports, which also picks the outcome.
abbrev pub cancel_reason : ClaimRecord → ℕ → DisputeOutcome
cancel_reason c time =
    if ltb c.expires_at time then DisputeOutcome.expired else DisputeOutcome.cancelled

unfoldable pub cancel_pending_claim : ℕ → Call (Unit {0})
cancel_pending_claim bounty_id = do
  admin ← require_admin
  claim ← or_fail (← gets (λ s. s.pending_claims bounty_id)) bounty_not_found
  fail_if claim.claimed funds_not_locked
  time ← now
  let reason = cancel_reason claim time
  modify (λ s. record s { pending_claims = remove bounty_id s.pending_claims })
  emit (Event.claim_cancelled bounty_id claim.recipient claim.amount time admin reason)
  emit (Event.dispute_resolved bounty_id reason admin claim.recipient claim.amount time)
