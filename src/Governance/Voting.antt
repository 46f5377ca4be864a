-- ===== src/Governance/Voting.antt =====
-- `cast_vote` and `finalize_proposal` of governance.rs.
use grainlify_stellar_contra.Base.{
  ℕ, not, Option, none, some, insert, ltb, leb, ◌==◌, if◌then◌else◌, is_some,
}
use grainlify_stellar_contra.Base.Int.{
  ℤ, pos, ltb_ℤ, leb_ℤ, ◌==ℤ◌, checked_add, checked_mul, quot, checked_add_u32,
}
use grainlify_stellar_contra.Base.Host.{
  Address, Env, ◌>>=◌, ◌>>◌, pure, gets, asks, or_fail, or_trap, fail_if, modify, require_auth,
  overflow,
}
use grainlify_stellar_contra.Governance.State.{
  ProposalStatus, approved, rejected, VoteType, for_, against, abstain, Proposal, GovernanceConfig,
  one_person_one_vote, token_weighted, Vote, not_initialized, proposal_not_active, voting_ended,
  voting_still_active, already_voted, zero_voting_power, invalid_total_voting_power,
  vote_weight_overflow, State, Call,
}
use grainlify_stellar_contra.Governance.Proposals.{
  is_active, total_voting_power, get_proposal, store_proposal, with_status,
}

unfoldable pub derive_voting_power : Env → GovernanceConfig → Address → ℤ
derive_voting_power e config voter = elim config.voting_scheme [
  | one_person_one_vote ↦ pos 1
  | token_weighted ↦ e.balance config.governance_token voter
]

-- The `match` on the vote: the tally it adds to, if the sum stays in range.
unfoldable pub add_vote : VoteType → ℤ → Proposal → Option Proposal
add_vote for_ power p = elim (checked_add p.votes_for power) [
  | none ↦ none
  | some n ↦ some (record p { votes_for = n })
]
add_vote against power p = elim (checked_add p.votes_against power) [
  | none ↦ none
  | some n ↦ some (record p { votes_against = n })
]
add_vote abstain power p = elim (checked_add p.votes_abstain power) [
  | none ↦ none
  | some n ↦ some (record p { votes_abstain = n })
]

abbrev pub store_vote : ℕ → Address → Vote → State → State
store_vote proposal_id voter vote s = record s {
  votes = λ i. if i == proposal_id then insert voter vote (s.votes i) else s.votes i;
}

unfoldable pub cast_vote : Address → ℕ → VoteType → Call (Unit {0})
unfolding get_proposal
cast_vote voter proposal_id vote_type = do
  require_auth voter
  proposal ← get_proposal proposal_id
  fail_if (not (is_active proposal.status)) proposal_not_active
  current_time ← asks (λ e. e.timestamp)
  fail_if (ltb proposal.voting_end current_time) voting_ended
  fail_if (is_some (← gets (λ s. s.votes proposal_id voter))) already_voted
  config ← or_fail (← gets (λ s. s.governance_config)) not_initialized
  e ← asks (λ e. e)
  let voting_power = derive_voting_power e config voter
  fail_if (leb_ℤ voting_power (pos 0)) zero_voting_power
  counted ← or_fail (add_vote vote_type voting_power proposal) vote_weight_overflow
  total_votes ← or_trap (checked_add_u32 counted.total_votes 1) overflow
  modify (
      store_vote proposal_id voter (record {
        voter = voter;
        proposal_id = proposal_id;
        vote_type = vote_type;
        voting_power = voting_power;
        timestamp = current_time;
      }))
  modify (store_proposal proposal_id (record counted { total_votes = total_votes }))

-- The verdict on a proposal that met its quorum.
unfoldable pub judge_approval : GovernanceConfig → Proposal → Call ProposalStatus
judge_approval config proposal = do
  approval_votes ←
      or_fail (checked_add proposal.votes_for proposal.votes_against) vote_weight_overflow
  if approval_votes ==ℤ pos 0 then pure rejected else (do
    scaled ← or_fail (checked_mul proposal.votes_for (pos 10000)) vote_weight_overflow
    pure (
        if ltb_ℤ (quot scaled approval_votes) (pos config.approval_threshold)
        then rejected
        else approved))

-- The verdict that `finalize_proposal` writes.
unfoldable pub judge : GovernanceConfig → Proposal → Call ProposalStatus
unfolding judge_approval
judge config proposal = do
  some_cast ← or_fail (checked_add proposal.votes_for proposal.votes_against) vote_weight_overflow
  total_cast ← or_fail (checked_add some_cast proposal.votes_abstain) vote_weight_overflow
  let total_power = total_voting_power config
  fail_if (leb_ℤ total_power (pos 0)) invalid_total_voting_power
  scaled ← or_fail (checked_mul total_cast (pos 10000)) vote_weight_overflow
  if ltb_ℤ (quot scaled total_power) (pos config.quorum_percentage)
      then pure rejected
      else judge_approval config proposal

unfoldable pub finalize_proposal : ℕ → Call ProposalStatus
unfolding get_proposal
finalize_proposal proposal_id = do
  proposal ← get_proposal proposal_id
  config ← or_fail (← gets (λ s. s.governance_config)) not_initialized
  fail_if (leb (← asks (λ e. e.timestamp)) proposal.voting_end) voting_still_active
  status ← judge config proposal
  modify (store_proposal proposal_id (with_status status proposal))
  pure status
