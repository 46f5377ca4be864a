-- ===== src/Governance/Proposals.antt =====
-- Setting the governance up, and the life of a proposal but for its votes: `init_governance`,
-- `create_proposal`, `cancel_proposal` and `sweep_expired_proposal` of governance.rs.
use grainlify_stellar_contra.Base.{
  Option, ℕ, ◌||◌, Bool, true, false, not, none, some, insert, ltb, leb, ◌==◌, if◌then◌else◌,
  is_some, unwrap_or, ◌∷◌,
}
use grainlify_stellar_contra.Base.Int.{
  ℤ, pos, ltb_ℤ, leb_ℤ, ◌==ℤ◌, checked_add_u64, checked_add_u32,
}
use grainlify_stellar_contra.Base.Host.{
  Address, Hash, Symbol, ◌>>=◌, ◌>>◌, pure, gets, asks, or_fail, or_trap, fail_if, modify,
  require_auth, overflow,
}
use grainlify_stellar_contra.Governance.State.{
  ProposalStatus, active, cancelled, expired, Proposal, GovernanceConfig, one_person_one_vote,
  token_weighted, not_initialized, invalid_threshold, threshold_too_low, insufficient_stake,
  proposals_not_found, proposal_not_found, proposal_not_active, voting_still_active,
  invalid_total_voting_power, unauthorized, already_initialized, UpgradeMode, Event, State, Call,
}

abbrev pub is_active : ProposalStatus → Bool
is_active active = true
is_active _ = false

unfoldable pub total_voting_power : GovernanceConfig → ℤ
total_voting_power config = elim config.voting_scheme [
  | one_person_one_vote ↦ pos config.one_person_total_voters
  | token_weighted ↦ config.token_total_voting_power
]

unfoldable pub init_governance : Address → GovernanceConfig → Call (Unit {0})
init_governance admin config = do
  require_auth admin
  fail_if (is_some (← gets (λ s. s.upgrade_mode))) already_initialized
  fail_if (ltb 10000 config.quorum_percentage || ltb 10000 config.approval_threshold)
      invalid_threshold
  fail_if (ltb config.approval_threshold 5000) threshold_too_low
  fail_if (ltb_ℤ config.min_proposal_stake (pos 0)) insufficient_stake
  fail_if (leb_ℤ (total_voting_power config) (pos 0)) invalid_total_voting_power
  modify (λ s. record s {
    governance_admin = some admin;
    governance_config = some config;
    proposal_count = 0;
    upgrade_mode = some UpgradeMode.governance;
  })

unfoldable pub enforce_min_proposal_stake : GovernanceConfig → Address → Call (Unit {0})
enforce_min_proposal_stake config proposer = do
  e ← asks (λ e. e)
  if config.min_proposal_stake ==ℤ pos 0 then pure tt else (do
    fail_if (ltb_ℤ (e.balance config.governance_token proposer) config.min_proposal_stake)
        insufficient_stake)

-- `proposals.get(id).ok_or(ProposalNotFound)?` after `PROPOSALS` is read.
unfoldable pub get_proposal : ℕ → Call Proposal
get_proposal proposal_id = do
  proposals ← or_fail (← gets (λ s. s.proposals)) proposals_not_found
  or_fail (proposals proposal_id) proposal_not_found

-- `proposals.set(id, proposal)`, and the map written back, which starts empty.
abbrev pub store_proposal : ℕ → Proposal → State → State
store_proposal proposal_id proposal s = record s {
  proposals = some (insert proposal_id proposal (unwrap_or s.proposals (λ _. none)));
}

-- A proposal that differs in its status alone.
abbrev pub with_status : ProposalStatus → Proposal → Proposal
with_status status proposal = record proposal { status = status }

-- The proposal that `create_proposal` stores.
abbrev pub new_proposal : ℕ → Address → Hash → Symbol → ℕ → ℕ → GovernanceConfig → Proposal
new_proposal proposal_id proposer new_wasm_hash description current_time voting_end config =
    record {
      id = proposal_id;
      proposer = proposer;
      new_wasm_hash = new_wasm_hash;
      description = description;
      created_at = current_time;
      voting_start = current_time;
      voting_end = voting_end;
      execution_delay = config.execution_delay;
      status = active;
      votes_for = pos 0;
      votes_against = pos 0;
      votes_abstain = pos 0;
      total_votes = 0;
    }

unfoldable pub create_proposal : Address → Hash → Symbol → Call ℕ
unfolding enforce_min_proposal_stake
create_proposal proposer new_wasm_hash description = do
  require_auth proposer
  config ← or_fail (← gets (λ s. s.governance_config)) not_initialized
  enforce_min_proposal_stake config proposer
  proposal_id ← gets (λ s. s.proposal_count)
  current_time ← asks (λ e. e.timestamp)
  voting_end ← or_trap (checked_add_u64 current_time config.voting_period) overflow
  modify (
      store_proposal proposal_id (
        new_proposal proposal_id proposer new_wasm_hash description current_time voting_end config))
  next ← or_trap (checked_add_u32 proposal_id 1) overflow
  modify (λ s. record s { proposal_count = next })
  pure proposal_id

unfoldable pub get_proposal_status : ℕ → Call ProposalStatus
unfolding get_proposal
get_proposal_status proposal_id = do proposal ← get_proposal proposal_id; pure proposal.status

unfoldable pub cancel_proposal : Address → ℕ → Call (Unit {0})
unfolding get_proposal
cancel_proposal caller proposal_id = do
  require_auth caller
  proposal ← get_proposal proposal_id
  fail_if (not (is_active proposal.status)) proposal_not_active
  fail_if (not (caller == proposal.proposer)) unauthorized
  modify (store_proposal proposal_id (with_status cancelled proposal))
  modify (λ s. record s { events = Event.proposal_cancelled proposal_id caller ∷ s.events })

unfoldable pub sweep_expired_proposal : ℕ → Call (Unit {0})
unfolding get_proposal
sweep_expired_proposal proposal_id = do
  current_time ← asks (λ e. e.timestamp)
  proposal ← get_proposal proposal_id
  fail_if (not (is_active proposal.status)) proposal_not_active
  fail_if (leb current_time proposal.voting_end) voting_still_active
  modify (store_proposal proposal_id (with_status expired proposal))

-- The proposal that is stored under an identifier.
abbrev pub proposal_of : State → ℕ → Option Proposal
proposal_of s proposal_id = elim s.proposals [ none ↦ none | some m ↦ m proposal_id ]
