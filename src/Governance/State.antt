-- ===== src/Governance/State.antt =====
-- The storage of grainlify-core/src/governance.rs. A map that the code reads through
-- `unwrap_or(Map::new())` only is a plain field; `PROPOSALS`, whose absence is an error, is not.
use grainlify_stellar_contra.Base.{ℕ, Option, Map, List}
use grainlify_stellar_contra.Base.Int.{ℤ}
use grainlify_stellar_contra.Base.Host.{Address, Hash, Symbol, Action}

pub data ProposalStatus : Type 0 where
  pending active approved rejected executed expired cancelled : ProposalStatus

pub data VoteType : Type 0 where
  for_ against abstain : VoteType

pub data VotingScheme : Type 0 where
  one_person_one_vote token_weighted : VotingScheme

pub record Proposal : Type 0 where
  pub id : ℕ
  pub proposer : Address
  pub new_wasm_hash : Hash
  pub description : Symbol
  pub created_at : ℕ
  pub voting_start : ℕ
  pub voting_end : ℕ
  pub execution_delay : ℕ
  pub status : ProposalStatus
  pub votes_for : ℤ
  pub votes_against : ℤ
  pub votes_abstain : ℤ
  pub total_votes : ℕ

pub record GovernanceConfig : Type 0 where
  pub voting_period : ℕ
  pub execution_delay : ℕ
  pub quorum_percentage : ℕ
  pub approval_threshold : ℕ
  pub min_proposal_stake : ℤ
  pub voting_scheme : VotingScheme
  pub governance_token : Address
  pub one_person_total_voters : ℕ
  pub token_total_voting_power : ℤ
  pub snapshot_ledger : Option ℕ

pub record Vote : Type 0 where
  pub voter : Address
  pub proposal_id : ℕ
  pub vote_type : VoteType
  pub voting_power : ℤ
  pub timestamp : ℕ

pub data Error : Type 0 where
  not_initialized invalid_threshold threshold_too_low insufficient_stake : Error
  proposals_not_found proposal_not_found proposal_not_active voting_ended : Error
  voting_still_active already_voted proposal_not_approved execution_delay_not_met : Error
  zero_voting_power invalid_total_voting_power unauthorized vote_weight_overflow : Error
  already_initialized : Error

-- `UpgradeMode` of lib.rs
pub data UpgradeMode : Type 0 where
  multisig single_admin governance : UpgradeMode

pub data Event : Type 0 where
  proposal_cancelled : (proposal_id : ℕ) (caller : Address) → Event

-- The votes are keyed by the proposal, then by the voter.
pub record State : Type 0 where
  pub upgrade_mode : Option UpgradeMode
  pub governance_admin : Option Address
  pub governance_config : Option GovernanceConfig
  pub proposals : Option (Map Proposal)
  pub proposal_count : ℕ
  pub votes : ℕ → Map Vote
  pub events : List Event

abbrev pub Call : Type 0 → Type 0
Call = Action State Error
