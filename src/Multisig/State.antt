-- ===== src/Multisig/State.antt =====
-- The storage of grainlify-core/src/multisig.rs. The panics of the module carry the debug name of an
-- error, and are modelled by it.
use grainlify_stellar_contra.Base.{ℕ, Bool, Option, Map, List}
use grainlify_stellar_contra.Base.Host.{Address, Hash, Action}

pub record MultiSigConfig : Type 0 where
  pub signers : List Address
  pub threshold : ℕ

pub data ProposalAction : Type 0 where
  upgrade : Hash → ProposalAction

pub record Proposal : Type 0 where
  pub action : ProposalAction
  pub approvals : List Address
  pub executed : Bool
  pub signers : List Address
  pub threshold : ℕ
  pub executed_nonce : Option ℕ

pub data MultiSigError : Type 0 where
  not_signer already_approved proposal_not_found already_executed threshold_not_met : MultiSigError
  invalid_threshold action_mismatch nonce_mismatch removal_would_break_threshold : MultiSigError
  already_signer already_initialized not_initialized : MultiSigError

-- The kinds of the `SignerRot` event.
pub data Rotation : Type 0 where
  add remove thresh : Rotation

pub data Event : Type 0 where
  proposal_created : (proposal_id : ℕ) → Event
  upgrade_proposed : (proposal_id : ℕ) (proposer : Address) (wasm_hash : Hash) → Event
  proposal_approved : (proposal_id : ℕ) (signer : Address) → Event
  upgrade_approved : (proposal_id : ℕ) (signer : Address) (approval_count : ℕ) → Event
  proposal_executed : (proposal_id nonce : ℕ) → Event
  signer_rotated : (kind : Rotation) (caller signer : Address) (threshold : ℕ) → Event

pub record State : Type 0 where
  pub config : Option MultiSigConfig
  pub proposal_counter : ℕ
  pub proposals : Map Proposal
  pub execution_nonce : ℕ
  pub events : List Event

abbrev pub Call : Type 0 → Type 0
Call = Action State MultiSigError
