-- ===== src/Governance/Steps.antt =====
-- Histories of the governance contract of governance.rs: any calls, by anyone, in any order.
use grainlify_stellar_contra.Base.{ℕ, ◌≡◌, true, arith, is_some}
use grainlify_stellar_contra.Base.Host.{Address, Hash, Symbol, Env, ok}
use grainlify_stellar_contra.Governance.State.{State, GovernanceConfig, VoteType, ProposalStatus}
use grainlify_stellar_contra.Governance.Proposals.{
  init_governance, create_proposal, cancel_proposal, sweep_expired_proposal, get_proposal,
  enforce_min_proposal_stake,
}
use grainlify_stellar_contra.Governance.Voting.{cast_vote, finalize_proposal}
use grainlify_stellar_contra.Governance.Execution.{execute_proposal}
use grainlify_stellar_contra.Governance.Effects.{finalize_proposal-ok}

-- One call that succeeds.
pub data Step (s s' : State) : Type 0 where
  initialise :
      (e : Env) (a : Address) (c : GovernanceConfig)
      → init_governance a c e s ≡ ok (tt, s')
      → Step s s'
  create :
      (e : Env) (a : Address) (h : Hash) (d : Symbol) (id : ℕ)
      → create_proposal a h d e s ≡ ok (id, s')
      → Step s s'
  vote :
      (e : Env) (a : Address) (id : ℕ) (v : VoteType)
      → cast_vote a id v e s ≡ ok (tt, s')
      → Step s s'
  finalise :
      (e : Env) (id : ℕ) (st : ProposalStatus) → finalize_proposal id e s ≡ ok (st, s') → Step s s'
  execute : (e : Env) (id : ℕ) → execute_proposal id e s ≡ ok (tt, s') → Step s s'
  cancel : (e : Env) (a : Address) (id : ℕ) → cancel_proposal a id e s ≡ ok (tt, s') → Step s s'
  sweep : (e : Env) (id : ℕ) → sweep_expired_proposal id e s ≡ ok (tt, s') → Step s s'

pub data Steps (s : State) : State → Type 0 where
  stay : Steps s s
  next : {t u : State} → Steps s t → Step t u → Steps s u

-- A vote that is recorded stays so.
Step-keeps_vote :
    (s s' : State) (id : ℕ) (a : Address)
    → Step s s'
    → is_some (s.votes id a) ≡ true
    → is_some (s'.votes id a) ≡ true
unfolding init_governance create_proposal cast_vote execute_proposal cancel_proposal
    sweep_expired_proposal get_proposal enforce_min_proposal_stake
Step-keeps_vote s s' id a (initialise e b c h) k = ground arith
Step-keeps_vote s s' id a (create e b w d i h) k = ground arith
Step-keeps_vote s s' id a (vote e b i v h) k = ground arith
Step-keeps_vote s s' id a (finalise e i st h) k =
    let (_, _, _, _, _, _, written) = finalize_proposal-ok e s s' i h in ground arith
Step-keeps_vote s s' id a (execute e i h) k = ground arith
Step-keeps_vote s s' id a (cancel e b i h) k = ground arith
Step-keeps_vote s s' id a (sweep e i h) k = ground arith

pub Steps-keeps_vote :
    {s s' : State} (id : ℕ) (a : Address)
    → Steps s s'
    → is_some (s.votes id a) ≡ true
    → is_some (s'.votes id a) ≡ true
Steps-keeps_vote id a stay k = k
Steps-keeps_vote id a (next {t} {u} path step) k =
    Step-keeps_vote t u id a step (Steps-keeps_vote id a path k)
