-- ===== src/Governance/Effects.antt =====
-- What the calls of governance.rs that succeed found and what they leave.
use grainlify_stellar_contra.Base.{◌∙◌, ℕ, ◌≡◌, ◌≤◌, ◌<◌, refl, some, arith, Option-cases, inl, inr}
use grainlify_stellar_contra.Base.Host.{Env, ok, Outcome-cases}
use grainlify_stellar_contra.Governance.State.{
  State, Proposal, GovernanceConfig, ProposalStatus, approved, executed,
}
use grainlify_stellar_contra.Governance.Proposals.{
  get_proposal, with_status, store_proposal, proposal_of,
}
use grainlify_stellar_contra.Governance.Voting.{finalize_proposal, judge, judge_approval}
use grainlify_stellar_contra.Governance.Execution.{execute_proposal, executable_at}

-- The verdict depends on the configuration and the proposal alone, and leaves the storage as it was.
pub judge-same :
    (c : GovernanceConfig) (p : Proposal) (e e' : Env) (s s' t : State) {v : ProposalStatus}
    → judge c p e s ≡ ok (v, s')
    → (s' ≡ s) × (judge c p e' t ≡ ok (v, t))
unfolding judge judge_approval
judge-same c p e e' s s' t h = ground arith

-- Nor does it read the proposal's status.
pub judge-with_status :
    (c : GovernanceConfig) (p : Proposal) (e : Env) (s : State) (w : ProposalStatus)
    → judge c (with_status w p) e s ≡ judge c p e s
unfolding judge judge_approval
judge-with_status c p e s w = refl

pub get_proposal-ok :
    (e : Env) (s s' : State) (id : ℕ) {p : Proposal}
    → get_proposal id e s ≡ ok (p, s')
    → (s' ≡ s) × (proposal_of s id ≡ some p)
unfolding get_proposal
get_proposal-ok e s s' id h = ground arith

-- A `finalize_proposal` that succeeds comes after the vote, and writes the verdict into the proposal.
pub finalize_proposal-ok :
    (e : Env) (s s' : State) (id : ℕ) {v : ProposalStatus}
    → finalize_proposal id e s ≡ ok (v, s')
    → (p : Proposal) × (c : GovernanceConfig) × (proposal_of s id ≡ some p)
      × (s.governance_config ≡ some c)
      × (p.voting_end < e.timestamp)
      × (judge c p e s ≡ ok (v, s))
      × (s' ≡ store_proposal id (with_status v p) s)
unfolding finalize_proposal get_proposal
finalize_proposal-ok e s s' id {v} h = elim (Option-cases (proposal_of s id)) [
  | inl missing ↦ absurd (ground arith)
  | inr (p, found) ↦ elim (Option-cases s.governance_config) [
    | inl missing ↦ absurd (ground arith)
    | inr (c, configured) ↦ elim (Outcome-cases (judge c p e s)) [
      | inr (inl (x, failed)) ↦ absurd (ground arith)
      | inr (inr (x, failed)) ↦ absurd (ground arith)
      | inl (x, judged) ↦
          let (same, _) = judge-same c p e e s x.1 s judged in
          (p, c, found, configured, ground arith, ground arith, ground arith)
    ]
  ]
]

-- An `execute_proposal` that succeeds finds the proposal approved and its delay over.
pub execute_proposal-ok :
    (e : Env) (s s' : State) (id : ℕ)
    → execute_proposal id e s ≡ ok (tt, s')
    → (p : Proposal) × (proposal_of s id ≡ some p)
      × (p.status ≡ approved)
      × (executable_at p ≤ e.timestamp)
      × (s' ≡ store_proposal id (with_status executed p) s)
unfolding execute_proposal get_proposal
execute_proposal-ok e s s' id h = elim (Option-cases (proposal_of s id)) [
  | inl missing ↦ absurd (ground arith)
  | inr (p, found) ↦ (p, found, ground arith, ground arith, ground arith)
]

finalize_proposal-runs :
    (e : Env) (s : State) (id : ℕ) {v : ProposalStatus} {p : Proposal} {c : GovernanceConfig}
    → proposal_of s id ≡ some p
    → s.governance_config ≡ some c
    → p.voting_end < e.timestamp
    → judge c p e s ≡ ok (v, s)
    → finalize_proposal id e s ≡ ok (v, store_proposal id (with_status v p) s)
unfolding finalize_proposal get_proposal
finalize_proposal-runs e s id found configured late judged = ground arith

-- A `finalize_proposal` that succeeds does so, with the same verdict, in any other storage with the
-- same configuration where the proposal differs in its status alone.
pub finalize_proposal-ignores_status :
    (e : Env) (s s' t : State) (id : ℕ) (w : ProposalStatus) {v : ProposalStatus} {p : Proposal}
    → proposal_of s id ≡ some p
    → proposal_of t id ≡ some (with_status w p)
    → t.governance_config ≡ s.governance_config
    → finalize_proposal id e s ≡ ok (v, s')
    → finalize_proposal id e t ≡ ok (v, store_proposal id (with_status v p) t)
finalize_proposal-ignores_status e s s' t id w {v} {p} found found' same h =
    let (q, c, stored, configured, late, judged, _) = finalize_proposal-ok e s s' id h in
    let one : p ≡ q = cc in
    let judged' : judge c p e s ≡ ok (v, s) = rw one judged in
    finalize_proposal-runs e t id found' (same ∙ configured) (rw one late)
      (judge-with_status c p e t w ∙ (judge-same c p e e s s t judged').1)

pub execute_proposal-runs :
    (e : Env) (s : State) (id : ℕ) {p : Proposal}
    → proposal_of s id ≡ some p
    → p.status ≡ approved
    → executable_at p ≤ e.timestamp
    → execute_proposal id e s ≡ ok (tt, store_proposal id (with_status executed p) s)
unfolding execute_proposal get_proposal
execute_proposal-runs e s id found approved_ late = ground arith
