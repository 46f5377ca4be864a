-- ===== src/Governance/Execution.antt =====
-- `execute_proposal` and `is_upgrade_approved` of governance.rs.
use grainlify_stellar_contra.Base.{
  ℕ, zero, suc, ◌+◌, ◌&&◌, Bool, true, false, not, Option, none, some, Map, ltb, leb, ◌==◌,
  if◌then◌else◌,
}
use grainlify_stellar_contra.Base.Int.{saturating_add_u64}
use grainlify_stellar_contra.Base.Host.{Hash, Env, ◌>>=◌, ◌>>◌, asks, fail_if, modify}
use grainlify_stellar_contra.Governance.State.{
  ProposalStatus, approved, executed, Proposal, proposal_not_approved, execution_delay_not_met,
  State, Call,
}
use grainlify_stellar_contra.Governance.Proposals.{get_proposal, store_proposal, with_status}

abbrev pub is_approved : ProposalStatus → Bool
is_approved approved = true
is_approved _ = false

abbrev pub is_executed : ProposalStatus → Bool
is_executed executed = true
is_executed _ = false

abbrev pub executable_at : Proposal → ℕ
executable_at proposal = saturating_add_u64 proposal.voting_end proposal.execution_delay

unfoldable pub execute_proposal : ℕ → Call (Unit {0})
unfolding get_proposal
execute_proposal proposal_id = do
  proposal ← get_proposal proposal_id
  fail_if (not (is_approved proposal.status)) proposal_not_approved
  fail_if (ltb (← asks (λ e. e.timestamp)) (executable_at proposal)) execution_delay_not_met
  modify (store_proposal proposal_id (with_status executed proposal))

-- The test of one proposal in the loop.
abbrev pub grants : Hash → ℕ → Option Proposal → Bool
grants wasm_hash now none = false
grants wasm_hash now (some p) =
    p.new_wasm_hash == wasm_hash && is_executed p.status && leb (executable_at p) now

-- The loop from `proposal_id` on, over the `rounds` that are left.
unfoldable pub scan_proposals : Map Proposal → Hash → ℕ → ℕ → ℕ → Bool
scan_proposals proposals wasm_hash now zero proposal_id = false
scan_proposals proposals wasm_hash now (suc rounds) proposal_id =
    let rest = scan_proposals proposals wasm_hash now rounds (proposal_id + 1) in
    if grants wasm_hash now (proposals proposal_id) then true else rest

unfoldable pub is_upgrade_approved : Hash → Env → State → Bool
is_upgrade_approved wasm_hash e s = elim s.proposals [
  | none ↦ false
  | some proposals ↦ scan_proposals proposals wasm_hash e.timestamp s.proposal_count 0
]
