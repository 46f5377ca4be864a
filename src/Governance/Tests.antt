-- ===== src/Governance/Tests.antt =====
-- The governance contract of governance.rs at concrete inputs.
use grainlify_stellar_contra.Base.{
  ℕ, ◌+◌, ◌≡◌, ◌≤◌, ◌<◌, ◌⊎◌, ◌↔◌, refl, true, false, some, none, [],
}
use grainlify_stellar_contra.Base.Int.{
  saturating_add_u64, pos, ◌+ℤ◌, ◌*ℤ◌, checked_add, checked_mul, quot,
}
use grainlify_stellar_contra.Base.Host.{Env, ok, after}
use grainlify_stellar_contra.Governance.State.{
  State, Proposal, GovernanceConfig, ProposalStatus, VotingScheme, approved, rejected, executed,
  for_, against,
}
use grainlify_stellar_contra.Governance.Proposals.{
  init_governance, create_proposal, cancel_proposal, get_proposal, enforce_min_proposal_stake,
  total_voting_power, proposal_of, with_status,
}
use grainlify_stellar_contra.Governance.Voting.{
  cast_vote, finalize_proposal, judge, judge_approval, add_vote, derive_voting_power,
}
use grainlify_stellar_contra.Governance.Execution.{execute_proposal, is_upgrade_approved}
use grainlify_stellar_contra.Governance.Steps.{
  Steps, stay, next, initialise, create, vote, finalise,
}
use grainlify_stellar_contra.Governance.Safety.{
  Fails, one_vote_each, finalize_after_cancel, executed_twice, execute_proposal-timelock,
}
use grainlify_stellar_contra.Governance.Approval.{
  IsTallied, IsQuorate, IsCarried, Permits, is_upgrade_approved_iff, finalize_proposal-verdict,
}
use grainlify_stellar_contra.Governance.Histories.{approved_has_majority}

-- Everybody signs, and nobody holds tokens.
abbrev host : ℕ → Env
host time = record {
  timestamp = time;
  authorized = λ _. true;
  current_contract_address = 99;
  balance = λ _ _. pos 0;
  balance_after = λ _ _ _. pos 1000000;
  transfer_ok = λ _ _. true;
  gov_ver = λ _. 1;
  gov_version_numeric = λ _. 10000;
  gov_is_upg_ok = λ _ _. true;
  gov_is_vetoed = λ _ _. false;
  gov_execute_proposal = λ _ _. true;
}

abbrev empty : State
empty = record {
  upgrade_mode = none;
  governance_admin = none;
  governance_config = none;
  proposals = none;
  proposal_count = 0;
  votes = λ _ _. none;
  events = [];
}

-- Two voters, a tenth for the quorum, half for the approval, and a delay of 50 seconds.
abbrev config : GovernanceConfig
config = record {
  voting_period = 100;
  execution_delay = 50;
  quorum_percentage = 1000;
  approval_threshold = 5000;
  min_proposal_stake = pos 0;
  voting_scheme = VotingScheme.one_person_one_vote;
  governance_token = 7;
  one_person_total_voters = 2;
  token_total_voting_power = pos 0;
  snapshot_ledger = none;
}

-- Admin 1 sets the governance up.
abbrev ready : State
unfolding init_governance total_voting_power
ready = after empty (init_governance 1 config (host 900) empty)

ready_runs : init_governance 1 config (host 900) empty ≡ ok (tt, ready)
unfolding ready checked_add checked_mul quot ◌+ℤ◌ ◌*ℤ◌
ready_runs = refl

-- Address 2 proposes the code 77.
abbrev proposed : State
unfolding create_proposal enforce_min_proposal_stake
proposed = after ready (create_proposal 2 77 0 (host 1000) ready)

proposed_runs : create_proposal 2 77 0 (host 1000) ready ≡ ok (0, proposed)
unfolding proposed ready checked_add checked_mul quot ◌+ℤ◌ ◌*ℤ◌
proposed_runs = refl

-- And votes for it.
abbrev voted : State
unfolding cast_vote get_proposal derive_voting_power add_vote
voted = after proposed (cast_vote 2 0 for_ (host 1010) proposed)

voted_runs : cast_vote 2 0 for_ (host 1010) proposed ≡ ok (tt, voted)
unfolding voted proposed ready checked_add checked_mul quot ◌+ℤ◌ ◌*ℤ◌
voted_runs = refl

-- The vote is counted.
abbrev passed : State
unfolding finalize_proposal get_proposal judge judge_approval total_voting_power
passed = after voted (finalize_proposal 0 (host 1200) voted)

passed_runs : finalize_proposal 0 (host 1200) voted ≡ ok (approved, passed)
unfolding passed voted proposed ready checked_add checked_mul quot ◌+ℤ◌ ◌*ℤ◌
passed_runs = refl

-- And the proposal executed.
abbrev done : State
unfolding execute_proposal get_proposal
done = after passed (execute_proposal 0 (host 1300) passed)

done_runs : execute_proposal 0 (host 1300) passed ≡ ok (tt, done)
unfolding done passed voted proposed ready checked_add checked_mul quot ◌+ℤ◌ ◌*ℤ◌
done_runs = refl

-- Or it is cancelled.
abbrev dropped : State
unfolding cancel_proposal get_proposal
dropped = after voted (cancel_proposal 2 0 (host 1050) voted)

dropped_runs : cancel_proposal 2 0 (host 1050) voted ≡ ok (tt, dropped)
unfolding dropped voted proposed ready checked_add checked_mul quot ◌+ℤ◌ ◌*ℤ◌
dropped_runs = refl

abbrev the_proposal : Proposal
the_proposal = record {
  id = 0;
  proposer = 2;
  new_wasm_hash = 77;
  description = 0;
  created_at = 1000;
  voting_start = 1000;
  voting_end = 1100;
  execution_delay = 50;
  status = ProposalStatus.active;
  votes_for = pos 1;
  votes_against = pos 0;
  votes_abstain = pos 0;
  total_votes = 1;
}

abbrev one_for : IsTallied the_proposal
one_for = record {
  for_count = 1;
  against_count = 0;
  abstain_count = 0;
  for_is = refl;
  against_is = refl;
  abstain_is = refl;
}

history : Steps empty voted
history =
    next
      (next (next stay (initialise (host 900) 1 config ready_runs))
        (create (host 1000) 2 77 0 0 proposed_runs))
      (vote (host 1010) 2 0 for_ voted_runs)

one_vote_each_example : Fails (cast_vote 2 0 against (host 1020) passed)
unfolding passed voted proposed ready checked_add checked_mul quot ◌+ℤ◌ ◌*ℤ◌
one_vote_each_example =
    one_vote_each (host 1010) (host 1020) proposed voted passed 2 0 for_ against voted_runs
      (next stay (finalise (host 1200) 0 approved passed_runs))

finalize_after_cancel_example :
    (t : State) × (p : Proposal) × (finalize_proposal 0 (host 1200) dropped ≡ ok (approved, t))
    × (proposal_of t 0 ≡ some p)
    × (p.status ≡ approved)
unfolding dropped voted proposed ready checked_add checked_mul quot ◌+ℤ◌ ◌*ℤ◌
finalize_after_cancel_example =
    finalize_after_cancel (host 1050) (host 1200) voted dropped passed 2 0 dropped_runs passed_runs

executed_twice_example :
    (s3 : State) × (s4 : State) × (finalize_proposal 0 (host 1200) done ≡ ok (approved, s3))
    × (execute_proposal 0 (host 1300) s3 ≡ ok (tt, s4))
unfolding done passed voted proposed ready checked_add checked_mul quot ◌+ℤ◌ ◌*ℤ◌
executed_twice_example =
    executed_twice (host 1200) (host 1300) voted passed done 0 passed_runs done_runs

execute_proposal-timelock_example :
    (p : Proposal) × (proposal_of passed 0 ≡ some p)
    × (p.status ≡ approved)
    × (saturating_add_u64 p.voting_end p.execution_delay ≤ 1300)
    × (proposal_of done 0 ≡ some (with_status executed p))
unfolding done passed voted proposed ready checked_add checked_mul quot ◌+ℤ◌ ◌*ℤ◌
execute_proposal-timelock_example = execute_proposal-timelock (host 1300) passed done 0 done_runs

is_upgrade_approved_iff_example : (is_upgrade_approved 77 (host 1300) done ≡ true) ↔ (
    (id : ℕ) × (p : Proposal) × (id < done.proposal_count)
    × (proposal_of done id ≡ some p)
    × Permits 77 1300 p)
unfolding done passed voted proposed ready checked_add checked_mul quot ◌+ℤ◌ ◌*ℤ◌
is_upgrade_approved_iff_example = is_upgrade_approved_iff 77 (host 1300) done

finalize_proposal-verdict_example :
    ((approved ≡ approved) × IsQuorate 1000 2 1 × IsCarried 5000 1 0)
    ⊎ ((approved ≡ rejected) × ¬ (IsQuorate 1000 2 1 × IsCarried 5000 1 0))
unfolding total_voting_power passed voted proposed ready checked_add checked_mul quot ◌+ℤ◌ ◌*ℤ◌
finalize_proposal-verdict_example =
    finalize_proposal-verdict (host 1200) voted passed 0 one_for refl refl refl passed_runs

approved_has_majority_example :
    (p : Proposal) × (c : GovernanceConfig) × (power f a b : ℕ) × (proposal_of voted 0 ≡ some p)
    × (voted.governance_config ≡ some c)
    × (total_voting_power c ≡ pos power)
    × (p.votes_for ≡ pos f)
    × (p.votes_against ≡ pos a)
    × (p.votes_abstain ≡ pos b)
    × IsQuorate c.quorum_percentage power (f + a + b)
    × (0 < f)
    × (a ≤ f)
unfolding passed voted proposed ready checked_add checked_mul quot ◌+ℤ◌ ◌*ℤ◌
approved_has_majority_example =
    approved_has_majority (host 1200) empty voted passed 0 refl refl history passed_runs
