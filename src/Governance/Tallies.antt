-- ===== src/Governance/Tallies.antt =====
-- What the calls of governance.rs do to the tallies and to the configuration.
use grainlify_stellar_contra.Base.{ℕ, ◌+◌, ◌≡◌, ◌≤◌, ◌<◌, refl, some, arith, Option-cases, inl, inr}
use grainlify_stellar_contra.Base.Int.{ℤ, pos, negsuc, ◌<ℤ◌, ◌+ℤ◌, checked_add}
use grainlify_stellar_contra.Base.Host.{Env, Address, ok}
use grainlify_stellar_contra.Governance.State.{
  State, Proposal, GovernanceConfig, ProposalStatus, VoteType, for_, against, abstain,
}
use grainlify_stellar_contra.Governance.Proposals.{
  init_governance, create_proposal, cancel_proposal, sweep_expired_proposal, get_proposal,
  enforce_min_proposal_stake, total_voting_power, proposal_of, with_status, store_proposal,
  new_proposal,
}
use grainlify_stellar_contra.Governance.Voting.{cast_vote, add_vote, derive_voting_power}
use grainlify_stellar_contra.Governance.Approval.{IsTallied}

-- What `init_governance` asks of a configuration.
pub record IsConfigured (c : GovernanceConfig) : Type 0 where
  pub power : ℕ
  pub power_is : total_voting_power c ≡ pos power
  pub has_power : 0 < power
  pub threshold : 5000 ≤ c.approval_threshold

natural : (a : ℤ) → pos 0 <ℤ a → (n : ℕ) × (a ≡ pos n) × (0 < n)
natural (pos n) h = (n, refl, ground arith)
natural (negsuc n) h = absurd (ground arith)

pub init_governance-IsConfigured :
    (e : Env) (s s' : State) (a : Address) (c : GovernanceConfig)
    → init_governance a c e s ≡ ok (tt, s')
    → IsConfigured c × (s'.proposals ≡ s.proposals) × (s'.governance_config ≡ some c)
unfolding init_governance
init_governance-IsConfigured e s s' a c h =
    let (n, is_n, above) = natural (total_voting_power c) (ground arith) in
    (
      record { power = n; power_is = is_n; has_power = above; threshold = ground arith },
      ground arith,
      ground arith,
    )

pub add_vote-IsTallied :
    (v : VoteType) (n : ℕ) (p q : Proposal)
    → IsTallied p
    → add_vote v (pos n) p ≡ some q
    → IsTallied q
unfolding add_vote checked_add ◌+ℤ◌
add_vote-IsTallied for_ n p q t h = record {
  for_count = t.for_count + n;
  against_count = t.against_count;
  abstain_count = t.abstain_count;
  for_is = ground (arith, t.for_is);
  against_is = ground (arith, t.against_is);
  abstain_is = ground (arith, t.abstain_is);
}
add_vote-IsTallied against n p q t h = record {
  for_count = t.for_count;
  against_count = t.against_count + n;
  abstain_count = t.abstain_count;
  for_is = ground (arith, t.for_is);
  against_is = ground (arith, t.against_is);
  abstain_is = ground (arith, t.abstain_is);
}
add_vote-IsTallied abstain n p q t h = record {
  for_count = t.for_count;
  against_count = t.against_count;
  abstain_count = t.abstain_count + n;
  for_is = ground (arith, t.for_is);
  against_is = ground (arith, t.against_is);
  abstain_is = ground (arith, t.abstain_is);
}

-- A proposal with one more vote counted.
abbrev pub counted : Proposal → ℕ → Proposal
counted p n = record p { total_votes = n }

pub counted-IsTallied : (p : Proposal) (n : ℕ) → IsTallied p → IsTallied (counted p n)
counted-IsTallied p n t = record {
  for_count = t.for_count;
  against_count = t.against_count;
  abstain_count = t.abstain_count;
  for_is = t.for_is;
  against_is = t.against_is;
  abstain_is = t.abstain_is;
}

pub with_status-IsTallied :
    (w : ProposalStatus) (p : Proposal) → IsTallied p → IsTallied (with_status w p)
with_status-IsTallied w p t = record {
  for_count = t.for_count;
  against_count = t.against_count;
  abstain_count = t.abstain_count;
  for_is = t.for_is;
  against_is = t.against_is;
  abstain_is = t.abstain_is;
}

-- A `cast_vote` that succeeds adds a power that is a number to one tally.
pub cast_vote-ok :
    (e : Env) (s s' : State) (a : Address) (id : ℕ) (v : VoteType)
    → cast_vote a id v e s ≡ ok (tt, s')
    → (p q : Proposal) × (n m : ℕ) × (proposal_of s id ≡ some p)
      × (add_vote v (pos n) p ≡ some q)
      × (s'.proposals ≡ (store_proposal id (counted q m) s).proposals)
      × (s'.governance_config ≡ s.governance_config)
unfolding cast_vote get_proposal
cast_vote-ok e s s' a id v h = elim (Option-cases (proposal_of s id)) [
  | inl missing ↦ absurd (ground arith)
  | inr (p, found) ↦ elim (Option-cases s.governance_config) [
    | inl missing ↦ absurd (ground arith)
    | inr (c, configured) ↦
        let power = derive_voting_power e c a in
        let (n, is_n, above) = natural power (ground arith) in
        elim (Option-cases (add_vote v power p)) [
          | inl missing ↦ absurd (ground arith)
          | inr (q, added) ↦
              (p, q, n, q.total_votes + 1, found, rw is_n at added, ground arith, ground arith)
        ]
  ]
]

pub create_proposal-ok :
    (e : Env) (s s' : State) (a : Address) (w d : ℕ) {id : ℕ}
    → create_proposal a w d e s ≡ ok (id, s')
    → (q : Proposal) × (s'.proposals ≡ (store_proposal id q s).proposals)
      × (s'.governance_config ≡ s.governance_config)
      × IsTallied q
unfolding create_proposal enforce_min_proposal_stake
create_proposal-ok e s s' a w d {id} h = elim (Option-cases s.governance_config) [
  | inl missing ↦ absurd (ground arith)
  | inr (c, configured) ↦
      let q = new_proposal id a w d e.timestamp (e.timestamp + c.voting_period) c in
      (
        q,
        ground arith,
        ground arith,
        record {
          for_count = 0;
          against_count = 0;
          abstain_count = 0;
          for_is = refl;
          against_is = refl;
          abstain_is = refl;
        },
      )
]

pub cancel_proposal-ok :
    (e : Env) (s s' : State) (a : Address) (id : ℕ)
    → cancel_proposal a id e s ≡ ok (tt, s')
    → (p : Proposal) × (w : ProposalStatus) × (proposal_of s id ≡ some p)
      × (s'.proposals ≡ (store_proposal id (with_status w p) s).proposals)
      × (s'.governance_config ≡ s.governance_config)
unfolding cancel_proposal get_proposal
cancel_proposal-ok e s s' a id h = elim (Option-cases (proposal_of s id)) [
  | inl missing ↦ absurd (ground arith)
  | inr (p, found) ↦ (p, ProposalStatus.cancelled, found, ground arith, ground arith)
]

pub sweep_expired_proposal-ok :
    (e : Env) (s s' : State) (id : ℕ)
    → sweep_expired_proposal id e s ≡ ok (tt, s')
    → (p : Proposal) × (w : ProposalStatus) × (proposal_of s id ≡ some p)
      × (s'.proposals ≡ (store_proposal id (with_status w p) s).proposals)
      × (s'.governance_config ≡ s.governance_config)
unfolding sweep_expired_proposal get_proposal
sweep_expired_proposal-ok e s s' id h = elim (Option-cases (proposal_of s id)) [
  | inl missing ↦ absurd (ground arith)
  | inr (p, found) ↦ (p, ProposalStatus.expired, found, ground arith, ground arith)
]
