-- ===== src/Governance/Histories.antt =====
-- What every history of the governance contract of governance.rs keeps.
use grainlify_stellar_contra.Base.{
  ℕ, ◌+◌, ◌≡◌, ◌≤◌, ◌<◌, some, none, arith, Bool-cases, inl, inr, ◌==◌,
}
use grainlify_stellar_contra.Base.Int.{pos}
use grainlify_stellar_contra.Base.Host.{Env, ok}
use native.Mathlib.Nat.{mul-le-mul_right}
use grainlify_stellar_contra.Governance.State.{
  State, Proposal, GovernanceConfig, ProposalStatus, approved,
}
use grainlify_stellar_contra.Governance.Proposals.{
  total_voting_power, proposal_of, with_status, store_proposal,
}
use grainlify_stellar_contra.Governance.Voting.{finalize_proposal}
use grainlify_stellar_contra.Governance.Effects.{finalize_proposal-ok, execute_proposal-ok}
use grainlify_stellar_contra.Governance.Approval.{IsTallied, IsQuorate, finalize_proposal-verdict}
use grainlify_stellar_contra.Governance.Steps.{
  Step, Steps, initialise, create, vote, finalise, execute, cancel, sweep, stay, next,
}
use grainlify_stellar_contra.Governance.Tallies.{
  IsConfigured, init_governance-IsConfigured, add_vote-IsTallied, counted-IsTallied,
  with_status-IsTallied, cast_vote-ok, create_proposal-ok, cancel_proposal-ok,
  sweep_expired_proposal-ok,
}

-- No tally is negative, and the configuration passed the checks of `init_governance`.
pub record IsSound (s : State) : Type 0 where
  pub tallied : (id : ℕ) (p : Proposal) → proposal_of s id ≡ some p → IsTallied p
  pub configured : (c : GovernanceConfig) → s.governance_config ≡ some c → IsConfigured c

-- Writing a proposal whose tallies are not negative keeps the storage sound.
store-IsSound :
    (s s' : State) (id : ℕ) (q : Proposal)
    → s'.proposals ≡ (store_proposal id q s).proposals
    → s'.governance_config ≡ s.governance_config
    → IsTallied q
    → IsSound s
    → IsSound s'
store-IsSound s s' id q written same t sound = record {
  tallied = λ i p found. elim (Bool-cases (i == id)) [
    | inl here ↦ let one : q ≡ p = ground arith in rw (← one) t
    | inr other ↦ sound.tallied i p (ground arith)
  ];
  configured = λ c k. sound.configured c (rw same at k);
}

Step-IsSound : (s s' : State) → Step s s' → IsSound s → IsSound s'
Step-IsSound s s' (initialise e a c h) sound =
    let (good, same, now) = init_governance-IsConfigured e s s' a c h in
    record {
      tallied = λ id p found. sound.tallied id p (rw same at found);
      configured = λ d k. let one : c ≡ d = cc in rw (← one) good;
    }
Step-IsSound s s' (create e a w d id h) sound =
    let (q, written, same, t) = create_proposal-ok e s s' a w d h in
    store-IsSound s s' id q written same t sound
Step-IsSound s s' (vote e a id v h) sound =
    let (p, q, n, m, found, added, written, same) = cast_vote-ok e s s' a id v h in
    store-IsSound s s' id _ written same
      (counted-IsTallied q m (add_vote-IsTallied v n p q (sound.tallied id p found) added)) sound
Step-IsSound s s' (finalise e id v h) sound =
    let (p, _, found, _, _, _, written) = finalize_proposal-ok e s s' id h in
    store-IsSound s s' id (with_status v p) (rw written) (rw written)
      (with_status-IsTallied v p (sound.tallied id p found)) sound
Step-IsSound s s' (execute e id h) sound =
    let (p, found, _, _, written) = execute_proposal-ok e s s' id h in
    store-IsSound s s' id (with_status ProposalStatus.executed p) (rw written) (rw written)
      (with_status-IsTallied _ p (sound.tallied id p found)) sound
Step-IsSound s s' (cancel e a id h) sound =
    let (p, w, found, written, same) = cancel_proposal-ok e s s' a id h in
    store-IsSound s s' id _ written same (with_status-IsTallied w p (sound.tallied id p found))
      sound
Step-IsSound s s' (sweep e id h) sound =
    let (p, w, found, written, same) = sweep_expired_proposal-ok e s s' id h in
    store-IsSound s s' id _ written same (with_status-IsTallied w p (sound.tallied id p found))
      sound

pub Steps-IsSound : {s s' : State} → Steps s s' → IsSound s → IsSound s'
Steps-IsSound stay sound = sound
Steps-IsSound (next {t} {u} path step) sound = Step-IsSound t u step (Steps-IsSound path sound)

-- In every history that starts with no proposals and no configuration, a proposal that
-- `finalize_proposal` approves has at least as many votes for it as against it, some vote for it,
-- and meets the quorum of the configuration.
pub approved_has_majority :
    (e : Env) (s t t' : State) (id : ℕ)
    → s.proposals ≡ none
    → s.governance_config ≡ none
    → Steps s t
    → finalize_proposal id e t ≡ ok (approved, t')
    → (p : Proposal) × (c : GovernanceConfig) × (power f a b : ℕ) × (proposal_of t id ≡ some p)
      × (t.governance_config ≡ some c)
      × (total_voting_power c ≡ pos power)
      × (p.votes_for ≡ pos f)
      × (p.votes_against ≡ pos a)
      × (p.votes_abstain ≡ pos b)
      × IsQuorate c.quorum_percentage power (f + a + b)
      × (0 < f)
      × (a ≤ f)
approved_has_majority e s t t' id empty unset path h =
    let sound : IsSound t =
      Steps-IsSound path
        (record { tallied = λ i p found. absurd (ground arith); configured = λ c k. absurd cc }) in
    let (p, c, found, configured, _, _, _) = finalize_proposal-ok e t t' id h in
    let k = sound.tallied id p found in
    let g = sound.configured c configured in
    elim (finalize_proposal-verdict e t t' id k found configured g.power_is h) [
      | inl (_, enough, (some_, carried)) ↦
          let bound = mul-le-mul_right (k.for_count + k.against_count) g.threshold in
          (
            p,
            c,
            g.power,
            k.for_count,
            k.against_count,
            k.abstain_count,
            found,
            configured,
            g.power_is,
            k.for_is,
            k.against_is,
            k.abstain_is,
            enough,
            omega arith,
            omega arith,
          )
      | inr (wrong, _) ↦ absurd (ground arith)
    ]
